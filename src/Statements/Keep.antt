-- ===== src/Statements/Keep.antt =====
-- What the statements keep: a reading keeps every relation, a writing those that its rows keep.
use agentbeacon.Base.{
  Bool, String, List, Option, none, some, [], ◌∷◌, ◌++◌, succ_ℤ, filter_where, not,
}
use agentbeacon.Json.{Json}
use agentbeacon.Tables.{Session, Execution, Task, Event, EventType, Db}
use agentbeacon.Tx.Keeps.{
  Preorder, Keeps, Keeps-bind, Keeps-pure, Keeps-throw, Keeps-gets, Keeps-if, Keeps-modify, keeping,
  Keeps-asks,
}
use agentbeacon.Statements.{
  attempt, fetch_one, get_session, get_execution, begin_execution_tx, count_pending_turns,
  delete_by_session, insert_task, update_executions, update_sessions, verify_session_owner,
  append_event, insert_event, update_where, next_event, task_is_of,
}

module _ (R : Preorder) where
  open R use {Le}

  pub Keeps-attempt : (label : String) → Keeps R (attempt label)
  unfolding attempt
  Keeps-attempt label = search keeping

  pub Keeps-fetch_one : {A : Type 0} (what : String) (o : Option A) → Keeps R (fetch_one what o)
  unfolding fetch_one
  Keeps-fetch_one what none = Keeps-throw R _
  Keeps-fetch_one what (some x) = Keeps-pure R x

  pub Keeps-get_session : (id : String) → Keeps R (get_session id)
  unfolding get_session
  Keeps-get_session id = search (keeping, Keeps-attempt, Keeps-fetch_one)

  pub Keeps-get_execution : (id : String) → Keeps R (get_execution id)
  unfolding get_execution
  Keeps-get_execution id = search (keeping, Keeps-attempt, Keeps-fetch_one)

  pub Keeps-begin_execution_tx : (id : String) → Keeps R (begin_execution_tx id)
  unfolding begin_execution_tx
  Keeps-begin_execution_tx id = search (keeping, Keeps-attempt, Keeps-fetch_one) depth 8

  pub Keeps-count_pending_turns : (id : String) → Keeps R (count_pending_turns id)
  unfolding count_pending_turns
  Keeps-count_pending_turns id = search (keeping, Keeps-attempt)

  verify_session_owner-Keeps : (x : String) (s : Option String) → Keeps R (verify_session_owner x s)
  unfolding verify_session_owner
  verify_session_owner-Keeps x none = Keeps-pure R tt
  verify_session_owner-Keeps x (some s) = search (keeping, Keeps-attempt) depth 8

  pub Keeps-update_sessions :
      (label : String) (test : Session → Bool) (f : Session → Session)
      → ((d : Db) → Le d (record d { sessions = update_where test f d.sessions }))
      → Keeps R (update_sessions label test f)
  unfolding update_sessions
  Keeps-update_sessions label test f h = search (keeping, Keeps-attempt, Keeps-modify R _ h) depth 8

  pub Keeps-update_executions :
      (label : String) (test : Execution → Bool) (f : Execution → Execution)
      → ((d : Db) → Le d (record d { executions = update_where test f d.executions }))
      → Keeps R (update_executions label test f)
  unfolding update_executions
  Keeps-update_executions label test f h =
      search (keeping, Keeps-attempt, Keeps-modify R _ h) depth 8

  -- A relation that asks nothing of the queue.
  module _ (free : (d : Db) (q : List Task) → Le d (record d { task_queue = q })) where
    pub Keeps-insert_task : (label : String) (t : Task) → Keeps R (insert_task label t)
    unfolding insert_task
    Keeps-insert_task label t =
        search (keeping, Keeps-attempt, Keeps-modify R _ (λ d. free d (d.task_queue ++ t ∷ [])))

    pub Keeps-delete_by_session : (id : String) → Keeps R (delete_by_session id)
    unfolding delete_by_session
    Keeps-delete_by_session id =
        search
          (
            keeping,
            Keeps-attempt,
            Keeps-modify R _ (λ d. free d (filter_where (λ t. not (task_is_of id t)) d.task_queue)),
          )
          depth 8

  -- A relation that lets the log grow at its end.
  module _
      (grows : (d : Db) (e : Event)
        → Le d (record d {
          events = d.events ++ e ∷ [];
          next_event_id = succ_ℤ d.next_event_id;
        })) where
    append_event-Keeps :
        (x : String) (s : Option String) (t : EventType) (p : Json) → Keeps R (append_event x s t p)
    unfolding append_event
    append_event-Keeps x s t p = Keeps-bind R _ _ (Keeps-asks R _) λ now.
        Keeps-bind R _ _ (Keeps-asks R _) λ written. Keeps-bind R _ _ (Keeps-gets R _) λ id.
          Keeps-bind R _ _ (Keeps-modify R _ (λ d. grows d (next_event x s t p now d)))
            (λ u. Keeps-pure R _)

    pub Keeps-insert_event :
        (x : String) (s : Option String) (t : EventType) (p : Json) → Keeps R (insert_event x s t p)
    unfolding insert_event
    Keeps-insert_event x s t p =
        search (keeping, Keeps-attempt, verify_session_owner-Keeps, append_event-Keeps) depth 8

-- The readings.
pub ruleset reading = (
  keeping, Keeps-attempt, Keeps-fetch_one, Keeps-get_session, Keeps-get_execution,
  Keeps-begin_execution_tx, Keeps-count_pending_turns,
)
