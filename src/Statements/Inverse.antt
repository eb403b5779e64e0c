-- ===== src/Statements/Inverse.antt =====
-- What a statement that succeeded did.
use agentbeacon.Base.{
  ◌++◌, none, some, String, Bool, Option, ℕ, ◌≡◌, arith, count_where, filter_where, not, ◌∷◌, [],
  succ_ℤ,
}
use agentbeacon.Json.{Json}
use agentbeacon.Tables.{Db, Env, Session, Execution}
use agentbeacon.Tx.{◌>>=◌}
use agentbeacon.Tx.Inverse.{Ok}
use agentbeacon.Statements.{
  attempt, fetch_one, get_session, get_execution, begin_execution_tx, update_sessions, insert_task,
  delete_by_session, insert_event, verify_session_owner, append_event, count_pending_turns, Task,
  find_execution, find_session, EventType, pending_turns, InsertedEvent, update_where, task_is_of,
  next_event,
}

module _ (e : Env) (d d' : Db) where
  pub attempt-Ok : (label : String) (u : Unit {0}) → Ok (attempt label) e d u d' → d ≡ d'
  unfolding attempt ◌>>=◌
  attempt-Ok label u h = ground arith

  pub fetch_one-Ok :
      {A : Type 0} (what : String) (o : Option A) (a : A)
      → Ok (fetch_one what o) e d a d'
      → (o ≡ some a) × (d ≡ d')
  unfolding fetch_one ◌>>=◌
  fetch_one-Ok what none a h = absurd (cc)
  fetch_one-Ok what (some b) a h = ground arith

  pub get_session-Ok :
      (id : String) (s : Session)
      → Ok (get_session id) e d s d'
      → (find_session id d.sessions ≡ some s) × (d ≡ d')
  unfolding get_session attempt fetch_one ◌>>=◌
  get_session-Ok id s h = ground arith

  pub get_execution-Ok :
      (id : String) (x : Execution)
      → Ok (get_execution id) e d x d'
      → (find_execution id d.executions ≡ some x) × (d ≡ d')
  unfolding get_execution attempt fetch_one ◌>>=◌
  get_execution-Ok id x h = ground arith

  pub begin_execution_tx-Ok :
      (id : String) (u : Unit {0}) → Ok (begin_execution_tx id) e d u d' → d ≡ d'
  unfolding begin_execution_tx attempt fetch_one ◌>>=◌
  begin_execution_tx-Ok id u h = ground arith

  pub update_sessions-Ok :
      (label : String) (test : Session → Bool) (f : Session → Session) (n : ℕ)
      → Ok (update_sessions label test f) e d n d'
      → (count_where test d.sessions ≡ n)
        × (record d { sessions = update_where test f d.sessions } ≡ d')
  unfolding update_sessions attempt ◌>>=◌
  update_sessions-Ok label test f n h = ground arith

  pub count_pending_turns-Ok :
      (id : String) (n : ℕ)
      → Ok (count_pending_turns id) e d n d'
      → (pending_turns id d.task_queue ≡ n) × (d ≡ d')
  unfolding count_pending_turns attempt ◌>>=◌
  count_pending_turns-Ok id n h = ground arith

  pub insert_task-Ok :
      (label : String) (t : Task) (u : Unit {0})
      → Ok (insert_task label t) e d u d'
      → record d { task_queue = d.task_queue ++ t ∷ [] } ≡ d'
  unfolding insert_task attempt ◌>>=◌
  insert_task-Ok label t u h = ground arith

  pub delete_by_session-Ok :
      (id : String) (n : ℕ)
      → Ok (delete_by_session id) e d n d'
      → record d { task_queue = filter_where (λ t. not (task_is_of id t)) d.task_queue } ≡ d'
  unfolding delete_by_session attempt ◌>>=◌
  delete_by_session-Ok id n h = ground arith

  pub insert_event-Ok :
      (x : String) (s : Option String) (t : EventType) (p : Json) (r : InsertedEvent)
      → Ok (insert_event x s t p) e d r d'
      → (r ≡ record { id = d.next_event_id; created_at = e.rfc3339 e.now })
        × (record d {
          events = d.events ++ next_event x s t p e.now d ∷ [];
          next_event_id = succ_ℤ d.next_event_id;
        }
            ≡ d')
  unfolding insert_event verify_session_owner append_event attempt ◌>>=◌
  insert_event-Ok x none t p r h = ground arith
  insert_event-Ok x (some s) t p r h = ground arith
