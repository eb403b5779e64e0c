-- ===== src/Statements/Sync.antt =====
-- scheduler/src/db: the statements of the workers' synchronisation. `ORDER BY created_at` is the order
-- in which the rows stand.
use agentbeacon.Tables.{Db, is_run, is_terminate, is_unassigned, is_failed}
use agentbeacon.Statements.{
  attempt, update_sessions, Event, EventType, Execution, Session, Tx, verify_session_owner, Json,
  SchedulerError, execution_has_id, InsertedEvent, asks, gets, modify, session_has_id, pure,
  task_is_of, next_event, throw, missing,
}
use agentbeacon.Base.{
  Bool, String, ℤ, List, Option, filter_where, find, false, is_none, is_some_text, ltb, ◌&&◌,
  count_where, not, some, ◌||◌, eq_ℤ, if◌then◌else◌, is_some, str_eq, none, ◌++◌, ◌==◌, ◌∷◌, [],
  succ_ℤ,
}
use agentbeacon.Tx.{◌>>=◌, ◌>>◌}

abbrev pub any_where : {A : Type 0} → (A → Bool) → List A → Bool
any_where test xs = ltb 0 (count_where test xs)

unfoldable pub find_sessions_for_worker : String → Tx SchedulerError (List Session)
unfolding attempt filter_where
find_sessions_for_worker worker_id = do
  attempt "find sessions for worker failed"
  gets (λ d. filter_where (λ s. is_some_text s.worker_id worker_id) d.sessions)

abbrev runs_execution : String → Execution → Bool
runs_execution id x = execution_has_id id x && is_run x.desired && is_none x.outcome

abbrev pub is_claimable : Db → Session → Bool
is_claimable d s =
    any_where (runs_execution s.execution_id) d.executions
    && is_run s.desired
    && is_unassigned s.executor_state
    && is_none s.outcome
    && is_none s.command_token
    && is_none s.worker_id
    && (any_where (task_is_of s.id) d.task_queue || is_some s.agent_session_id)

unfoldable pub find_unassigned_with_work : Tx SchedulerError (Option Session)
unfolding attempt find
find_unassigned_with_work = do
  attempt "find unassigned with work failed"
  gets (λ d. find (is_claimable d) d.sessions)

abbrev is_unfinished_execution : String → Execution → Bool
is_unfinished_execution id x = execution_has_id id x && is_none x.outcome

-- A live child of the session.
abbrev is_live_child_of : String → Session → Bool
is_live_child_of id c =
    is_some_text c.parent_session_id id && is_none c.outcome && not (is_terminate c.desired)

abbrev pub is_reconcilable : Db → Session → Bool
is_reconcilable d s =
    is_none s.outcome
    || is_some s.worker_id
    || is_some s.command_token
    || (not s.parent_notified && is_some s.parent_session_id && is_failed s.outcome)
    || (is_some s.outcome && not (is_terminate s.desired))
    || (is_none s.parent_session_id
        && is_some s.outcome
        && any_where (is_unfinished_execution s.execution_id) d.executions)
    || (is_some s.outcome && any_where (task_is_of s.id) d.task_queue)
    || (is_terminate s.desired && is_some s.outcome && any_where (is_live_child_of s.id) d.sessions)

unfoldable pub find_reconcilable : Tx SchedulerError (List Session)
unfolding attempt filter_where
find_reconcilable = do
  attempt "find_reconcilable failed"
  gets (λ d. filter_where (is_reconcilable d) d.sessions)

unfoldable pub update_agent_session_id : String → String → String → Tx SchedulerError (Unit {0})
unfolding update_sessions
update_agent_session_id id agent_session_id worker_id = do
  now ← asks (λ e. e.now)
  rows ←
      update_sessions "update agent_session_id failed"
        (λ s. session_has_id id s && is_some_text s.worker_id worker_id)
        (λ s. record s { agent_session_id = some agent_session_id; updated_at = now })
  if rows == 0 then throw (missing "session") else pure tt

abbrev pub has_token : String → Session → Bool
has_token token s = is_some_text s.command_token token

unfoldable pub find_command : String → Tx SchedulerError (Option Session)
unfolding attempt find
find_command token = do
  attempt "query command_token failed"
  gets (λ d. find (has_token token) d.sessions)

abbrev same_seq : ℤ → Option ℤ → Bool
same_seq msg_seq none = false
same_seq msg_seq (some n) = eq_ℤ n msg_seq

abbrev same_text : String → Option String → Bool
same_text id none = false
same_text id (some t) = str_eq t id

abbrev pub is_message : String → ℤ → Event → Bool
is_message session_id msg_seq v = same_text session_id v.session_id && same_seq msg_seq v.msg_seq

unfoldable pub append_message :
    String → String → EventType → Json → ℤ → Tx SchedulerError InsertedEvent
append_message execution_id session_id event_type payload msg_seq = do
  now ← asks (λ e. e.now)
  written ← asks (λ e. e.rfc3339 now)
  id ← gets (λ d. d.next_event_id)
  modify (λ d. record d {
    events =
        d.events
        ++ record (next_event execution_id (some session_id) event_type payload now d) {
          msg_seq = some msg_seq;
        }
          ∷ [];
    next_event_id = succ_ℤ d.next_event_id;
  })
  pure (record { id = id; created_at = written })

-- `ON CONFLICT (session_id, msg_seq) DO NOTHING`. A row that is not inserted takes no id, as on SQLite.
unfoldable pub insert_with_dedup :
    String → String → EventType → Json → ℤ → Tx SchedulerError (Option InsertedEvent)
unfolding attempt verify_session_owner append_message
insert_with_dedup execution_id session_id event_type payload msg_seq = do
  verify_session_owner execution_id (some session_id)
  attempt "insert event dedup failed"
  known ← gets (λ d. any_where (is_message session_id msg_seq) d.events)
  if known then pure none else do
    inserted ← append_message execution_id session_id event_type payload msg_seq
    pure (some inserted)
