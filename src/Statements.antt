-- ===== src/Statements.antt =====
-- scheduler/src/db: the statements of the state machine. Each may fail, and then the transaction
-- that holds it comes to nothing.
pub mod Rows
pub mod Keep
pub mod Inverse
pub mod Work
pub mod Sync
use agentbeacon.Base.{
  ℕ, Bool, true, false, ◌&&◌, List, [], ◌∷◌, ◌++◌, Option, none, some, String, ℤ, succ_ℤ, str_eq,
  is_some_text, find, count_where, filter_where, not, if◌then◌else◌,
}
use agentbeacon.Json.{Json}
use agentbeacon.Tables.{Session, Execution, Task, EventType, Event, InsertedEvent, Db, Env}
use agentbeacon.Tx.{
  modify, SchedulerError, database, missing, problem, Tx, ok, err, pure, throw, gets, asks, ◌>>=◌,
  ◌>>◌,
}

-- One statement: the label names it, as the source's error message does.
unfoldable pub attempt : String → Tx SchedulerError (Unit {0})
attempt label = do
  failed ← asks (λ e. e.fails label)
  if failed then throw (database label) else pure tt

unfoldable pub fetch_one : {A : Type 0} → String → Option A → Tx SchedulerError A
fetch_one what none = throw (missing what)
fetch_one what (some a) = pure a

abbrev pub session_has_id : String → Session → Bool
session_has_id id s = str_eq s.id id

abbrev pub execution_has_id : String → Execution → Bool
execution_has_id id x = str_eq x.id id

unfoldable pub find_session : String → List Session → Option Session
unfolding find
find_session id ss = find (session_has_id id) ss

unfoldable pub find_execution : String → List Execution → Option Execution
unfolding find
find_execution id xs = find (execution_has_id id) xs

-- `db::sessions::get_by_id`, and `get_in_tx` inside a transaction.
unfoldable pub get_session : String → Tx SchedulerError Session
unfolding attempt fetch_one
get_session id = do
  attempt "select session failed"
  found ← gets (λ d. find_session id d.sessions)
  fetch_one "session" found

-- `db::executions::get_by_id`, and `get_in_tx` inside a transaction.
unfoldable pub get_execution : String → Tx SchedulerError Execution
unfolding attempt fetch_one
get_execution id = do
  attempt "select execution failed"
  found ← gets (λ d. find_execution id d.executions)
  fetch_one "execution" found

-- Begin a transaction and take the lock of the execution's row, which must be there.
unfoldable pub begin_execution_tx : String → Tx SchedulerError (Unit {0})
unfolding attempt fetch_one
begin_execution_tx execution_id = do
  attempt "begin execution tx failed"
  found ← gets (λ d. find_execution execution_id d.executions)
  fetch_one "execution lock" found
  pure tt

-- `UPDATE … SET f WHERE test`.
unfoldable pub update_where : {A : Type 0} → (A → Bool) → (A → A) → List A → List A
update_where test f [] = []
update_where test f (x ∷ xs) = (if test x then f x else x) ∷ update_where test f xs

-- The result of an update or a deletion is `rows_affected`.
unfoldable pub update_sessions :
    String → (Session → Bool) → (Session → Session) → Tx SchedulerError ℕ
unfolding attempt
update_sessions label test f = do
  attempt label
  rows ← gets (λ d. count_where test d.sessions)
  modify (λ d. record d { sessions = update_where test f d.sessions })
  pure rows

unfoldable pub update_executions :
    String → (Execution → Bool) → (Execution → Execution) → Tx SchedulerError ℕ
unfolding attempt
update_executions label test f = do
  attempt label
  rows ← gets (λ d. count_where test d.executions)
  modify (λ d. record d { executions = update_where test f d.executions })
  pure rows

abbrev pub task_is_of : String → Task → Bool
task_is_of session_id t = str_eq t.session_id session_id

unfoldable pub pending_turns : String → List Task → ℕ
unfolding count_where
pending_turns session_id ts = count_where (task_is_of session_id) ts

-- `SELECT COUNT(*) FROM task_queue WHERE session_id = ?`.
unfoldable pub count_pending_turns : String → Tx SchedulerError ℕ
unfolding attempt
count_pending_turns session_id = do
  attempt "count pending turns"
  gets (λ d. pending_turns session_id d.task_queue)

unfoldable pub insert_task : String → Task → Tx SchedulerError (Unit {0})
unfolding attempt
insert_task label t = do
  attempt label
  modify (λ d. record d { task_queue = d.task_queue ++ t ∷ [] })

-- `DELETE FROM task_queue WHERE session_id = ?`.
unfoldable pub delete_by_session : String → Tx SchedulerError ℕ
unfolding attempt
delete_by_session session_id = do
  attempt "delete_by_session failed"
  rows ← gets (λ d. pending_turns session_id d.task_queue)
  modify (λ d. record d {
    task_queue = filter_where (λ t. not (task_is_of session_id t)) d.task_queue;
  })
  pure rows

abbrev owned_by : String → Option Session → Bool
owned_by execution_id none = false
owned_by execution_id (some s) = str_eq s.execution_id execution_id

-- The session of an event must belong to the execution that the transaction has locked. The source
-- remembers a session that it has checked, since no statement moves a session.
unfoldable pub verify_session_owner : String → Option String → Tx SchedulerError (Unit {0})
unfolding attempt
verify_session_owner execution_id none = pure tt
verify_session_owner execution_id (some session_id) = do
  attempt "session owner lookup failed"
  owner ← gets (λ d. find_session session_id d.sessions)
  if owned_by execution_id owner
      then pure tt
      else throw (problem "event session does not belong to the locked execution")

abbrev pub next_event : String → Option String → EventType → Json → ℕ → Db → Event
next_event execution_id session_id event_type payload now d = record {
  id = d.next_event_id;
  execution_id = execution_id;
  session_id = session_id;
  event_type = event_type;
  payload = some payload;
  msg_seq = none;
  created_at = now;
}

unfoldable pub append_event :
    String → Option String → EventType → Json → Tx SchedulerError InsertedEvent
append_event execution_id session_id event_type payload = do
  now ← asks (λ e. e.now)
  written ← asks (λ e. e.rfc3339 now)
  id ← gets (λ d. d.next_event_id)
  modify (λ d. record d {
    events = d.events ++ next_event execution_id session_id event_type payload now d ∷ [];
    next_event_id = succ_ℤ d.next_event_id;
  })
  pure (record { id = id; created_at = written })

-- `db::events::insert_in_tx`, in a transaction on `execution_id`.
unfoldable pub insert_event :
    String → Option String → EventType → Json → Tx SchedulerError InsertedEvent
unfolding attempt verify_session_owner append_event
insert_event execution_id session_id event_type payload = do
  verify_session_owner execution_id session_id
  attempt "insert event failed"
  append_event execution_id session_id event_type payload

unfoldable pub touch_last_activity : String → Tx SchedulerError (Unit {0})
unfolding update_executions
touch_last_activity execution_id = do
  now ← asks (λ e. e.now)
  update_executions "touch last activity failed" (execution_has_id execution_id)
      (λ x. record x { last_activity_at = now })
  pure tt
