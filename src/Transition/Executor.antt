-- ===== src/Transition/Executor.antt =====
-- scheduler/src/services/transition.rs: what a worker reports of its executor. Only the worker that
-- holds the session may, and only while the session has no outcome or a command is out.
pub mod Owner
use agentbeacon.Base.{
  ◌⧺◌, ℕ, Bool, false, ◌&&◌, ◌||◌, Option, none, some, String, is_none, is_some, is_some_text, ltb,
  ◌==◌, if◌then◌else◌,
}
use agentbeacon.Json.{Fields, str, obj, field, end}
use agentbeacon.Resolution.Marker.{optional_text}
use agentbeacon.Tables.{
  Session, ExState, unassigned, running, idle, crashed, is_running, is_idle, is_crashed,
  state_change, platform, ex_state_text,
}
use agentbeacon.Tx.{Rejected, write_barrier, Tx, pure, throw, asks, ◌>>=◌, ◌>>◌}
use agentbeacon.Statements.{
  attempt, begin_execution_tx, get_session, update_sessions, session_has_id, insert_event,
}
use agentbeacon.Transition.Notify.{reject, or_not_found}

pub record CrashMeta : Type 0 where
  pub error : Option String
  pub error_kind : Option String
  pub stderr : Option String

-- `worker_id = ? AND (outcome IS NULL OR command_token IS NOT NULL)`.
abbrev pub may_report : String → String → Session → Bool
may_report session_id worker_id s =
    session_has_id session_id s
    && is_some_text s.worker_id worker_id
    && (is_none s.outcome || is_some s.command_token)

abbrev pub cleared_command : Session → Session
cleared_command s = record s {
  command_token = none;
  command_type = none;
  command_at = none;
  command_has_payload = false;
}

-- The row as each report leaves it.
unfoldable pub reported : ExState → Session → ℕ → Session → Session
reported crashed current now s = record (cleared_command s) {
  executor_state = crashed;
  updated_at = now;
}
reported idle current now s =
    if ltb 0 current.recovery_attempts
    then record s { executor_state = idle; recovery_attempts = 0; updated_at = now }
    else record s { executor_state = idle; updated_at = now }
reported running current now s = record s { executor_state = running; updated_at = now }
reported unassigned current now s = record s { executor_state = unassigned; updated_at = now }

crash_fields : Option CrashMeta → Fields
crash_fields none = end
crash_fields (some meta) =
    optional_text "error" meta.error
      (optional_text "error_kind" meta.error_kind (optional_text "stderr" meta.stderr end))

-- A crash that takes a command's payload with it is announced before the row changes.
unfoldable pub announce_loss : ExState → Session → Session → Tx Rejected (Unit {0})
unfolding insert_event
announce_loss crashed current session =
    if current.command_has_payload
    then (do
      reject "persist event failed" (
          insert_event session.execution_id (some session.id) platform (
            obj (
              field "message" (str "Agent recovered from a crash. A message may have been lost.")
                end)))
      pure tt)
    else pure tt
announce_loss _ current session = pure tt

-- The event of a change of state; none where the state was the same, nor for `unassigned`.
unfoldable pub announce_state :
    ExState → ExState → Session → Option CrashMeta → Tx Rejected (Unit {0})
unfolding insert_event crash_fields
announce_state state was session meta =
    let event = λ (rest : Fields). do
      reject "persist event failed" (
          insert_event session.execution_id (some session.id) state_change
            (obj (field "executor_state" (str (ex_state_text state)) rest)))
      pure tt
    in elim state [
      | crashed ↦ if is_crashed was then pure tt else event (crash_fields meta)
      | idle ↦ if is_idle was then pure tt else event end
      | running ↦ if is_running was then pure tt else event end
      | unassigned ↦ pure tt
    ]

abbrev set_failed : ExState → String
set_failed state = "set " ⧺ ex_state_text state ⧺ " failed"

unfoldable pub write_report : Session → ExState → String → Option CrashMeta → Tx Rejected (Unit {0})
unfolding begin_execution_tx announce_loss announce_state update_sessions reported
write_report session state worker_id meta = do
  reject "begin executor state tx failed" (begin_execution_tx session.execution_id)
  current ← or_not_found (get_session session.id)
  announce_loss state current session
  now ← asks (λ e. e.now)
  rows ← reject (set_failed state) (
      update_sessions (set_failed state) (may_report session.id worker_id)
        (reported state current now))
  if rows == 0 then throw write_barrier else do
    announce_state state current.executor_state session meta
    reject "commit executor state tx failed" (attempt "commit executor state tx failed")

unfoldable pub set_executor_state :
    Session → ExState → String → Option CrashMeta → Tx Rejected (Unit {0})
unfolding write_report
set_executor_state session state worker_id meta =
    if is_some session.outcome && is_none session.command_token
    then throw write_barrier
    else write_report session state worker_id meta
