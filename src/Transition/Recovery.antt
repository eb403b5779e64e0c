-- ===== src/Transition/Recovery.antt =====
-- scheduler/src/services/transition.rs: crashes that the scheduler detects, and retries.
pub mod Effects
use agentbeacon.Base.{
  ◌+◌, Bool, ◌&&◌, ◌||◌, Option, none, some, String, ℤ, pos, is_none, is_some, str_eq, ◌==◌,
  if◌then◌else◌,
}
use agentbeacon.Json.{Json, str, num, int, obj, field, end}
use agentbeacon.Tables.{
  Session, Desired, ExState, unassigned, crashed, is_run, is_crashed, state_change, platform,
}
use agentbeacon.Tx.{Rejected, not_found, write_barrier, Tx, pure, throw, asks, ◌>>=◌, ◌>>◌}
use agentbeacon.Statements.{
  attempt, begin_execution_tx, get_session, get_execution, update_sessions, session_has_id,
  insert_event,
}
use agentbeacon.Transition.Notify.{reject, or_not_found}
use agentbeacon.Transition.Desire.{set_desired, terminate_failed}
use agentbeacon.Transition.Message.{SendMessageArgs, send_message}
use agentbeacon.Transition.Executor.{CrashMeta, cleared_command, set_executor_state}

unfoldable pub detect_crash : Session → Tx Rejected (Unit {0})
unfolding begin_execution_tx update_sessions insert_event
detect_crash session = do
  reject "begin detect_crash tx failed" (begin_execution_tx session.execution_id)
  current ← or_not_found (get_session session.id)
  now ← asks (λ e. e.now)
  rows ← reject "detect crash failed" (
      update_sessions "detect crash failed"
        (λ s. session_has_id session.id s && (is_some s.worker_id || is_some s.command_token))
        (λ s. record (cleared_command s) {
          executor_state = crashed;
          worker_id = none;
          updated_at = now;
        }))
  if rows == 0 then throw write_barrier else do
    (if is_crashed current.executor_state then pure tt else do
      reject "persist event failed" (
          insert_event session.execution_id (some session.id) state_change
            (obj (field "executor_state" (str "crashed") end)))
      pure tt)
    reject "commit detect_crash tx failed" (attempt "commit detect_crash tx failed")

unfoldable pub announce_recovery : Session → Session → Tx Rejected (Unit {0})
unfolding insert_event
announce_recovery updated session =
    if is_some updated.agent_session_id
    then (do
      reject "persist event failed" (
          insert_event session.execution_id (some session.id) platform (
            obj (
              field "message"
                (str "Agent recovered from a crash; work in progress may have been lost.") end)))
      pure tt)
    else pure tt

unfoldable pub retry_recovery : Session → Tx Rejected (Unit {0})
unfolding begin_execution_tx update_sessions insert_event announce_recovery
retry_recovery session = do
  reject "begin retry_recovery tx failed" (begin_execution_tx session.execution_id)
  now ← asks (λ e. e.now)
  rows ← reject "retry recovery failed" (
      update_sessions "retry recovery failed"
        (λ s.
          session_has_id session.id s
          && is_crashed s.executor_state
          && is_none s.outcome
          && is_run s.desired)
        (λ s. record s {
          executor_state = unassigned;
          recovery_attempts = s.recovery_attempts + 1;
          updated_at = now;
        }))
  if rows == 0 then throw write_barrier else do
    updated ← or_not_found (get_session session.id)
    announce_recovery updated session
    reject "persist event failed" (
        insert_event session.execution_id (some session.id) state_change (
          obj (
            field "executor_state" (str "unassigned")
              (field "recovery_attempt" (num (int (pos updated.recovery_attempts))) end))))
    reject "commit retry_recovery tx failed" (attempt "commit retry_recovery tx failed")
