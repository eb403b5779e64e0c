-- ===== src/Transition/Terminal.antt =====
-- scheduler/src/services/transition.rs: the terminal row of an execution.
pub mod Effects
use agentbeacon.Base.{
  Bool, true, false, ◌&&◌, Option, none, some, String, is_none, is_some, ltb, is_some, find, str_eq,
  if◌then◌else◌,
}
use agentbeacon.Json.{str, obj, field, end}
use agentbeacon.Tables.{Session, Outcome, Db, terminate, outcome_text, state_change}
use agentbeacon.Tx.{SchedulerError, Tx, pure, gets, asks, ◌>>=◌, ◌>>◌}
use agentbeacon.Statements.{
  attempt, begin_execution_tx, execution_has_id, update_executions, insert_event,
}

unfoldable pub write_execution_terminal_in_tx : String → Outcome → Tx SchedulerError Bool
unfolding update_executions insert_event
write_execution_terminal_in_tx execution_id outcome = do
  now ← asks (λ e. e.now)
  rows ←
      update_executions "write execution terminal failed"
        (λ x. execution_has_id execution_id x && is_none x.outcome)
        (λ x. record x {
          desired = terminate;
          outcome = some outcome;
          updated_at = now;
          completed_at = some now;
          last_activity_at = now;
        })
  if ltb 0 rows
      then (do
        insert_event execution_id none state_change (
            obj (
              field "desired" (str "terminate") (field "outcome" (str (outcome_text outcome)) end)))
        pure true)
      else pure false

-- The first root session of an execution, if it has one.
unfoldable pub find_root : String → Db → Option Session
unfolding find
find_root execution_id d =
    find (λ s. str_eq s.execution_id execution_id && is_none s.parent_session_id) d.sessions

unfoldable pub root_is_terminal : Option Session → Bool
root_is_terminal none = false
root_is_terminal (some root) = is_some root.outcome

unfoldable pub write_execution_terminal : String → Outcome → Tx SchedulerError Bool
unfolding begin_execution_tx write_execution_terminal_in_tx root_is_terminal find_root attempt
write_execution_terminal execution_id outcome = do
  begin_execution_tx execution_id
  attempt "read root for terminal write"
  root ← gets (find_root execution_id)
  wrote ←
      (if root_is_terminal root
        then write_execution_terminal_in_tx execution_id outcome
        else pure false)
  attempt "commit execution terminal"
  pure wrote
