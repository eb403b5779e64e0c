-- ===== src/Transition/Apply.antt =====
-- scheduler/src/services/transition.rs: an action on a session. The row is read first, and the
-- transaction of the action comes later: `apply` takes the row as it was read.
pub mod Ends
use agentbeacon.Base.{Bool, Option, none, some, String, ℤ, is_some, str_eq, if◌then◌else◌}
use agentbeacon.Tables.{Session, Desired}
use agentbeacon.Tx.{Rejected, not_found, write_barrier, Tx, pure, throw, ◌>>=◌, ◌>>◌}
use agentbeacon.Statements.{get_session, get_execution}
use agentbeacon.Transition.Notify.{or_not_found}
use agentbeacon.Transition.Desire.{set_desired, terminate_failed}
use agentbeacon.Transition.Message.{send_message}
use agentbeacon.Transition.Executor.{set_executor_state}
use agentbeacon.Transition.Recovery.{detect_crash, retry_recovery}
use agentbeacon.Transition.Actions.{Action}

-- The session, if it belongs to the execution.
unfoldable pub look_up : String → String → Tx Rejected Session
look_up execution_id session_id = do
  session ← or_not_found (get_session session_id)
  if str_eq session.execution_id execution_id then pure session else throw not_found

unfoldable pub check_delegate : String → Tx Rejected (Option ℤ)
check_delegate execution_id = do
  execution ← or_not_found (get_execution execution_id)
  if is_some execution.outcome then throw write_barrier else pure none

unfoldable pub apply : String → Session → Action → Tx Rejected (Option ℤ)
unfolding set_desired send_message check_delegate set_executor_state detect_crash retry_recovery
apply execution_id session (Action.set_desired desired by) = do
  set_desired session desired by
  pure none
apply execution_id session (Action.send_message args) = do
  id ← send_message session args
  pure (some id)
apply execution_id session (Action.delegate agent_id prompt) = check_delegate execution_id
apply execution_id session (Action.set_executor_state state worker_id meta) = do
  set_executor_state session state worker_id meta
  pure none
apply execution_id session Action.detect_crash = do detect_crash session; pure none
apply execution_id session Action.retry_recovery = do retry_recovery session; pure none

unfoldable pub transition : String → String → Action → Tx Rejected (Option ℤ)
unfolding look_up apply
transition execution_id session_id action = do
  session ← look_up execution_id session_id
  apply execution_id session action

unfoldable pub terminate_session : String → String → String → Tx Rejected (Unit {0})
unfolding look_up set_desired
terminate_session execution_id session_id desired_by = do
  session ← look_up execution_id session_id
  set_desired session Desired.terminate desired_by

unfoldable pub terminate_session_failed : String → String → String → Bool → Tx Rejected (Unit {0})
unfolding look_up terminate_failed
terminate_session_failed execution_id session_id desired_by require_crashed = do
  session ← look_up execution_id session_id
  terminate_failed session desired_by require_crashed
