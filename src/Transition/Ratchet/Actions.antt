-- ===== src/Transition/Ratchet/Actions.antt =====
-- The history under every action, and under every sequence of them.
use agentbeacon.Tx.Keeps.{keeping}
use agentbeacon.Base.{String, Bool}
use agentbeacon.Transition.Actions.{Action}
use agentbeacon.Transition.Terminal.{write_execution_terminal}
use agentbeacon.Transition.Ratchet.Steps.{write_execution_terminal_in_tx-Kept}
use agentbeacon.Transition.Apply.{
  look_up, check_delegate, apply, transition, terminate_session, terminate_session_failed,
}
use agentbeacon.Transition.Ratchet.{Session, Outcome}
use agentbeacon.Transition.Ratchet.Steps.{Kept}
use agentbeacon.Statements.Keep.{reading}
use agentbeacon.Transition.Ratchet.Desire.{set_desired-Kept, terminate_failed-Kept}
use agentbeacon.Transition.Ratchet.Message.{send_message-Kept}
use agentbeacon.Transition.Ratchet.Executor.{
  set_executor_state-Kept, detect_crash-Kept, retry_recovery-Kept,
}

pub look_up-Kept : (x s : String) → Kept (look_up x s)
unfolding look_up
look_up-Kept x s = search reading depth 8

check_delegate-Kept : (x : String) → Kept (check_delegate x)
unfolding check_delegate
check_delegate-Kept x = search reading depth 8

pub apply-Kept : (x : String) (s : Session) (a : Action) → Kept (apply x s a)
unfolding apply
apply-Kept x s (Action.set_desired d by) = search (keeping, set_desired-Kept)
apply-Kept x s (Action.send_message m) = search (keeping, send_message-Kept)
apply-Kept x s (Action.delegate g p) = check_delegate-Kept x
apply-Kept x s (Action.set_executor_state y w m) = search (keeping, set_executor_state-Kept)
apply-Kept x s Action.detect_crash = search (keeping, detect_crash-Kept)
apply-Kept x s Action.retry_recovery = search (keeping, retry_recovery-Kept)

pub transition-Kept : (x s : String) (a : Action) → Kept (transition x s a)
unfolding transition
transition-Kept x s a = search (keeping, look_up-Kept, apply-Kept)

pub terminate_session-Kept : (x s by : String) → Kept (terminate_session x s by)
unfolding terminate_session
terminate_session-Kept x s by = search (keeping, look_up-Kept, set_desired-Kept)

pub terminate_session_failed-Kept :
    (x s by : String) (r : Bool) → Kept (terminate_session_failed x s by r)
unfolding terminate_session_failed
terminate_session_failed-Kept x s by r = search (keeping, look_up-Kept, terminate_failed-Kept)

pub write_execution_terminal-Kept : (x : String) (o : Outcome) → Kept (write_execution_terminal x o)
unfolding write_execution_terminal
write_execution_terminal-Kept x o = search (reading, write_execution_terminal_in_tx-Kept) depth 12
