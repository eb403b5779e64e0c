-- ===== src/Transition/Actions.antt =====
-- scheduler/src/services/transition.rs: the actions on a session.
use agentbeacon.Base.{Option, String}
use agentbeacon.Json.{Json}
use agentbeacon.Tables.{Desired, ExState}
use agentbeacon.Transition.Message.{SendMessageArgs}
use agentbeacon.Transition.Executor.{CrashMeta}

pub data Action : Type 0 where
  set_desired : Desired → String → Action
  send_message : SendMessageArgs → Action
  delegate : String → Json → Action
  set_executor_state : ExState → String → Option CrashMeta → Action
  detect_crash retry_recovery : Action
