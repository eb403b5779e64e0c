-- ===== src/Examples/Messages.antt =====
-- Messages: an answer, and a second one that is refused.
use agentbeacon.Json.{str}
use agentbeacon.Base.{some, refl, pos, List, ◌≡◌, ◌||◌, is_some, false, ◌++◌, ◌∷◌, [], none, true}
use agentbeacon.Tables.{Db, Session, Execution, Event, is_terminate, terminate, completed}
use agentbeacon.Tx.{◌>>=◌}
use agentbeacon.Statements.{find_execution, find_session}
use agentbeacon.Tx.Inverse.{Ok}
use agentbeacon.Transition.Message.{send_message, ResolutionMarker, SendMessageArgs}
use agentbeacon.Transition.Message.Accepted.{message_effects, message_task, message_event}
use agentbeacon.Examples.Rows.{
  root, answer_args, calm, database_rows, question, state_of, execution,
}

abbrev pub answered : Db
answered = state_of database_rows (send_message root answer_args calm database_rows)

pub accepted : Ok (send_message root answer_args) calm database_rows (pos 5) answered
unfolding send_message ◌>>=◌ find_execution find_session
accepted = refl

abbrev answer_marker : ResolutionMarker
answer_marker = record { escalation = question; answer_text = some "yes" }

message_effects_example :
    (t : Session) × (x : Execution) × (rest : List Event) × (find_session "root"
        database_rows.sessions
      ≡ some t)
    × (is_terminate t.desired || is_some t.outcome ≡ false)
    × (find_execution "x1" database_rows.executions ≡ some x)
    × (is_terminate x.desired || is_some x.outcome ≡ false)
    × (pos 5 ≡ database_rows.next_event_id)
    × (answered.task_queue ≡ database_rows.task_queue ++ message_task root answer_args ∷ [])
    × (answered.events
        ≡ (database_rows.events ++ message_event root answer_args 100 database_rows ∷ []) ++ rest)
message_effects_example =
    message_effects root answer_args calm database_rows answered (pos 5) accepted

abbrev note : SendMessageArgs
note = record {
  payload = str "hello";
  resolution = none;
  emit_message_delivered = false;
  from_user = true;
}

abbrev closed_rows : Db
closed_rows = record database_rows {
  executions = record execution { desired = terminate; outcome = some completed } ∷ [];
}
