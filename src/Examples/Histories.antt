-- ===== src/Examples/Histories.antt =====
-- A run: the root has ended, and with it its execution; then its child is stopped, from a row that
-- was read before.
use agentbeacon.Base.{some}
use agentbeacon.Tables.{Db, stop, canceled, Execution, terminate}
use agentbeacon.Transition.Actions.{Action}
use agentbeacon.Transition.Apply.{apply}
use agentbeacon.Examples.Rows.{child, calm, state_of, execution}
use agentbeacon.Examples.Changes.{finished}

abbrev stop_child : Action
stop_child = Action.set_desired stop "user"

abbrev later : Db
later = state_of finished (apply "x1" child stop_child calm finished)

abbrev ended_execution : Execution
ended_execution = record execution {
  desired = terminate;
  outcome = some canceled;
  updated_at = 100;
  last_activity_at = 100;
  completed_at = some 100;
}
