-- ===== src/Reconciler/Cascade.antt =====
-- scheduler/src/services/reconciler.rs: the actions of the state machine as the reconciler calls
-- them, and the termination of a session's descendants. `transition` reads the row in a statement of
-- its own, so others may run between that and the action.
-- `diverged` stands for a recursion that outruns the fuel.
use agentbeacon.Statements.Work.{get_children}
use agentbeacon.Statements.{get_session}
use agentbeacon.Transition.Desire.{terminate_failed}
use agentbeacon.Tables.{Session, Desired, is_terminate}
use agentbeacon.Transition.Actions.{Action}
use agentbeacon.Transition.Desire.{set_desired}
use agentbeacon.Tables.{Desired}
use agentbeacon.Transition.Apply.{look_up, apply}
use agentbeacon.Base.{
  String, ℕ, Bool, List, if◌then◌else◌, Option, is_none, true, false, ℤ, ◌&&◌, ◌∷◌, [], not, suc,
  zero,
}
use agentbeacon.Procedures.{Proc, map_raise, raise, ◌>>=◌, ◌>>◌, attempted, done, transact}
use agentbeacon.Tx.{Rejected, Result, SchedulerError, Tx, database, ok, ratchet, err}

pub data Fault : Type 0 where
  scheduler : SchedulerError → Fault
  diverged : Fault

abbrev pub Job : Type 0 → Type 0
Job A = Proc Fault A

abbrev pub query : {A : Type 0} → Tx SchedulerError A → Job A
query m = map_raise scheduler (transact m)

abbrev pub fails : {A : Type 0} → String → Job A
fails message = raise (scheduler (database message))

abbrev pub is_ratchet : Rejected → Bool
is_ratchet ratchet = true
is_ratchet _ = false

unfoldable pub run_transition : String → String → Action → Proc Rejected (Option ℤ)
unfolding look_up apply
run_transition execution_id session_id action = do
  session ← transact (look_up execution_id session_id)
  transact (apply execution_id session action)

unfoldable pub run_terminate : String → String → String → Proc Rejected (Unit {0})
unfolding look_up set_desired
run_terminate execution_id session_id desired_by = do
  session ← transact (look_up execution_id session_id)
  transact (set_desired session Desired.terminate desired_by)

unfoldable pub run_terminate_failed : String → String → String → Bool → Proc Rejected (Unit {0})
unfolding look_up terminate_failed
run_terminate_failed execution_id session_id desired_by require_crashed = do
  session ← transact (look_up execution_id session_id)
  transact (terminate_failed session desired_by require_crashed)

-- `let _ = …`.
unfoldable pub ignored : {E A : Type 0} → Proc E A → Job (Unit {0})
ignored {E} p = do attempted {E = E} p; done tt

abbrev pub cascade_action : Action
cascade_action = Action.set_desired Desired.terminate "system:cascade"

abbrev pub is_live : Session → Bool
is_live s = is_none s.outcome && not (is_terminate s.desired)

abbrev pub is_terminating : Result SchedulerError Session → Bool
is_terminating (ok s) = is_terminate s.desired
is_terminating (err x) = false

-- A refusal is settled if it is the ratchet's, and the child is terminated by now.
unfoldable pub is_settled : Rejected → String → Job Bool
is_settled x child_id =
    if is_ratchet x
    then (do
      found ← attempted {E = SchedulerError} (transact (get_session child_id))
      done (is_terminating found))
    else done false

unfoldable pub accept_cascade : {A : Type 0} → String → Result Rejected A → Job (Unit {0})
unfolding is_settled
accept_cascade child_id (ok a) = done tt
accept_cascade child_id (err x) = do
  settled ← is_settled x child_id
  if settled then done tt else fails "cascade failed"

unfoldable pub cascade_to : String → Session → Job (Unit {0})
unfolding run_transition accept_cascade
cascade_to execution_id child =
    if is_live child
    then (do
      result ← attempted {E = Rejected} (run_transition execution_id child.id cascade_action)
      accept_cascade child.id result)
    else done tt

-- The loop over the children; `descend` is the recursive call.
unfoldable pub cascade_loop : (Session → Job (Unit {0})) → String → List Session → Job (Unit {0})
unfolding cascade_to
cascade_loop descend execution_id [] = done tt
cascade_loop descend execution_id (child ∷ rest) = do
  cascade_to execution_id child
  fresh ← query (get_session child.id)
  descend fresh
  cascade_loop descend execution_id rest

unfoldable pub cascade_children : ℕ → Session → Job (Unit {0})
unfolding cascade_loop
cascade_children zero session = raise diverged
cascade_children (suc fuel) session = do
  children ← query (get_children session.id)
  cascade_loop (cascade_children fuel) session.execution_id children

unfoldable pub accept_terminate : Result Rejected (Unit {0}) → Job (Unit {0})
accept_terminate (ok a) = done tt
accept_terminate (err x) = if is_ratchet x then done tt else fails "terminate failed"

unfoldable pub terminate_and_cascade : ℕ → Session → String → Job (Unit {0})
unfolding run_terminate accept_terminate cascade_children
terminate_and_cascade fuel session desired_by = do
  result ← attempted {E = Rejected} (run_terminate session.execution_id session.id desired_by)
  accept_terminate result
  fresh ← query (get_session session.id)
  cascade_children fuel fresh
