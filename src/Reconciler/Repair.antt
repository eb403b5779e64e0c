-- ===== src/Reconciler/Repair.antt =====
-- scheduler/src/services/reconciler.rs: the repairs of rows whose columns contradict each other.
use agentbeacon.Transition.Executor.{cleared_command}
use agentbeacon.Reconciler.Commands.{Issue, ReconcilerAction, lift, give_up, repaired}
use agentbeacon.Tx.{Tx, SchedulerError, ◌>>=◌, ◌>>◌, pure, asks}
use agentbeacon.Statements.{
  begin_execution_tx, update_sessions, attempt, get_session, count_pending_turns, get_execution,
  session_has_id,
}
use agentbeacon.Transition.Terminal.{write_execution_terminal_in_tx}
use agentbeacon.Transition.Activity.{derive_execution_outcome, is_quiescent}
use agentbeacon.Base.{
  Option, ℕ, Bool, String, if◌then◌else◌, some, is_some, none, is_none, ◌&&◌, not, ◌||◌, ◌==◌,
}
use agentbeacon.Tables.{
  unassigned, running, idle, crashed, ExState, Outcome, Session, Execution, completed, is_terminate,
  is_unassigned, canceled, is_running, is_idle, is_crashed, terminate,
}

abbrev same_state : ExState → ExState → Bool
same_state unassigned y = is_unassigned y
same_state running y = is_running y
same_state idle y = is_idle y
same_state crashed y = is_crashed y

-- `COALESCE`.
abbrev coalesce : {A : Type 0} → Option A → A → Option A
coalesce none b = some b
coalesce (some a) b = some a

abbrev pub blamed_on_repair : ℕ → Session → Session
blamed_on_repair now s = record s {
  desired_by = coalesce s.desired_by "system:repair";
  desired_at = coalesce s.desired_at now;
  updated_at = now;
}

abbrev pub with_outcome : Outcome → ℕ → Session → Session
with_outcome outcome now s = record (blamed_on_repair now s) {
  outcome = some outcome;
  completed_at = some now;
}

-- A terminated session with no outcome.
unfoldable pub is_unfinished : Session → Bool
is_unfinished s = is_terminate s.desired && is_none s.outcome

-- An outcome, and not terminated.
unfoldable pub is_undecided : Session → Bool
is_undecided s = is_some s.outcome && not (is_terminate s.desired)

unfoldable pub outcome_at : Session → ℕ → Outcome
unfolding is_quiescent
outcome_at s pending = if is_quiescent s pending then completed else canceled

-- The outcome of the execution, where it has none.
unfoldable pub derived_if_open : Execution → String → Tx SchedulerError (Option Outcome)
unfolding derive_execution_outcome
derived_if_open execution execution_id =
    if is_none execution.outcome
    then (do outcome ← derive_execution_outcome execution_id; pure (some outcome))
    else pure none

unfoldable pub write_derived : String → Option Outcome → Tx SchedulerError (Unit {0})
unfolding write_execution_terminal_in_tx
write_derived execution_id none = pure tt
write_derived execution_id (some outcome) = do
  write_execution_terminal_in_tx execution_id outcome
  pure tt

unfoldable pub derive_and_write : String → Tx SchedulerError (Unit {0})
unfolding derive_execution_outcome write_execution_terminal_in_tx
derive_and_write execution_id = do
  derived ← derive_execution_outcome execution_id
  write_execution_terminal_in_tx execution_id derived
  pure tt

-- The repair of a terminated root with no outcome.
unfoldable pub repair_root : Session → Execution → Issue
unfolding begin_execution_tx is_unfinished outcome_at derived_if_open update_sessions write_derived
repair_root session execution = do
  lift (begin_execution_tx session.execution_id)
  tx_session ← lift (get_session session.id)
  if not (is_unfinished tx_session) then give_up else do
    tx_pending ← lift (count_pending_turns session.id)
    exec_outcome ← lift (derived_if_open execution session.execution_id)
    now ← asks (λ e. e.now)
    lift (
        update_sessions "repair outcome failed"
          (λ s. session_has_id session.id s && is_none s.outcome)
          (with_outcome (outcome_at tx_session tx_pending) now))
    lift (write_derived session.execution_id exec_outcome)
    lift (attempt "commit repair tx")
    pure repaired

unfoldable pub repair_child_row : Session → Tx SchedulerError (Unit {0})
unfolding is_unfinished outcome_at update_sessions
repair_child_row session = do
  current ← get_session session.id
  if not (is_unfinished current) then pure tt else do
    tx_pending ← count_pending_turns current.id
    now ← asks (λ e. e.now)
    update_sessions "repair outcome failed"
        (λ s.
          session_has_id current.id s
          && is_none s.outcome
          && is_terminate s.desired
          && same_state current.executor_state s.executor_state)
        (with_outcome (outcome_at current tx_pending) now)
    pure tt

-- The repair of a terminated session that is no root and has no outcome.
unfoldable pub repair_child : Session → Tx SchedulerError ReconcilerAction
unfolding begin_execution_tx repair_child_row attempt
repair_child session = do
  begin_execution_tx session.execution_id
  repair_child_row session
  attempt "commit repair tx"
  pure repaired

unfoldable pub repair_desired_row : Session → Tx SchedulerError (Unit {0})
unfolding is_undecided update_sessions derive_and_write
repair_desired_row session = do
  current ← get_session session.id
  if not (is_undecided current) then pure tt else do
    now ← asks (λ e. e.now)
    rows ←
        update_sessions "repair desired failed" (λ s. session_has_id session.id s && is_undecided s)
          (λ s. record (blamed_on_repair now s) { desired = terminate })
    if rows == 0 then pure tt else do
      tx_exec ← get_execution session.execution_id
      if is_none current.parent_session_id && is_none tx_exec.outcome
          then derive_and_write session.execution_id
          else pure tt

-- The repair of a session that has an outcome and is not terminated.
unfoldable pub repair_desired : Session → Tx SchedulerError ReconcilerAction
unfolding begin_execution_tx repair_desired_row attempt
repair_desired session = do
  begin_execution_tx session.execution_id
  repair_desired_row session
  attempt "commit repair tx"
  pure repaired

-- The repair of an execution that did not end with its root.
unfoldable pub repair_execution : Session → Issue
unfolding begin_execution_tx derive_and_write
repair_execution session = do
  lift (begin_execution_tx session.execution_id)
  tx_root ← lift (get_session session.id)
  if is_none tx_root.outcome then give_up else do
    lift (derive_and_write session.execution_id)
    lift (attempt "commit repair tx")
    pure repaired

unfoldable pub repair_terminal_root : Session → Tx SchedulerError (Unit {0})
unfolding derive_and_write
repair_terminal_root session = do
  tx_root ← get_session session.id
  if is_none tx_root.outcome || not (is_terminate tx_root.desired) then pure tt else do
    tx_exec ← get_execution session.execution_id
    if is_some tx_exec.outcome then pure tt else derive_and_write session.execution_id

-- The transaction of `repair_execution_for_terminal_root`, on the row that was read before it.
unfoldable pub repair_execution_for_terminal_root : Session → Tx SchedulerError (Unit {0})
unfolding begin_execution_tx repair_terminal_root attempt
repair_execution_for_terminal_root session = do
  begin_execution_tx session.execution_id
  repair_terminal_root session
  attempt "commit repair tx"

-- Drop the command of a crashed session.
unfoldable pub clear_crashed_command : Session → Issue
unfolding begin_execution_tx update_sessions
clear_crashed_command session = do
  lift (begin_execution_tx session.execution_id)
  now ← asks (λ e. e.now)
  rows ← lift (
      update_sessions "clear stale command"
        (λ s. session_has_id session.id s && is_crashed s.executor_state)
        (λ s. record (cleared_command s) { updated_at = now }))
  if rows == 0 then give_up else do lift (attempt "commit command repair"); pure repaired
