-- ===== src/Transition/Desire.antt =====
-- scheduler/src/services/transition.rs: a change of the desired state of a session. `session` is
-- the row as it was read before the transaction: another transaction may have changed it since.
pub mod Reads
pub mod Ends
pub mod Drains
use agentbeacon.Base.{
  Bool, not, ◌&&◌, ◌||◌, Option, none, some, String, is_none, ◌==◌, str_eq, if◌then◌else◌, false,
}
use agentbeacon.Json.{str, obj, field, end}
use agentbeacon.Tables.{
  Session, Desired, run, stop, terminate, Outcome, completed, canceled, failed, is_run, is_stop,
  is_terminate, same_desired, outcome_text, is_crashed, state_change, Execution,
}
use agentbeacon.Tx.{Rejected, ratchet, Tx, pure, throw, asks, to_option, ◌>>=◌, ◌>>◌}
use agentbeacon.Statements.{
  attempt, begin_execution_tx, get_session, get_execution, update_sessions, session_has_id,
  count_pending_turns, delete_by_session, insert_event,
}
use agentbeacon.Transition.Activity.{is_quiescent, derive_execution_outcome}
use agentbeacon.Transition.Terminal.{write_execution_terminal_in_tx}
use agentbeacon.Transition.Notify.{reject, or_not_found, write_parent_notification_in_tx}

-- A parent that has not ended, in an execution that has not.
abbrev parent_is_live : Option Session → Option Execution → Bool
parent_is_live none x = false
parent_is_live (some p) none = false
parent_is_live (some p) (some x) =
    is_none p.outcome && not (is_terminate x.desired) && is_none x.outcome

unfoldable pub live_parent : Session → String → Tx Rejected (Option String)
live_parent session parent_id = do
  parent ← to_option {F = Rejected} (get_session parent_id)
  execution ← to_option (get_execution session.execution_id)
  pure (if parent_is_live parent execution then some parent_id else none)

unfoldable pub parent_to_tell :
    Option String → Session → Desired → String → Tx Rejected (Option String)
parent_to_tell none session desired desired_by = pure none
parent_to_tell (some parent_id) session desired desired_by =
    if str_eq desired_by "user" && not (is_run desired)
    then live_parent session parent_id
    else pure none

-- The parent to tell of a user's stop or termination, as it is before the transaction.
unfoldable pub parent_for_notify : Session → Desired → String → Tx Rejected (Option String)
unfolding live_parent parent_to_tell
parent_for_notify session desired desired_by =
    parent_to_tell session.parent_session_id session desired desired_by

unfoldable pub notify_parent : Session → Option String → String → Tx Rejected (Unit {0})
unfolding write_parent_notification_in_tx
notify_parent session none notification_type = pure tt
notify_parent session (some parent_id) notification_type =
    write_parent_notification_in_tx session parent_id notification_type

-- What the end of a root makes of its execution; nothing for any other session.
unfoldable pub execution_outcome : Session → Tx Rejected (Option Outcome)
unfolding derive_execution_outcome
execution_outcome session =
    if is_none session.parent_session_id
    then (do
      outcome ←
          reject "derive execution outcome failed" (derive_execution_outcome session.execution_id)
      pure (some outcome))
    else pure none

unfoldable pub write_outcome : Session → Option Outcome → Tx Rejected (Unit {0})
unfolding write_execution_terminal_in_tx
write_outcome session none = pure tt
write_outcome session (some outcome) = do
  reject "write execution terminal" (write_execution_terminal_in_tx session.execution_id outcome)
  pure tt

-- `UPDATE sessions SET desired = 'terminate', outcome = ? … WHERE test`, and its event.
unfoldable pub end_session :
    Session → String → (Session → Bool) → Outcome → String → Tx Rejected (Unit {0})
unfolding update_sessions insert_event
end_session session label test outcome desired_by = do
  now ← asks (λ e. e.now)
  rows ← reject label (
      update_sessions label test (λ s. record s {
        desired = terminate;
        outcome = some outcome;
        desired_by = some desired_by;
        desired_at = some now;
        updated_at = now;
        completed_at = some now;
      }))
  if rows == 0 then throw ratchet else do
    reject "persist event failed" (
        insert_event session.execution_id (some session.id) state_change (
          obj (
            field "desired" (str "terminate") (
              field "outcome" (str (outcome_text outcome))
                (field "desired_by" (str desired_by) end)))))
    pure tt

unfoldable pub set_terminate : Session → String → Option String → Tx Rejected (Unit {0})
unfolding begin_execution_tx end_session notify_parent execution_outcome write_outcome
set_terminate session desired_by parent = do
  reject "begin transaction failed" (begin_execution_tx session.execution_id)
  tx_session ← or_not_found (get_session session.id)
  if is_terminate tx_session.desired then throw ratchet else do
    pending ← reject "count pending turns failed" (count_pending_turns session.id)
    exec_outcome ← execution_outcome session
    end_session session "set terminate failed"
        (λ s. session_has_id session.id s && not (is_terminate s.desired))
        (if is_quiescent tx_session pending then completed else canceled) desired_by
    notify_parent session parent "child_terminated"
    write_outcome session exec_outcome
    reject "commit transaction failed" (attempt "commit transaction failed")

unfoldable pub set_stop : Session → String → Option String → Tx Rejected (Unit {0})
unfolding begin_execution_tx update_sessions delete_by_session insert_event notify_parent
set_stop session desired_by parent = do
  reject "begin stop tx failed" (begin_execution_tx session.execution_id)
  tx_session ← or_not_found (get_session session.id)
  if is_terminate tx_session.desired
      then throw ratchet
      else if is_stop tx_session.desired
      then pure tt
      else do
        now ← asks (λ e. e.now)
        rows ← reject "set stop failed" (
            update_sessions "set stop failed" (λ s. session_has_id session.id s && is_run s.desired)
              (λ s. record s {
                desired = stop;
                desired_by = some desired_by;
                desired_at = some now;
                updated_at = now;
              }))
        if rows == 0 then throw ratchet else do
          reject "drain queue failed" (delete_by_session session.id)
          reject "persist event failed" (
              insert_event session.execution_id (some session.id) state_change
                (obj (field "desired" (str "stop") (field "desired_by" (str desired_by) end))))
          notify_parent session parent "child_stopped"
          reject "commit stop tx failed" (attempt "commit stop tx failed")

unfoldable pub set_run : Session → String → Tx Rejected (Unit {0})
unfolding begin_execution_tx update_sessions
set_run session desired_by = do
  reject "begin run tx failed" (begin_execution_tx session.execution_id)
  now ← asks (λ e. e.now)
  rows ← reject "set run failed" (
      update_sessions "set run failed"
        (λ s. session_has_id session.id s && not (is_terminate s.desired))
        (λ s. record s {
          desired = run;
          desired_by = some desired_by;
          desired_at = some now;
          updated_at = now;
        }))
  if rows == 0
      then throw ratchet
      else reject "commit run tx failed" (attempt "commit run tx failed")

unfoldable pub write_desired : Session → Desired → String → Option String → Tx Rejected (Unit {0})
unfolding set_terminate set_stop set_run
write_desired session terminate desired_by parent = set_terminate session desired_by parent
write_desired session stop desired_by parent = set_stop session desired_by parent
write_desired session run desired_by parent = set_run session desired_by

unfoldable pub set_desired : Session → Desired → String → Tx Rejected (Unit {0})
unfolding parent_for_notify write_desired
set_desired session desired desired_by =
    if is_terminate session.desired
    then throw ratchet
    else if same_desired session.desired desired
    then pure tt
    else do
      parent ← parent_for_notify session desired desired_by
      write_desired session desired desired_by parent

-- Terminate a session as failed. `require_crashed` makes sure in the same statement that it is
-- still a crashed session that should run.
unfoldable pub terminate_failed : Session → String → Bool → Tx Rejected (Unit {0})
unfolding begin_execution_tx end_session write_outcome
terminate_failed session desired_by require_crashed =
    if is_terminate session.desired then throw ratchet else do
      reject "begin transaction failed" (begin_execution_tx session.execution_id)
      end_session session "terminate failed failed"
          (λ s.
            session_has_id session.id s
            && not (is_terminate s.desired)
            && (not require_crashed
                || is_run s.desired && is_crashed s.executor_state && is_none s.outcome))
          failed desired_by
      write_outcome session (if is_none session.parent_session_id then some failed else none)
      reject "commit transaction failed" (attempt "commit transaction failed")
