-- ===== src/Reconciler/Finalize.antt =====
-- scheduler/src/services/reconciler.rs: the end of a terminated session, and what its parent is
-- told of a crash.
use agentbeacon.Transition.Notify.{child_result}
use agentbeacon.Statements.Work.{get_session_if_any}
use agentbeacon.Tx.{Tx, SchedulerError, pure, ◌>>=◌, ◌>>◌, asks}
use agentbeacon.Json.{Fields, Json, obj, field, str, end, cons, nil, arr}
use agentbeacon.Reconciler.Commands.{has_ended}
use agentbeacon.Statements.{
  begin_execution_tx, delete_by_session, insert_task, update_sessions, attempt, insert_event,
  session_has_id, get_execution,
}
use agentbeacon.Tables.{
  Session, outcome_text, failed, is_stop, is_terminate, platform, run, state_change,
}
use agentbeacon.Base.{
  String, Bool, Option, filter_some, ◌⧺◌, if◌then◌else◌, starts_with, ◌&&◌, is_some, not, some,
  unwrap_or, none, true, ◌||◌, is_some_text, ◌==◌, ltb,
}

abbrev child_crashed : String → Fields → Json
child_crashed child_id rest =
    obj (field "type" (str "child_crashed") (field "child_session_id" (str child_id) rest))

unfoldable pub crash_notification : Session → String → Json
crash_notification session desired_by =
    let text = "Child session " ⧺ session.id ⧺ " crashed." in
    let outcome = outcome_text (unwrap_or session.outcome failed) in
    let crash =
      child_crashed session.id
        (field "desired_by" (str desired_by) (field "outcome" (str outcome) end)) in
    let parts =
      cons (obj (field "text" (str text) end)) (cons (obj (field "data" crash end)) nil) in
    obj (field "message" (obj (field "role" (str "ROLE_USER") (field "parts" (arr parts) end))) end)

-- A row that the parent is still to be told of.
abbrev pub untold : Session → String → Session → Bool
untold session desired_by s =
    session_has_id session.id s
    && not s.parent_notified
    && is_terminate s.desired
    && is_some s.outcome
    && is_some_text s.desired_by desired_by

unfoldable pub resume_for_crash : String → String → Tx SchedulerError (Unit {0})
unfolding update_sessions insert_event
resume_for_crash execution_id parent_id = do
  now ← asks (λ e. e.now)
  rows ←
      update_sessions "auto-resume parent failed"
        (λ s. session_has_id parent_id s && is_stop s.desired)
        (λ s. record s {
          desired = run;
          desired_by = some "system:child_crash_notify";
          desired_at = some now;
          updated_at = now;
        })
  if ltb 0 rows
      then (do
        insert_event execution_id (some parent_id) state_change (
            obj (
              field "desired" (str "run")
                (field "desired_by" (str "system:child_crash_notify") end)))
        pure tt)
      else pure tt

unfoldable pub enqueue_crash : Session → String → String → Tx SchedulerError (Unit {0})
unfolding insert_task insert_event crash_notification
enqueue_crash session desired_by parent_id = do
  insert_task "enqueue parent notification" (record {
    execution_id = session.execution_id;
    session_id = parent_id;
    task_payload = crash_notification session desired_by;
    source = some (child_result session.id);
  })
  insert_event session.execution_id (some parent_id) platform (child_crashed session.id end)
  pure tt

-- Tell a parent that is live, unless another transaction has told it.
unfoldable pub tell_parent : Session → String → String → Session → Tx SchedulerError (Unit {0})
unfolding update_sessions resume_for_crash enqueue_crash
tell_parent session desired_by parent_id tx_parent = do
  now ← asks (λ e. e.now)
  rows ←
      update_sessions "CAS parent_notified" (untold session desired_by)
        (λ s. record s { parent_notified = true; updated_at = now })
  if rows == 0 then pure tt else do
    (if is_stop tx_parent.desired then resume_for_crash session.execution_id parent_id else pure tt)
    enqueue_crash session desired_by parent_id

unfoldable pub tell_parent_if_live :
    Session → String → String → Option Session → Tx SchedulerError (Unit {0})
unfolding tell_parent
tell_parent_if_live session desired_by parent_id none = pure tt
tell_parent_if_live session desired_by parent_id (some tx_parent) =
    if is_some tx_parent.outcome || is_terminate tx_parent.desired
    then pure tt
    else tell_parent session desired_by parent_id tx_parent

unfoldable pub tell_of_crash :
    Session → Option String → Option String → Tx SchedulerError (Unit {0})
unfolding tell_parent_if_live has_ended
tell_of_crash session none parent_id = pure tt
tell_of_crash session (some desired_by) none = pure tt
tell_of_crash session (some desired_by) (some parent_id) =
    if session.parent_notified then pure tt else do
      tx_exec ← get_execution session.execution_id
      if has_ended tx_exec then pure tt else do
        tx_parent ← get_session_if_any parent_id
        tell_parent_if_live session desired_by parent_id tx_parent

-- Only a session that ended for a crash has a crash to tell of.
abbrev pub crash_reason : Session → Option String
crash_reason s = filter_some (λ by. starts_with by "system:crash") s.desired_by

unfoldable pub notify_parent_of_crash_in_tx : Session → Tx SchedulerError (Unit {0})
unfolding tell_of_crash
notify_parent_of_crash_in_tx session =
    tell_of_crash session (crash_reason session) session.parent_session_id

unfoldable pub release_worker : Session → Tx SchedulerError (Unit {0})
unfolding update_sessions
release_worker current =
    if is_some current.worker_id
    then (do
      now ← asks (λ e. e.now)
      update_sessions "clear worker_id failed" (session_has_id current.id)
          (λ s. record s { worker_id = none; updated_at = now })
      pure tt)
    else pure tt

unfoldable pub finalize_row : Option Session → Tx SchedulerError (Unit {0})
unfolding delete_by_session notify_parent_of_crash_in_tx release_worker
finalize_row none = pure tt
finalize_row (some current) =
    if is_terminate current.desired
    then (do
      delete_by_session current.id
      notify_parent_of_crash_in_tx current
      release_worker current)
    else pure tt

unfoldable pub finalize : Session → Tx SchedulerError (Unit {0})
unfolding begin_execution_tx finalize_row attempt
finalize session = do
  begin_execution_tx session.execution_id
  current ← get_session_if_any session.id
  finalize_row current
  attempt "commit finalize tx"
