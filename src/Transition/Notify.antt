-- ===== src/Transition/Notify.antt =====
-- scheduler/src/services/transition.rs: telling a parent session that a user stopped or terminated
-- its child.
use agentbeacon.Base.{◌&&◌, ◌||◌, some, String, code, ◌⧺◌, is_some, ltb, ◌==◌, if◌then◌else◌}
use agentbeacon.Json.{Json, Fields, str, arr, obj, nil, cons, field, end}
use agentbeacon.Tables.{Session, run, is_stop, is_terminate, state_change, platform}
use agentbeacon.Tx.{
  SchedulerError, Rejected, not_found, invalid_transition, Tx, pure, asks, map_err, ◌>>=◌, ◌>>◌,
}
use agentbeacon.Statements.{
  get_session, get_execution, update_sessions, session_has_id, insert_task, insert_event,
}

-- A database error inside a transition, under the message that the source gives it.
abbrev pub reject : {A : Type 0} → String → Tx SchedulerError A → Tx Rejected A
reject message m = map_err (λ _. invalid_transition message) m

abbrev pub or_not_found : {A : Type 0} → Tx SchedulerError A → Tx Rejected A
or_not_found m = map_err (λ _. not_found) m

-- `replace('_', " ")`.
spaced : String → String
spaced String.[] = String.[]
spaced (String.◌∷◌ c s) = if code c == b'_' then " " ⧺ spaced s else String.◌∷◌ c (spaced s)

abbrev type_and_child : String → String → Fields
type_and_child notification_type child_id =
    field "type" (str notification_type) (field "child_session_id" (str child_id) end)

unfoldable pub notification : String → String → Json
unfolding spaced
notification notification_type child_id =
    let text = "Child session " ⧺ child_id ⧺ " " ⧺ spaced notification_type ⧺ "." in
    let parts =
      cons (obj (field "text" (str text) end))
        (cons (obj (field "data" (obj (type_and_child notification_type child_id)) end)) nil) in
    obj (field "message" (obj (field "role" (str "ROLE_USER") (field "parts" (arr parts) end))) end)

abbrev pub child_result : String → String
child_result child_id = "child_result:" ⧺ child_id

-- Resume a parent that is stopped, and say so.
unfoldable pub resume_parent : String → String → String → Tx Rejected (Unit {0})
unfolding update_sessions insert_event
resume_parent execution_id parent_id by = do
  now ← asks (λ e. e.now)
  rows ← reject "auto-resume parent failed" (
      update_sessions "auto-resume parent failed"
        (λ s. session_has_id parent_id s && is_stop s.desired)
        (λ s. record s {
          desired = run;
          desired_by = some by;
          desired_at = some now;
          updated_at = now;
        }))
  if ltb 0 rows
      then (do
        reject "auto-resume state_change event" (
            insert_event execution_id (some parent_id) state_change
              (obj (field "desired" (str "run") (field "desired_by" (str by) end))))
        pure tt)
      else pure tt

-- Queue the notification for the parent, and record it.
unfoldable pub enqueue_notification : Session → String → String → Tx Rejected (Unit {0})
unfolding insert_task insert_event notification
enqueue_notification session parent_id notification_type = do
  reject "enqueue parent notification" (
      insert_task "enqueue parent notification" (record {
        execution_id = session.execution_id;
        session_id = parent_id;
        task_payload = notification notification_type session.id;
        source = some (child_result session.id);
      }))
  reject "parent platform event" (
      insert_event session.execution_id (some parent_id) platform
        (obj (type_and_child notification_type session.id)))
  pure tt

unfoldable pub write_parent_notification_in_tx : Session → String → String → Tx Rejected (Unit {0})
unfolding resume_parent enqueue_notification get_session get_execution
write_parent_notification_in_tx session parent_id notification_type = do
  tx_exec ← reject "recheck execution failed" (get_execution session.execution_id)
  if is_terminate tx_exec.desired || is_some tx_exec.outcome then pure tt else do
    tx_parent ← reject "recheck parent failed" (get_session parent_id)
    if is_some tx_parent.outcome || is_terminate tx_parent.desired then pure tt else do
      (if is_stop tx_parent.desired
          then resume_parent session.execution_id parent_id "system:child_action_notify"
          else pure tt)
      enqueue_notification session parent_id notification_type
