-- ===== src/Synchronisation/Turns.antt =====
-- scheduler/src/api/handlers/worker_sync.rs: the messages of a turn, and the notice that it is over.
use agentbeacon.Transition.Notify.{notification, child_result}
use agentbeacon.Json.{Json, null, obj, field, arr, str, cons, end, nil}
use agentbeacon.Tables.{
  Execution, Session, is_stop, platform, is_terminate, message, run, state_change,
}
use agentbeacon.Statements.Sync.{insert_with_dedup}
use agentbeacon.Synchronisation.Requests.{TurnResult, TurnMessagePayload}
use agentbeacon.Base.{
  List, Option, String, Bool, false, if◌then◌else◌, some, ◌∷◌, [], is_none, not, true, ◌||◌,
  is_some, none, ◌&&◌, ltb, ℤ,
}
use agentbeacon.Statements.{
  get_execution, insert_event, insert_task, update_sessions, get_session, touch_last_activity,
  session_has_id,
}
use agentbeacon.Tx.{◌>>=◌, ◌>>◌, Tx, SchedulerError, asks, pure, to_option}

unfoldable pub insert_numbered : String → Session → Json → Option ℤ → Tx SchedulerError (Unit {0})
unfolding insert_event insert_with_dedup
insert_numbered execution_id session payload none = do
  insert_event execution_id (some session.id) message payload
  pure tt
insert_numbered execution_id session payload (some seq) = do
  insert_with_dedup execution_id session.id message payload seq
  pure tt

unfoldable pub insert_message : String → Session → TurnMessagePayload → Tx SchedulerError (Unit {0})
unfolding insert_numbered
insert_message execution_id session msg =
    insert_numbered execution_id session msg.payload msg.msg_seq

unfoldable pub insert_messages :
    String → Session → List TurnMessagePayload → Tx SchedulerError (Unit {0})
unfolding insert_message
insert_messages execution_id session [] = pure tt
insert_messages execution_id session (msg ∷ rest) = do
  insert_message execution_id session msg
  insert_messages execution_id session rest

abbrev text_or_null : Option String → Json
text_or_null none = null
text_or_null (some s) = str s

unfoldable pub insert_error :
    String → Session → Option String → Option String → Tx SchedulerError (Unit {0})
unfolding insert_event
insert_error execution_id session none error_kind = pure tt
insert_error execution_id session (some error) error_kind = do
  insert_event execution_id (some session.id) platform
      (obj (field "error" (str error) (field "error_kind" (text_or_null error_kind) end)))
  pure tt

abbrev is_nonempty : {A : Type 0} → List A → Bool
is_nonempty [] = false
is_nonempty (x ∷ xs) = true

abbrev pub has_messages : TurnResult → Bool
has_messages result = is_nonempty result.messages

unfoldable pub process_turn_result_in_tx :
    String → Session → TurnResult → Tx SchedulerError (Unit {0})
unfolding insert_messages insert_error
process_turn_result_in_tx execution_id session result =
    if has_messages result || is_some result.error
    then (do
      insert_messages execution_id session result.messages
      insert_error execution_id session result.error result.error_kind)
    else pure tt

abbrev turn_complete : String → Json
turn_complete child_id = obj (
    field "parts"
      (arr (
        cons
          (obj (
            field "data"
              (obj
                (field "type" (str "turn_complete") (field "child_session_id" (str child_id) end)))
              end))
          nil))
      end)

-- Resume a parent that is stopped, and say so.
unfoldable pub resume_for_turn : String → String → Tx SchedulerError (Unit {0})
unfolding update_sessions insert_event
resume_for_turn execution_id parent_id = do
  now ← asks (λ e. e.now)
  rows ←
      update_sessions "auto-resume parent failed"
        (λ s. session_has_id parent_id s && is_stop s.desired)
        (λ s. record s {
          desired = run;
          desired_by = some "system:turn_complete_notify";
          desired_at = some now;
          updated_at = now;
        })
  if ltb 0 rows
      then (do
        insert_event execution_id (some parent_id) state_change (
            obj (
              field "desired" (str "run")
                (field "desired_by" (str "system:turn_complete_notify") end)))
        pure tt)
      else pure tt

-- `session` was read before the transaction, `tx_parent` in it.
unfoldable pub tell_of_turn : String → Session → String → Session → Tx SchedulerError (Unit {0})
unfolding resume_for_turn insert_task insert_event notification
tell_of_turn execution_id session parent_id tx_parent = do
  if is_stop tx_parent.desired then resume_for_turn execution_id parent_id else pure tt
  insert_task "turn-complete notification enqueue failed" (record {
    execution_id = session.execution_id;
    session_id = parent_id;
    task_payload = notification "turn_complete" session.id;
    source = some (child_result session.id);
  })
  insert_event execution_id (some parent_id) platform (turn_complete session.id)
  pure tt

unfoldable pub tell_root : String → Session → Tx SchedulerError (Unit {0})
unfolding insert_event touch_last_activity
tell_root execution_id session =
    if is_none session.parent_session_id
    then (do
      insert_event execution_id (some session.id) platform (turn_complete session.id)
      touch_last_activity execution_id)
    else pure tt

unfoldable pub tell_parent_of_turn :
    String → Session → String → Option Session → Tx SchedulerError (Unit {0})
unfolding tell_of_turn
tell_parent_of_turn execution_id session parent_id none = pure tt
tell_parent_of_turn execution_id session parent_id (some tx_parent) =
    if is_none tx_parent.outcome && not (is_terminate tx_parent.desired)
    then tell_of_turn execution_id session parent_id tx_parent
    else pure tt

abbrev pub is_going_on : Option Execution → Bool
is_going_on none = false
is_going_on (some x) = not (is_terminate x.desired) && is_none x.outcome

-- `notify_parent` was read before the transaction.
unfoldable pub announce_turn :
    String → Session → Session → Option Session → Tx SchedulerError (Unit {0})
unfolding tell_root tell_parent_of_turn get_execution get_session
announce_turn execution_id child session none = tell_root execution_id session
announce_turn execution_id child session (some parent) = do
  tx_exec ← to_option (get_execution child.execution_id)
  if is_going_on tx_exec
      then (do
        tx_parent ← to_option (get_session parent.id)
        tell_parent_of_turn execution_id session parent.id tx_parent)
      else pure tt
