-- ===== src/Transition/Message.antt =====
-- scheduler/src/services/transition.rs: a message to a session, and the answer of a decision.
pub mod Steps
pub mod Accepted
pub mod Once
pub mod Progress
use agentbeacon.Base.{
  Bool, true, false, ◌&&◌, ◌||◌, Option, none, some, String, ℤ, is_positive, is_some, str_eq,
  is_some_text, not, if◌then◌else◌,
}
use agentbeacon.Json.{Json, str, obj, field, end, get}
use agentbeacon.Resolution.Candidates.{ResolutionCandidate}
use agentbeacon.Resolution.Marker.{marker_payload}
use agentbeacon.Tables.{
  Session, Escalation, InsertedEvent, run, is_stop, is_terminate, message, platform,
}
use agentbeacon.Tx.{
  Rejected, already_resolved, decision_expired, execution_terminated, write_barrier,
  invalid_transition, Tx, pure, throw, asks, gets, ◌>>=◌, ◌>>◌, SchedulerError,
}
use agentbeacon.Statements.{
  attempt, begin_execution_tx, get_session, get_execution, update_sessions, session_has_id,
  insert_task, insert_event, touch_last_activity,
}
use agentbeacon.Transition.Notify.{reject, or_not_found}
use agentbeacon.Transition.Markers.{marker_of}

pub record ResolutionMarker : Type 0 where
  pub escalation : Escalation
  pub answer_text : Option String

pub record SendMessageArgs : Type 0 where
  pub payload : Json
  pub resolution : Option ResolutionMarker
  pub emit_message_delivered : Bool
  pub from_user : Bool

unfoldable pub plain : Json → SendMessageArgs
plain payload = record {
  payload = payload;
  resolution = none;
  emit_message_delivered = false;
  from_user = false;
}

unfoldable pub test_failpoint : String → Tx Rejected (Unit {0})
test_failpoint site = do
  fail_at ← asks (λ e. e.fail_at)
  if is_some_text fail_at site then throw (invalid_transition "test failpoint") else pure tt

-- scheduler/src/db/events.rs.
unfoldable pub find_marker_for_escalation_in_tx :
    Escalation → Tx SchedulerError (Option ResolutionCandidate)
unfolding attempt marker_of
find_marker_for_escalation_in_tx escalation = do
  attempt "marker association read failed"
  rfc3339 ← asks (λ e. e.rfc3339)
  gets (λ d. marker_of rfc3339 d.events escalation)

-- A decision that has a marker is resolved, and takes no other.
unfoldable pub refuse_resolved : Option ResolutionCandidate → Tx Rejected (Unit {0})
refuse_resolved none = pure tt
refuse_resolved (some c) = throw (already_resolved c)

unfoldable pub check_resolution : String → Option ResolutionMarker → Tx Rejected (Unit {0})
unfolding refuse_resolved find_marker_for_escalation_in_tx
check_resolution execution_id none = pure tt
check_resolution execution_id (some marker) =
    if not (str_eq marker.escalation.execution_id execution_id)
    then throw (invalid_transition "resolution marker names a different execution")
    else do
      existing ←
          reject "resolution recheck failed" (find_marker_for_escalation_in_tx marker.escalation)
      refuse_resolved existing

-- A message resumes a stopped session.
unfoldable pub resume_stopped : Session → String → Tx Rejected (Unit {0})
unfolding update_sessions
resume_stopped tx_session session_id =
    if is_stop tx_session.desired
    then (do
      now ← asks (λ e. e.now)
      reject "auto-resume failed" (
          update_sessions "auto-resume failed"
            (λ s. session_has_id session_id s && is_stop s.desired)
            (λ s. record s {
              desired = run;
              desired_by = some "user:send_message";
              desired_at = some now;
              updated_at = now;
            }))
      pure tt)
    else pure tt

-- What the event log keeps of a payload.
unfoldable pub event_payload : Json → Json
event_payload payload = elim (get "event_message" payload) [
  | some m ↦ m
  | none ↦ elim (get "message" payload) [ some m ↦ m | none ↦ payload ]
]

unfoldable pub write_marker :
    String → InsertedEvent → Option ResolutionMarker → Tx Rejected (Unit {0})
unfolding insert_event test_failpoint
write_marker execution_id row none = pure tt
write_marker execution_id row (some marker) =
    if not (is_positive row.id)
    then throw (invalid_transition "message event id is non-positive")
    else do
      reject "insert marker failed" (
          insert_event execution_id (some marker.escalation.session_id) platform (
            marker_payload marker.escalation.«data».batch_id (some marker.escalation.id) row.id
              row.created_at marker.answer_text false))
      test_failpoint "marker_insert"

unfoldable pub write_delivered : Session → Bool → Tx Rejected (Unit {0})
unfolding insert_event test_failpoint
write_delivered session false = pure tt
write_delivered session true = do
  reject "insert message_delivered failed" (
      insert_event session.execution_id (some session.id) platform
        (obj (field "type" (str "message_delivered") end)))
  test_failpoint "message_delivered_insert"

unfoldable pub touch_if : Bool → String → Tx Rejected (Unit {0})
unfolding touch_last_activity
touch_if false execution_id = pure tt
touch_if true execution_id = reject "touch last activity failed" (touch_last_activity execution_id)

-- The writes of a message that no check has refused, in their order.
unfoldable pub deliver : Session → Session → SendMessageArgs → Tx Rejected ℤ
unfolding resume_stopped insert_task insert_event write_marker write_delivered touch_if
deliver session tx_session args = do
  resume_stopped tx_session session.id
  reject "enqueue message failed" (
      insert_task "enqueue message failed" (record {
        execution_id = session.execution_id;
        session_id = session.id;
        task_payload = args.payload;
        source = none;
      }))
  row ←
      reject "insert message event failed"
        (insert_event session.execution_id (some session.id) message (event_payload args.payload))
  write_marker session.execution_id row args.resolution
  write_delivered session args.emit_message_delivered
  touch_if args.from_user session.execution_id
  reject "commit tx failed" (attempt "commit tx failed")
  pure row.id

unfoldable pub send_message : Session → SendMessageArgs → Tx Rejected ℤ
unfolding begin_execution_tx get_session get_execution check_resolution deliver
send_message session args = do
  or_not_found (get_execution session.execution_id)
  reject "begin tx failed" (begin_execution_tx session.execution_id)
  tx_session ← or_not_found (get_session session.id)
  tx_execution ← or_not_found (get_execution session.execution_id)
  check_resolution session.execution_id args.resolution
  if is_terminate tx_execution.desired || is_some tx_execution.outcome
      then throw (if is_some args.resolution then decision_expired else execution_terminated)
      else if is_terminate tx_session.desired || is_some tx_session.outcome
      then throw write_barrier
      else deliver session tx_session args
