-- ===== src/Transition/Message/Steps.antt =====
-- What the steps of a message do.
use agentbeacon.Tables.{Env, Db, Session, InsertedEvent, platform}
use agentbeacon.Base.{
  none, some, ◌++◌, true, false, Bool, String, str_eq, ◌≡◌, Option, arith, is_positive, ◌∷◌, [],
}
use agentbeacon.Transition.Message.{
  write_marker, write_delivered, touch_if, resume_stopped, test_failpoint, ResolutionMarker,
  find_marker_for_escalation_in_tx, check_resolution, refuse_resolved, marker_of, marker_payload,
}
use agentbeacon.Statements.{
  attempt, insert_event, verify_session_owner, append_event, update_executions, update_sessions,
  touch_last_activity, next_event,
}
use agentbeacon.Tx.{◌>>=◌}
use agentbeacon.Tx.Inverse.{Ok}

module _ (e : Env) (d d' : Db) (u : Unit {0}) where
  -- The columns and tables that a step leaves alone.
  pub resume_stopped-Ok :
      (s : Session) (id : String)
      → Ok (resume_stopped s id) e d u d'
      → (d'.task_queue ≡ d.task_queue)
        × (d'.executions ≡ d.executions)
        × (d'.events ≡ d.events)
        × (d'.next_event_id ≡ d.next_event_id)
  unfolding resume_stopped update_sessions attempt ◌>>=◌
  resume_stopped-Ok s id h = ground arith

  pub write_marker-Ok :
      (x : String) (row : InsertedEvent) (m : ResolutionMarker)
      → Ok (write_marker x row (some m)) e d u d'
      → (is_positive row.id ≡ true)
        × (d'.task_queue ≡ d.task_queue)
        × (d'.events
            ≡ d.events
              ++ next_event x
                  (some m.escalation.session_id)
                  platform
                  (marker_payload m.escalation.«data».batch_id
                    (some m.escalation.id)
                    row.id
                    row.created_at
                    m.answer_text
                    false)
                  e.now
                  d
                ∷ [])
  unfolding write_marker insert_event verify_session_owner append_event attempt test_failpoint ◌>>=◌
  write_marker-Ok x row m h = ground arith

  pub marker_queue-Ok :
      (x : String) (row : InsertedEvent) (m : Option ResolutionMarker)
      → Ok (write_marker x row m) e d u d'
      → d'.task_queue ≡ d.task_queue
  unfolding write_marker ◌>>=◌
  marker_queue-Ok x row none h = ground arith
  marker_queue-Ok x row (some m) h = (write_marker-Ok x row m h).1

  pub write_delivered-Ok :
      (s : Session) (b : Bool) → Ok (write_delivered s b) e d u d' → d'.task_queue ≡ d.task_queue
  unfolding write_delivered insert_event verify_session_owner append_event attempt test_failpoint
      ◌>>=◌
  write_delivered-Ok s false h = ground arith
  write_delivered-Ok s true h = ground arith

  pub touch_if-Ok :
      (b : Bool) (x : String) → Ok (touch_if b x) e d u d' → d'.task_queue ≡ d.task_queue
  unfolding touch_if touch_last_activity update_executions attempt ◌>>=◌
  touch_if-Ok false x h = ground arith
  touch_if-Ok true x h = ground arith

  -- A message that answers a decision passes only if the decision has no marker.
  pub check_resolution-Ok :
      (x : String) (m : ResolutionMarker)
      → Ok (check_resolution x (some m)) e d u d'
      → (str_eq m.escalation.execution_id x ≡ true)
        × (marker_of e.rfc3339 d.events m.escalation ≡ none)
        × (d ≡ d')
  unfolding check_resolution refuse_resolved find_marker_for_escalation_in_tx attempt ◌>>=◌
  check_resolution-Ok x m h = ground arith

  pub check_resolution-state :
      (x : String) (m : Option ResolutionMarker) → Ok (check_resolution x m) e d u d' → d ≡ d'
  unfolding check_resolution ◌>>=◌
  check_resolution-state x none h = ground arith
  check_resolution-state x (some m) h = (check_resolution-Ok x m h).2
