-- ===== src/Transition/Message/Accepted.antt =====
-- What a message that was accepted did, and that a decision takes one answer only.
use agentbeacon.Statements.{next_event, find_session, find_execution}
use agentbeacon.Tables.{Env, Task, Db, Event, message, InsertedEvent, Execution, is_terminate}
use agentbeacon.Base.{
  none, some, ◌++◌, false, [], ◌∷◌, ◌∙◌, sym, ap, ℤ, ◌≡◌, List, arith, ℕ, subst, succ_ℤ, ◌||◌,
  is_some,
}
use agentbeacon.Transition.Message.{
  deliver, send_message, write_marker, SendMessageArgs, event_payload, Session, check_resolution,
}
use agentbeacon.Transition.Message.Steps.{
  resume_stopped-Ok, marker_queue-Ok, write_delivered-Ok, touch_if-Ok, check_resolution-state,
}
use agentbeacon.Transition.Ratchet.{History, History-trans}
use agentbeacon.Transition.Ratchet.Message.{write_delivered-Kept, touch_if-Kept, write_marker-Kept}
use agentbeacon.Tx.Inverse.{Ok, bind-Ok, map_err-Ok, pure-Ok, guard-Ok}
use agentbeacon.Statements.Inverse.{
  insert_task-Ok, insert_event-Ok, attempt-Ok, get_execution-Ok, begin_execution_tx-Ok,
  get_session-Ok,
}

abbrev pub message_task : Session → SendMessageArgs → Task
message_task s args = record {
  execution_id = s.execution_id;
  session_id = s.id;
  task_payload = args.payload;
  source = none;
}

abbrev pub message_event : Session → SendMessageArgs → ℕ → Db → Event
message_event s args now d =
    next_event s.execution_id (some s.id) message (event_payload args.payload) now d

-- The states that an accepted message goes through: `logged` once the turn is queued and the
-- message is in the log, `marked` once the marker is written.
pub record Delivery (s : Session) (args : SendMessageArgs) (e : Env) (d d' : Db) (id : ℤ)
    : Type 0 where
  pub row : InsertedEvent
  pub logged : Db
  pub marked : Db
  pub row_id : row.id ≡ d.next_event_id
  pub row_time : row.created_at ≡ e.rfc3339 e.now
  pub queue : logged.task_queue ≡ d.task_queue ++ message_task s args ∷ []
  pub log : logged.events ≡ d.events ++ message_event s args e.now d ∷ []
  pub next_id : logged.next_event_id ≡ succ_ℤ d.next_event_id
  pub marking : Ok (write_marker s.execution_id row args.resolution) e logged tt marked
  pub after : History marked d'
  pub queue_after : d'.task_queue ≡ marked.task_queue
  pub result : id ≡ row.id

deliver-Delivery :
    (s t : Session) (args : SendMessageArgs) (e : Env) (d d' : Db) (id : ℤ)
    → Ok (deliver s t args) e d id d'
    → Delivery s args e d d' id
unfolding deliver
deliver-Delivery s t args e d d' id h =
    let b1 = bind-Ok _ _ id e d d' h in
    let r1 = resume_stopped-Ok e d b1.1 b1.0 t s.id b1.2 in
    let b2 = bind-Ok _ _ id e b1.1 d' b1.3 in
    let r2 = insert_task-Ok e b1.1 b2.1 _ _ b2.0 (map_err-Ok _ _ b2.0 e b1.1 b2.1 b2.2) in
    let b3 = bind-Ok _ _ id e b2.1 d' b2.3 in
    let r3 = insert_event-Ok e b2.1 b3.1 _ _ _ _ b3.0 (map_err-Ok _ _ b3.0 e b2.1 b3.1 b3.2) in
    let b4 = bind-Ok _ _ id e b3.1 d' b3.3 in
    let b5 = bind-Ok _ _ id e b4.1 d' b4.3 in
    let b6 = bind-Ok _ _ id e b5.1 d' b5.3 in
    let b7 = bind-Ok _ _ id e b6.1 d' b6.3 in
    let r5 = write_delivered-Ok e b4.1 b5.1 b5.0 s args.emit_message_delivered b5.2 in
    let r6 = touch_if-Ok e b5.1 b6.1 b6.0 args.from_user s.execution_id b6.2 in
    let r7 = attempt-Ok e b6.1 b7.1 _ b7.0 (map_err-Ok _ _ b7.0 e b6.1 b7.1 b7.2) in
    let r8 = pure-Ok _ id e b7.1 d' b7.3 in
    record {
      row = b3.0;
      logged = b3.1;
      marked = b4.1;
      row_id = ground arith;
      row_time = ground arith;
      queue = ground arith;
      log = ground arith;
      next_id = ground arith;
      marking = b4.2;
      after =
          History-trans b4.1 b5.1 d'
            ((write_delivered-Kept s args.emit_message_delivered).at e b4.1 b5.1 b5.0 b5.2)
            (subst (History b5.1) (r7 ∙ r8.1)
              ((touch_if-Kept args.from_user s.execution_id).at e b5.1 b6.1 b6.0 b6.2));
      queue_after = ground arith;
      result = sym r8.0;
    }

-- What an accepted message found, and what it did.
pub record Accepted (s : Session) (args : SendMessageArgs) (e : Env) (d d' : Db) (id : ℤ)
    : Type 0 where
  pub tx_session : Session
  pub tx_execution : Execution
  pub session_found : find_session s.id d.sessions ≡ some tx_session
  pub execution_found : find_execution s.execution_id d.executions ≡ some tx_execution
  pub session_live : is_terminate tx_session.desired || is_some tx_session.outcome ≡ false
  pub execution_live : is_terminate tx_execution.desired || is_some tx_execution.outcome ≡ false
  pub checked : Ok (check_resolution s.execution_id args.resolution) e d tt d
  pub delivery : Delivery s args e d d' id

pub send_message-Accepted :
    (s : Session) (args : SendMessageArgs) (e : Env) (d d' : Db) (id : ℤ)
    → Ok (send_message s args) e d id d'
    → Accepted s args e d d' id
unfolding send_message
send_message-Accepted s args e d d' id h =
    let b1 = bind-Ok _ _ id e d d' h in
    let r1 = get_execution-Ok e d b1.1 _ b1.0 (map_err-Ok _ _ b1.0 e d b1.1 b1.2) in
    let b2 = bind-Ok _ _ id e b1.1 d' b1.3 in
    let r2 = begin_execution_tx-Ok e b1.1 b2.1 _ b2.0 (map_err-Ok _ _ b2.0 e b1.1 b2.1 b2.2) in
    let b3 = bind-Ok _ _ id e b2.1 d' b2.3 in
    let r3 = get_session-Ok e b2.1 b3.1 _ b3.0 (map_err-Ok _ _ b3.0 e b2.1 b3.1 b3.2) in
    let b4 = bind-Ok _ _ id e b3.1 d' b3.3 in
    let r4 = get_execution-Ok e b3.1 b4.1 _ b4.0 (map_err-Ok _ _ b4.0 e b3.1 b4.1 b4.2) in
    let b5 = bind-Ok _ _ id e b4.1 d' b4.3 in
    let r5 = check_resolution-state e b4.1 b5.1 b5.0 _ args.resolution b5.2 in
    let r6 = guard-Ok _ _ _ id e b5.1 d' b5.3 in
    let r7 = guard-Ok _ _ _ id e b5.1 d' r6.1 in
    let same : d ≡ b4.1 = r1.1 ∙ r2 ∙ r3.1 ∙ r4.1 in
    record {
      tx_session = b3.0;
      tx_execution = b4.0;
      session_found = ap (λ (x : Db). find_session s.id x.sessions) (r1.1 ∙ r2) ∙ r3.0;
      execution_found =
          ap (λ (x : Db). find_execution s.execution_id x.executions) (r1.1 ∙ r2 ∙ r3.1) ∙ r4.0;
      session_live = r7.0;
      execution_live = r6.0;
      checked =
          subst (λ (x : Db). Ok (check_resolution s.execution_id args.resolution) e x tt x)
            (sym same)
            (subst (λ (x : Db). Ok (check_resolution s.execution_id args.resolution) e b4.1 tt x)
              (sym r5) b5.2);
      delivery =
          subst (λ (x : Db). Delivery s args e x d' id) (sym (same ∙ r5))
            (deliver-Delivery s b3.0 args e b5.1 d' id r7.1);
    }

-- A message that is accepted goes to a session and an execution that have not ended. It adds one
-- turn, at the end of the queue, and no other; its event is the next of the log, right after the
-- events that were there, and its id is the result.
pub message_effects :
    (s : Session) (args : SendMessageArgs) (e : Env) (d d' : Db) (id : ℤ)
    → Ok (send_message s args) e d id d'
    → (t : Session) × (x : Execution) × (rest : List Event) × (find_session s.id d.sessions
        ≡ some t)
      × (is_terminate t.desired || is_some t.outcome ≡ false)
      × (find_execution s.execution_id d.executions ≡ some x)
      × (is_terminate x.desired || is_some x.outcome ≡ false)
      × (id ≡ d.next_event_id)
      × (d'.task_queue ≡ d.task_queue ++ message_task s args ∷ [])
      × (d'.events ≡ (d.events ++ message_event s args e.now d ∷ []) ++ rest)
message_effects s args e d d' id h =
    let a = send_message-Accepted s args e d d' id h in
    let v = a.delivery in
    let marked =
      (write_marker-Kept s.execution_id v.row args.resolution).at e v.logged v.marked tt
        v.marking in
    let grown = (History-trans v.logged v.marked d' marked v.after).events in
    (
      a.tx_session,
      a.tx_execution,
      grown.0,
      a.session_found,
      a.session_live,
      a.execution_found,
      a.execution_live,
      v.result ∙ v.row_id,
      v.queue_after
          ∙ marker_queue-Ok e v.logged v.marked tt s.execution_id v.row args.resolution v.marking
          ∙ v.queue,
      grown.1 ∙ ap (λ (es : List Event). es ++ grown.0) v.log,
    )
