-- ===== src/Synchronisation/Events.antt =====
-- scheduler/src/api/handlers/worker_sync.rs: `worker_event`, a message of a turn that is not over. An
-- ephemeral one is only broadcast, and then the event's number is 0.
pub mod Once
use agentbeacon.Synchronisation.Requests.{holds}
use agentbeacon.Tables.{InsertedEvent, Session, message}
use agentbeacon.Json.{Json}
use agentbeacon.Reconciler.Cascade.{Job, scheduler}
use agentbeacon.Statements.{begin_execution_tx, get_session, attempt}
use agentbeacon.Statements.Sync.{insert_with_dedup}
use agentbeacon.Base.{String, Option, ℤ, Bool, if◌then◌else◌, some, pos, none}
use agentbeacon.Tx.{SchedulerError, Tx, Result, map_err, missing, ok, err, pure, throw}
use agentbeacon.Tx
use agentbeacon.Procedures.{
  ◌>>=◌, ◌>>◌, attempted, kill_worker, map_raise, done, transact, broadcast, raise,
}

-- Job Proc
pub record WorkerMessageRequest : Type 0 where
  pub worker_id : String
  pub session_id : String
  pub execution_id : String
  pub msg_seq : ℤ
  pub payload : Json
  pub ephemeral : Bool

pub data EventStatus : Type 0 where
  accepted created : EventStatus

-- How the transaction of a message ends that is not committed.
pub data Dropped : Type 0 where
  not_there other_worker : Dropped
  failed : SchedulerError → Dropped

abbrev or_dropped : {A : Type 0} → Tx SchedulerError A → Tx Dropped A
or_dropped m = map_err Dropped.failed m

abbrev not_found_or_failed : SchedulerError → Dropped
not_found_or_failed (missing what) = not_there
not_found_or_failed x = Dropped.failed x

unfoldable pub insert_and_commit : WorkerMessageRequest → String → Tx Dropped (Option InsertedEvent)
unfolding insert_with_dedup attempt
insert_and_commit req execution_id =
    Tx.◌>>=◌
      (or_dropped (insert_with_dedup execution_id req.session_id message req.payload req.msg_seq))
      λ inserted. Tx.◌>>=◌ (or_dropped (attempt "commit worker event failed")) λ u. pure inserted

unfoldable pub insert_if_held :
    WorkerMessageRequest → String → Session → Tx Dropped (Option InsertedEvent)
unfolding insert_and_commit
insert_if_held req execution_id session =
    if holds req.worker_id session then insert_and_commit req execution_id else throw other_worker

unfoldable pub insert_event_of_worker :
    WorkerMessageRequest → String → Tx Dropped (Option InsertedEvent)
unfolding begin_execution_tx get_session insert_if_held
insert_event_of_worker req execution_id =
    Tx.◌>>=◌ (or_dropped (begin_execution_tx execution_id)) λ u.
      Tx.◌>>=◌ (map_err not_found_or_failed (get_session req.session_id))
        λ session. insert_if_held req execution_id session

unfoldable pub drop_event : String → Job EventStatus
drop_event worker_id = do kill_worker worker_id; done accepted

unfoldable pub after_insert :
    WorkerMessageRequest → String → Result Dropped (Option InsertedEvent) → Job EventStatus
unfolding drop_event
after_insert req execution_id (ok none) = done created
after_insert req execution_id (ok (some inserted)) = do
  broadcast execution_id inserted.id
  done created
after_insert req execution_id (err not_there) = done accepted
after_insert req execution_id (err other_worker) = drop_event req.worker_id
after_insert req execution_id (err (Dropped.failed x)) = raise (scheduler x)

unfoldable pub persist_event : WorkerMessageRequest → String → Job EventStatus
unfolding insert_event_of_worker after_insert
persist_event req execution_id = do
  result ← attempted {E = Dropped} (transact (insert_event_of_worker req execution_id))
  after_insert req execution_id result

unfoldable pub after_owner :
    WorkerMessageRequest → String → Result SchedulerError Session → Job EventStatus
unfolding drop_event
after_owner req execution_id (ok owner) =
    if holds req.worker_id owner
    then (do broadcast execution_id (pos 0); done created)
    else drop_event req.worker_id
after_owner req execution_id (err (missing what)) = done accepted
after_owner req execution_id (err x) = raise (scheduler x)

unfoldable pub stream_event : WorkerMessageRequest → String → Job EventStatus
unfolding get_session after_owner
stream_event req execution_id = do
  owner ← attempted {E = SchedulerError} (transact (get_session req.session_id))
  after_owner req execution_id owner

-- Every failure to read the session is the answer "session not found".
unfoldable pub worker_event : WorkerMessageRequest → Job EventStatus
unfolding get_session drop_event stream_event persist_event
worker_event req = do
  session ← map_raise (λ _. scheduler (missing "session")) (transact (get_session req.session_id))
  if holds req.worker_id session
      then (if req.ephemeral
          then stream_event req session.execution_id
          else persist_event req session.execution_id)
      else drop_event req.worker_id
