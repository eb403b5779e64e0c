-- ===== src/Synchronisation/Answer.antt =====
-- scheduler/src/api/handlers/worker_sync.rs: `worker_sync`, from the request to the answer.
-- Job Proc
use agentbeacon.Base.{true}
use agentbeacon.Synchronisation.Intake.{take_result_if_any, needs_result_tx}
use agentbeacon.Procedures.{done, ◌>>=◌, ◌>>◌, heartbeat, broadcast}
use agentbeacon.Synchronisation.Handler.{take_report}
use agentbeacon.Synchronisation.Global.{run_reconciler_for_worker}
use agentbeacon.Reconciler.Cascade.{Job, query}
use agentbeacon.Statements.{get_session}
use agentbeacon.Tables.{Session}
use agentbeacon.Synchronisation.Rounds.{ReconcilerResult, run_reconciler_for_session, wake_if}
use agentbeacon.Synchronisation.Requests.{
  Server, caught, WorkerSyncRequest, WorkerSyncResponse, command, ExecutorReport, no_action,
}
use agentbeacon.Base.{Option, Bool, String, if◌then◌else◌, some, ◌==◌, none, ◌||◌, pos}

unfoldable pub announce_session : Option Session → Job (Unit {0})
announce_session none = done tt
announce_session (some session) = broadcast session.execution_id (pos 0)

-- A report without a result.
unfoldable pub announce_report : Bool → Option Session → Option ExecutorReport → Job (Unit {0})
unfolding caught get_session announce_session
announce_report true none (some report) = do
  session ← caught (query (get_session report.session_id))
  announce_session session
announce_report _ _ _ = done tt

abbrev pub answer_of : ReconcilerResult → WorkerSyncResponse
answer_of (ReconcilerResult.command token action) = command token action
answer_of _ = no_action

module _ (server : Server) (req : WorkerSyncRequest) where
  -- The reconciler once more, after the waiters of the queue were woken or the time is over.
  unfoldable pub wait : Job WorkerSyncResponse
  unfolding run_reconciler_for_worker
  wait = do
    heartbeat req.worker_id
    last ← run_reconciler_for_worker server req.worker_id
    done (answer_of last)

  unfoldable pub answer_or_wait : ReconcilerResult → Job WorkerSyncResponse
  unfolding wait
  answer_or_wait (ReconcilerResult.command token action) = done (command token action)
  answer_or_wait ReconcilerResult.pending_command = done no_action
  answer_or_wait ReconcilerResult.no_action = wait
  answer_or_wait ReconcilerResult.nothing_found = wait

  unfoldable pub long_poll : Job WorkerSyncResponse
  unfolding run_reconciler_for_worker answer_or_wait
  long_poll =
      if server.long_poll_timeout_secs == 0
      then done no_action
      else do again ← run_reconciler_for_worker server req.worker_id; answer_or_wait again

  -- A request that brings a result or an acknowledgement does not wait.
  unfoldable pub answer_or_poll : ReconcilerResult → Job WorkerSyncResponse
  unfolding long_poll
  answer_or_poll (ReconcilerResult.command token action) = done (command token action)
  answer_or_poll ReconcilerResult.pending_command = done no_action
  answer_or_poll ReconcilerResult.no_action =
      if needs_result_tx server req then done no_action else long_poll
  answer_or_poll ReconcilerResult.nothing_found =
      if needs_result_tx server req then done no_action else long_poll

  unfoldable pub run_reconciler : Option String → Job WorkerSyncResponse
  unfolding run_reconciler_for_session run_reconciler_for_worker answer_or_poll
  run_reconciler (some session_id) = do
    result ← run_reconciler_for_session server req.worker_id session_id
    done (answer_of result)
  run_reconciler none = do
    result ← run_reconciler_for_worker server req.worker_id
    answer_or_poll result

  unfoldable pub worker_sync : Job WorkerSyncResponse
  unfolding take_report take_result_if_any announce_report wake_if run_reconciler
  worker_sync = do
    heartbeat req.worker_id
    reported ← take_report req.worker_id req.executor_report req.turn_result
    outcomes ← take_result_if_any server req
    announce_report reported.executor_report_succeeded outcomes.turn_result_session
        req.executor_report
    wake_if (needs_result_tx server req)
    if reported.skip_reconciler || outcomes.skip_reconciler || outcomes.was_terminal_cancel
        then done no_action
        else run_reconciler reported.session_scoped_reconcile
