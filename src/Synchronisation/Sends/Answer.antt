-- ===== src/Synchronisation/Sends/Answer.antt =====
-- A command in the answer to a worker stands in a row of the database.
-- Job Proc
use agentbeacon.Synchronisation.Intake.{needs_result_tx}
use agentbeacon.Base.{◌==◌, ◌≡◌, none, some, arith, subst}
use agentbeacon.Synchronisation.Sends.Rounds.{
  run_reconciler_for_worker-Gives, run_reconciler_for_session-Gives,
}
use agentbeacon.Synchronisation.Global.{run_reconciler_for_worker}
use agentbeacon.Tables.{Db}
use agentbeacon.Synchronisation.Answer.{
  answer_or_poll, answer_or_wait, long_poll, run_reconciler, wait, worker_sync, answer_of,
}
use agentbeacon.Synchronisation.Rounds.{ReconcilerResult}
use agentbeacon.Synchronisation.Sends.{
  Gives, OfAnswer, OfResult, Option, String, Triple, CommandAction, Gives-bind, Gives-if,
  Gives-then, anything, Gives-done, Good, some, Always, Recorded, ok, Somewhere, Carries, err,
}
use agentbeacon.Procedures.{World, Machine, done}
use agentbeacon.Reconciler.History.Steps.{ReadsOnly}
use agentbeacon.Reconciler.Cascade.{Fault}
use agentbeacon.Tx.{Result}
use agentbeacon.Synchronisation.Requests.{
  Server, WorkerSyncRequest, WorkerSyncResponse, no_action, command,
}

module _ (server : Server) (req : WorkerSyncRequest) (reads : ReadsOnly server.composer) where
  worker-Gives : Gives OfResult (run_reconciler_for_worker server req.worker_id)
  worker-Gives = run_reconciler_for_worker-Gives server reads req.worker_id

  answered : (r : ReconcilerResult) (d : Db) → OfResult r d → OfAnswer (answer_of r) d
  answered (ReconcilerResult.command t a) d h = h
  answered ReconcilerResult.no_action d h = tt
  answered ReconcilerResult.pending_command d h = tt
  answered ReconcilerResult.nothing_found d h = tt

  silent : Gives OfAnswer (done no_action)
  silent = Gives-done Always OfAnswer no_action (λ d h. tt)

  wait-Gives : Gives OfAnswer (wait server req)
  unfolding wait
  wait-Gives = Gives-then OfAnswer _ _ λ u.
      Gives-bind OfResult OfAnswer _ _ worker-Gives
        (λ r. Gives-done (OfResult r) OfAnswer (answer_of r) (answered r))

  answer_or_wait-Gives :
      (r : ReconcilerResult)
      → Triple anything (OfResult r) (answer_or_wait server req r) (Good OfAnswer)
  unfolding answer_or_wait
  answer_or_wait-Gives (ReconcilerResult.command t a) =
      Gives-done (Recorded t a) OfAnswer (command t a) (λ d h. h)
  answer_or_wait-Gives ReconcilerResult.pending_command = silent
  answer_or_wait-Gives ReconcilerResult.no_action = wait-Gives
  answer_or_wait-Gives ReconcilerResult.nothing_found = wait-Gives

  long_poll-Gives : Gives OfAnswer (long_poll server req)
  unfolding long_poll
  long_poll-Gives =
      Gives-if OfAnswer (server.long_poll_timeout_secs == 0) _ _ silent
        (Gives-bind OfResult OfAnswer _ _ worker-Gives answer_or_wait-Gives)

  answer_or_poll-Gives :
      (r : ReconcilerResult)
      → Triple anything (OfResult r) (answer_or_poll server req r) (Good OfAnswer)
  unfolding answer_or_poll
  answer_or_poll-Gives (ReconcilerResult.command t a) =
      Gives-done (Recorded t a) OfAnswer (command t a) (λ d h. h)
  answer_or_poll-Gives ReconcilerResult.pending_command = silent
  answer_or_poll-Gives ReconcilerResult.no_action =
      Gives-if OfAnswer (needs_result_tx server req) _ _ silent long_poll-Gives
  answer_or_poll-Gives ReconcilerResult.nothing_found =
      Gives-if OfAnswer (needs_result_tx server req) _ _ silent long_poll-Gives

  run_reconciler-Gives : (id : Option String) → Gives OfAnswer (run_reconciler server req id)
  unfolding run_reconciler
  run_reconciler-Gives none = Gives-bind OfResult OfAnswer _ _ worker-Gives answer_or_poll-Gives
  run_reconciler-Gives (some id) =
      Gives-bind OfResult OfAnswer _ _
        (run_reconciler_for_session-Gives server reads req.worker_id id)
        (λ r. Gives-done (OfResult r) OfAnswer (answer_of r) (answered r))

  worker_sync-Gives : Gives OfAnswer (worker_sync server req)
  unfolding worker_sync
  worker_sync-Gives = Gives-then OfAnswer _ _ λ h. Gives-then OfAnswer _ _ λ r.
      Gives-then OfAnswer _ _ λ o. Gives-then OfAnswer _ _ λ a.
        Gives-then OfAnswer _ _
          (λ k. Gives-if OfAnswer _ _ _ silent (run_reconciler-Gives r.session_scoped_reconcile))

OfAnswer-Recorded :
    (r : Result Fault WorkerSyncResponse) (d : Db) (token : String) (action : CommandAction)
    → Good OfAnswer r d
    → r ≡ ok (command token action)
    → Recorded token action d
OfAnswer-Recorded (ok a) d token action h e =
    let same : a ≡ command token action = ground arith in subst (λ x. OfAnswer x d) same h
OfAnswer-Recorded (err x) d token action h e = absurd (cc)

-- If the answer to a worker is a command, some row of the database that the request leaves is of the
-- session that the command is for, and has the command out, with its token and its type. The parts of
-- an assignment that other modules put together are taken to be only read; the request and what
-- other transactions do in between are free.
pub answer_is_recorded :
    (server : Server) (req : WorkerSyncRequest) (w : World) (m : Machine) (token : String)
    (action : CommandAction)
    → ReadsOnly server.composer
    → (worker_sync server req w m).0 ≡ ok (command token action)
    → Somewhere (Carries token action) (worker_sync server req w m).1.db.sessions
answer_is_recorded server req w m token action reads e =
    OfAnswer-Recorded _ _ token action ((worker_sync-Gives server req reads).at w m (λ n d. tt) tt)
      e
