-- ===== src/Synchronisation/History/Handler.antt =====
-- The history under the whole of a worker's request.
-- Job Proc
use agentbeacon.Transition.Actions.{Action}
use agentbeacon.Transition.Ratchet.{IsCoherent, History}
use agentbeacon.Synchronisation.History.{
  find_command-Kept, take_results-Kept, update_agent_session_id-Kept,
}
use agentbeacon.Synchronisation.Rounds.{ReconcilerResult}
use agentbeacon.Synchronisation.History.Procedures.{
  run_reconciler_for_worker-Kept, asked, caught-Kept, run_reconciler_for_session-Kept,
  with_retries-Kept, get_execution-Kept, wake_if-Kept,
}
use agentbeacon.Reconciler.History.{guarded, Guarded}
use agentbeacon.Synchronisation.Global.{run_reconciler_for_worker}
use agentbeacon.Transition.Executor.{CrashMeta}
use agentbeacon.Procedures.Follows.{
  Follows-bind, Follows-done, Follows-if, following, Follows-broadcast, Follows-heartbeat,
  Follows-raise, Follows-map_raise, Follows-kill_worker,
}
use agentbeacon.Procedures.{World, Machine}
use agentbeacon.Reconciler.History.Steps.{ReadsOnly}
use agentbeacon.Reconciler.History.Cascade.{
  KeptJob, query-Kept, get_session-Kept, run_transition-Kept,
}
use agentbeacon.Base.{Bool, Option, String, some, ℕ, none, All, true, false}
use agentbeacon.Tables.{Session, ExState, Db}
use agentbeacon.Synchronisation.Requests.{Server, WorkerSyncRequest, ExecutorReport, TurnResult}
use agentbeacon.Synchronisation.Answer.{
  announce_report, announce_session, answer_or_poll, answer_or_wait, long_poll, run_reconciler,
  wait, worker_sync,
}
use agentbeacon.Synchronisation.Intake.{
  execution_to_lock, live_parent, owned_session, parent_by_id, parent_to_notify, result_session,
  announce_result, run_results, take_result, take_result_if_any, should_notify,
}
use agentbeacon.Synchronisation.Handler.{
  after_failed_report, after_report, apply_report, process_executor_report, remember_agent_session,
  take_report, parse_state,
}

remember-Kept :
    (s : Session) (a : Option String) (w : String) → KeptJob (remember_agent_session s a w)
unfolding remember_agent_session
remember-Kept s none w = Follows-done guarded tt
remember-Kept s (some a) w = query-Kept _ (update_agent_session_id-Kept s.id a w)

apply_report-Kept :
    (s : Session) (w : String) (r : ExecutorReport) (m : Option CrashMeta) (e : Option ExState)
    → KeptJob (apply_report s w r m e)
unfolding apply_report
apply_report-Kept s w r m none = Follows-raise guarded _
apply_report-Kept s w r m (some e) =
    Follows-bind guarded _ _ (remember-Kept s r.agent_session_id w) λ u.
      Follows-bind guarded _ _
        (Follows-map_raise guarded _ _
          (run_transition-Kept s.execution_id s.id (Action.set_executor_state e w m)))
        (λ o. Follows-done guarded true)

process_executor_report-Kept :
    (w : String) (r : ExecutorReport) (m : Option CrashMeta)
    → KeptJob (process_executor_report w r m)
unfolding process_executor_report
process_executor_report-Kept w r m =
    Follows-bind guarded _ _ (query-Kept _ (get_session-Kept r.session_id)) λ s.
      Follows-if guarded _ _ _ (apply_report-Kept s w r m (parse_state r.executor_state))
        (Follows-bind guarded _ _ (Follows-kill_worker guarded w) (λ u. Follows-done guarded false))

after_failed_report-Kept :
    (w : String) (r : ExecutorReport) (s : Option Session) → KeptJob (after_failed_report w r s)
unfolding after_failed_report
after_failed_report-Kept w r none = Follows-done guarded _
after_failed_report-Kept w r (some s) = search following depth 8

after_report-Kept :
    (w : String) (r : ExecutorReport) (a : Option Bool) → KeptJob (after_report w r a)
unfolding after_report
after_report-Kept w r (some a) = Follows-done guarded _
after_report-Kept w r none = Follows-if guarded _ _ _ (Follows-done guarded _) (
    Follows-bind guarded _ _ (asked _ (get_session-Kept r.session_id))
      (after_failed_report-Kept w r))

take_report-Kept :
    (w : String) (r : Option ExecutorReport) (t : Option TurnResult) → KeptJob (take_report w r t)
unfolding take_report
take_report-Kept w none t = Follows-done guarded _
take_report-Kept w (some r) t =
    Follows-bind guarded _ _ (caught-Kept _ (process_executor_report-Kept w r _))
      (after_report-Kept w r)

owned_session-Kept : (w : String) (s : Option Session) → KeptJob (owned_session w s)
unfolding owned_session
owned_session-Kept w none = Follows-done guarded _
owned_session-Kept w (some s) = search following

result_session-Kept : (w : String) (r : Option TurnResult) → KeptJob (result_session w r)
unfolding result_session
result_session-Kept w none = Follows-done guarded _
result_session-Kept w (some r) =
    Follows-bind guarded _ _ (asked _ (get_session-Kept r.session_id)) (owned_session-Kept w)

live_parent-Kept : (s : Session) (p : Option Session) → KeptJob (live_parent s p)
unfolding live_parent
live_parent-Kept s none = Follows-done guarded _
live_parent-Kept s (some p) =
    Follows-if guarded _ _ _
      (Follows-bind guarded _ _ (asked _ (get_execution-Kept s.execution_id))
        (λ x. Follows-done guarded _))
      (Follows-done guarded _)

parent_by_id-Kept : (s : Session) (p : Option String) → KeptJob (parent_by_id s p)
unfolding parent_by_id
parent_by_id-Kept s none = Follows-done guarded _
parent_by_id-Kept s (some p) =
    Follows-bind guarded _ _ (asked _ (get_session-Kept p)) (live_parent-Kept s)

parent_to_notify-Kept : (b : Bool) (s : Option Session) → KeptJob (parent_to_notify b s)
unfolding parent_to_notify
parent_to_notify-Kept true (some s) =
    Follows-if guarded _ _ _ (parent_by_id-Kept s s.parent_session_id) (Follows-done guarded _)
parent_to_notify-Kept true none = Follows-done guarded _
parent_to_notify-Kept false s = Follows-done guarded _

execution_to_lock-Kept : (s : Option Session) (t : Option String) → KeptJob (execution_to_lock s t)
unfolding execution_to_lock
execution_to_lock-Kept (some s) t = Follows-done guarded _
execution_to_lock-Kept none none = Follows-done guarded _
execution_to_lock-Kept none (some t) =
    Follows-bind guarded _ _ (asked _ (find_command-Kept t)) (λ r. Follows-done guarded _)

announce_session-Kept : (s : Option Session) → KeptJob (announce_session s)
unfolding announce_session
announce_session-Kept none = Follows-done guarded tt
announce_session-Kept (some s) = Follows-broadcast guarded _ _

announce_report-Kept :
    (b : Bool) (s : Option Session) (r : Option ExecutorReport) → KeptJob (announce_report b s r)
unfolding announce_report
announce_report-Kept true none (some r) =
    Follows-bind guarded _ _ (asked _ (get_session-Kept r.session_id)) announce_session-Kept
announce_report-Kept true none none = Follows-done guarded tt
announce_report-Kept true (some s) r = Follows-done guarded tt
announce_report-Kept false s r = Follows-done guarded tt

module _ (server : Server) (req : WorkerSyncRequest) where
  run_results-Kept :
      (s p : Option Session) (x : Option String) → KeptJob (run_results server req s p x)
  unfolding run_results
  run_results-Kept s p none = Follows-done guarded _
  run_results-Kept s p (some x) =
      with_retries-Kept server.retryable 3 _
        (take_results-Kept req.worker_id x (should_notify req) req.turn_result s p req.command_ack)

  announce_result-Kept : (s : Option Session) → KeptJob (announce_result server req s)
  unfolding announce_result
  announce_result-Kept none = Follows-done guarded tt
  announce_result-Kept (some s) = Follows-broadcast guarded _ _

  take_result-Kept : KeptJob (take_result server req)
  unfolding take_result
  take_result-Kept =
      Follows-bind guarded _ _ (result_session-Kept req.worker_id req.turn_result) λ owned.
        Follows-bind guarded _ _ (parent_to_notify-Kept (should_notify req) owned.0) λ p.
          Follows-bind guarded _ _ (execution_to_lock-Kept owned.0 req.command_ack) λ x.
            Follows-bind guarded _ _ (run_results-Kept owned.0 p x)
              (λ o. search (following, announce_result-Kept) depth 8)

  take_result_if_any-Kept : KeptJob (take_result_if_any server req)
  unfolding take_result_if_any
  take_result_if_any-Kept = Follows-if guarded _ _ _ take_result-Kept (Follows-done guarded _)

  module _ (reads : ReadsOnly server.composer) where
    worker-Kept : KeptJob (run_reconciler_for_worker server req.worker_id)
    worker-Kept = run_reconciler_for_worker-Kept server reads req.worker_id

    wait-Kept : KeptJob (wait server req)
    unfolding wait
    wait-Kept = search (following, worker-Kept)

    answer_or_wait-Kept : (r : ReconcilerResult) → KeptJob (answer_or_wait server req r)
    unfolding answer_or_wait
    answer_or_wait-Kept (ReconcilerResult.command t a) = Follows-done guarded _
    answer_or_wait-Kept ReconcilerResult.pending_command = Follows-done guarded _
    answer_or_wait-Kept ReconcilerResult.no_action = wait-Kept
    answer_or_wait-Kept ReconcilerResult.nothing_found = wait-Kept

    long_poll-Kept : KeptJob (long_poll server req)
    unfolding long_poll
    long_poll-Kept = search (following, worker-Kept, answer_or_wait-Kept)

    answer_or_poll-Kept : (r : ReconcilerResult) → KeptJob (answer_or_poll server req r)
    unfolding answer_or_poll
    answer_or_poll-Kept (ReconcilerResult.command t a) = Follows-done guarded _
    answer_or_poll-Kept ReconcilerResult.pending_command = Follows-done guarded _
    answer_or_poll-Kept ReconcilerResult.no_action = search (following, long_poll-Kept)
    answer_or_poll-Kept ReconcilerResult.nothing_found = search (following, long_poll-Kept)

    run_reconciler-Kept : (id : Option String) → KeptJob (run_reconciler server req id)
    unfolding run_reconciler
    run_reconciler-Kept none = Follows-bind guarded _ _ worker-Kept answer_or_poll-Kept
    run_reconciler-Kept (some id) =
        Follows-bind guarded _ _ (run_reconciler_for_session-Kept server reads req.worker_id id)
          (λ r. Follows-done guarded _)

    worker_sync-Kept : KeptJob (worker_sync server req)
    unfolding worker_sync
    worker_sync-Kept = Follows-bind guarded _ _ (Follows-heartbeat guarded req.worker_id) λ h.
        Follows-bind guarded _ _
          (take_report-Kept req.worker_id req.executor_report req.turn_result)
          λ r. Follows-bind guarded _ _ take_result_if_any-Kept λ o.
            Follows-bind guarded _ _ (announce_report-Kept _ _ _) λ a.
              Follows-bind guarded _ _ (wake_if-Kept _)
                (λ k. Follows-if guarded _ _ _ (Follows-done guarded _) (run_reconciler-Kept _))

-- Whatever a worker reports, and whatever the answer is: if every session of the database is
-- coherent, the parts of an assignment that other modules put together only read, and the
-- transactions of others that run in between keep the history of a coherent database, then the whole
-- request keeps that history. A session that is terminated and an execution that has ended stay as
-- they ended, coherent sessions stay coherent, and the log only grows.
pub worker_sync_keeps_history :
    (server : Server) (req : WorkerSyncRequest) (w : World) (m : Machine)
    → ReadsOnly server.composer
    → ((k : ℕ) (d : Db) → Guarded d (w.others k d))
    → All IsCoherent m.db.sessions
    → History m.db (worker_sync server req w m).1.db
worker_sync_keeps_history server req w m r o h = (worker_sync-Kept server req r).at w m o h
