-- ===== src/Synchronisation/History/Procedures.antt =====
-- The history under the procedures of the workers' synchronisation.
-- Job Proc
use agentbeacon.Synchronisation.History.{
  find_reconcilable-Kept, find_sessions_for_worker-Kept, find_unassigned-Kept,
}
use agentbeacon.Reconciler.Commands.{ReconcilerAction, CommandAction}
use agentbeacon.Reconciler.History.{guarded}
use agentbeacon.Tables.{Session, Execution}
use agentbeacon.Procedures.Follows.{
  Follows-bind, Follows-done, following, Follows-attempted, Follows-if, Follows-read_heartbeats,
  Follows-raise,
}
use agentbeacon.Synchronisation.Global.{
  claim, claim_from, drop_worker, is_expired, look_after, look_after_all, look_after_found,
  reconcile_other, run_for, run_for_others, run_reconciler_for_worker, run_without,
}
use agentbeacon.Statements.{count_pending_turns, get_execution}
use agentbeacon.Reconciler.History.Cascade.{
  KeptJob, query-Kept, get_session-Kept, ignored-Kept, run_transition-Kept, transaction,
}
use agentbeacon.Reconciler.History.Procedures.{say-Kept, reconcile-Kept}
use agentbeacon.Reconciler.History.Steps.{ReadsOnly}
use agentbeacon.Transition.Ratchet.Steps.{Kept, stepping}
use agentbeacon.Reconciler.Cascade.{Fault, Job, query, scheduler, diverged}
use agentbeacon.Synchronisation.Rounds.{
  wake_if, ReconcilerResult, Seen, ends, pass, passes, reconcile_for, reconcile_session,
  report_sweep, run_for_held, run_reconciler_for_session, sweep, visit, visits, Sweep, after_sweep,
  sent, after_action, nothing_seen, over, pass_again, note_any,
}
use agentbeacon.Base.{
  String, Bool, ℕ, List, Option, false, suc, some, none, true, unwrap_or, ◌∷◌, [], zero, ◌||◌,
}
use agentbeacon.Synchronisation.Results.{with_retries, retry_result}
use agentbeacon.Synchronisation.Requests.{Server, caught, caught_result}
use agentbeacon.Tx.{Result, SchedulerError, Tx, ok, err}

caught_result-Kept : {A : Type 0} (r : Result Fault A) → KeptJob (caught_result r)
caught_result-Kept (ok a) = Follows-done guarded _
caught_result-Kept (err (scheduler x)) = Follows-done guarded _
caught_result-Kept (err diverged) = Follows-raise guarded _

pub caught-Kept : {A : Type 0} (p : Job A) → KeptJob p → KeptJob (caught p)
unfolding caught
caught-Kept p k =
    Follows-bind guarded _ _ (Follows-attempted guarded p k) (λ r. caught_result-Kept r)

pub asked : {A : Type 0} (m : Tx SchedulerError A) → Kept m → KeptJob (caught (query m))
asked m k = caught-Kept (query m) (query-Kept m k)

retry_result-Kept :
    {A : Type 0} (f : SchedulerError → Bool) (p : Job A) (r : Result SchedulerError A)
    → KeptJob p
    → KeptJob (retry_result f p r)
retry_result-Kept f p (ok a) k = Follows-done guarded a
retry_result-Kept f p (err x) k = Follows-if guarded _ _ _ k (Follows-raise guarded _)

pub with_retries-Kept :
    {A : Type 0} (f : SchedulerError → Bool) (n : ℕ) (m : Tx SchedulerError A)
    → Kept m
    → KeptJob (with_retries f n m)
unfolding with_retries
with_retries-Kept f zero m k = query-Kept m k
with_retries-Kept f (suc n) m k =
    Follows-bind guarded _ _ (Follows-attempted guarded _ (transaction m k))
      (λ r. retry_result-Kept f (with_retries f n m) r (with_retries-Kept f n m k))

count_pending_turns-Kept : (id : String) → Kept (count_pending_turns id)
count_pending_turns-Kept id = search stepping

pub get_execution-Kept : (id : String) → Kept (get_execution id)
get_execution-Kept id = search stepping

pub wake_if-Kept : (b : Bool) → KeptJob (wake_if b)
unfolding wake_if
wake_if-Kept b = search following

module _ (server : Server) (reads : ReadsOnly server.composer) (w : String) where
  reconcile_for-Kept :
      (b : Bool) (h : Option String) (s : Session) (n : ℕ) (x : Option Execution)
      → KeptJob (reconcile_for server w b h s n x)
  unfolding reconcile_for
  reconcile_for-Kept b h s n none = Follows-done guarded _
  reconcile_for-Kept b h s n (some x) =
      Follows-bind guarded _ _
        (caught-Kept _ (reconcile-Kept server.composer reads server.fuel s n x b h true))
        (λ a. Follows-done guarded _)

  reconcile_session-Kept :
      (b : Bool) (h : Option String) (s : Session) → KeptJob (reconcile_session server w b h s)
  unfolding reconcile_session
  reconcile_session-Kept b h s =
      Follows-bind guarded _ _ (asked _ (count_pending_turns-Kept s.id)) λ n.
        Follows-bind guarded _ _ (asked _ (get_execution-Kept s.execution_id))
          (λ x. reconcile_for-Kept b h s (unwrap_or n 0) x)

  after_sweep-Kept :
      (f : Seen → Job Sweep) (s : Sweep)
      → ((x : Seen) → KeptJob (f x))
      → KeptJob (after_sweep server w f s)
  after_sweep-Kept f (sent t a) k = Follows-done guarded _
  after_sweep-Kept f (over x) k = k x

  sweep-Kept : (ss : List Session) (x : Seen) → KeptJob (sweep server w ss x)
  unfolding sweep
  sweep-Kept [] x = Follows-done guarded _
  sweep-Kept (s ∷ ss) x =
      Follows-bind guarded _ _ (reconcile_session-Kept true (some w) s)
        (λ a. after_sweep-Kept (sweep server w ss) (note_any a x) (sweep-Kept ss))

  pass-Kept :
      (f : Seen → Job Sweep) (ss : Option (List Session)) (x : Seen)
      → ((x : Seen) → KeptJob (f x))
      → KeptJob (pass server w f ss x)
  unfolding pass
  pass-Kept f none x k = Follows-done guarded _
  pass-Kept f (some ss) x k = Follows-bind guarded _ _ (sweep-Kept ss _) (λ r.
      after_sweep-Kept (pass_again server w f) r
        (λ y. Follows-if guarded _ _ _ (k y) (Follows-done guarded _)))

  passes-Kept : (n : ℕ) (x : Seen) → KeptJob (passes server w n x)
  unfolding passes
  passes-Kept zero x = Follows-done guarded _
  passes-Kept (suc n) x =
      Follows-bind guarded _ _ (asked _ (find_sessions_for_worker-Kept w))
        (λ ss. pass-Kept (passes server w n) ss x (passes-Kept n))

  report_sweep-Kept : (s : Sweep) → KeptJob (report_sweep server w s)
  unfolding report_sweep
  report_sweep-Kept (sent t a) = Follows-done guarded _
  report_sweep-Kept (over x) = search (following, wake_if-Kept)

  run_for_held-Kept : KeptJob (run_for_held server w)
  unfolding run_for_held
  run_for_held-Kept = Follows-bind guarded _ _ (passes-Kept 2 nothing_seen) report_sweep-Kept

  ends-Kept : (b : Bool) → KeptJob (ends server w b)
  unfolding ends
  ends-Kept b = search (following, wake_if-Kept)

  after_action-Kept :
      (p : Job ReconcilerResult) (b : Bool) (a : Option (Option ReconcilerAction))
      → KeptJob p
      → KeptJob (after_action server w p b a)
  after_action-Kept p b none k = Follows-done guarded _
  after_action-Kept p b (some none) k = ends-Kept b
  after_action-Kept p b (some (some (ReconcilerAction.send_command t a))) k = Follows-done guarded _
  after_action-Kept p b (some (some ReconcilerAction.pending_command)) k = Follows-done guarded _
  after_action-Kept p b (some (some ReconcilerAction.repaired)) k = k
  after_action-Kept p b (some (some ReconcilerAction.mutated)) k = ends-Kept true
  after_action-Kept p b (some (some ReconcilerAction.no_action)) k = ends-Kept b

  visit-Kept :
      (p : Job ReconcilerResult) (b : Bool) (s : Option Session)
      → KeptJob p
      → KeptJob (visit server w p b s)
  unfolding visit
  visit-Kept p b none k = Follows-done guarded _
  visit-Kept p b (some s) k =
      Follows-if guarded _ _ _
        (Follows-bind guarded _ _ (reconcile_session-Kept true (some w) s)
          (λ a. after_action-Kept p b a k))
        (Follows-done guarded _)

  visits-Kept : (n : ℕ) (id : String) (b : Bool) → KeptJob (visits server w n id b)
  unfolding visits
  visits-Kept zero id b = ends-Kept b
  visits-Kept (suc n) id b =
      Follows-bind guarded _ _ (asked _ (get_session-Kept id))
        (λ s. visit-Kept (visits server w n id true) b s (visits-Kept n id true))

  pub run_reconciler_for_session-Kept :
      (id : String) → KeptJob (run_reconciler_for_session server w id)
  unfolding run_reconciler_for_session
  run_reconciler_for_session-Kept id = visits-Kept 2 id false

  claim_from-Kept : (s : Option (Option Session)) → KeptJob (claim_from server w s)
  unfolding claim_from
  claim_from-Kept none = Follows-done guarded _
  claim_from-Kept (some none) = Follows-done guarded _
  claim_from-Kept (some (some s)) =
      Follows-bind guarded _ _ (reconcile_session-Kept true (some w) s)
        (λ a. Follows-done guarded _)

  claim-Kept : KeptJob (claim server w)
  unfolding claim
  claim-Kept = Follows-bind guarded _ _ (asked _ find_unassigned-Kept) claim_from-Kept

  is_expired-Kept : (b : List (String × ℕ)) (h : String) → KeptJob (is_expired server w b h)
  unfolding is_expired
  is_expired-Kept b h = search following

  drop_worker-Kept : (s : Session) (h : String) → KeptJob (drop_worker server w s h)
  unfolding drop_worker
  drop_worker-Kept s h = search (following, say-Kept, ignored-Kept, run_transition-Kept) depth 12

  reconcile_other-Kept : (s : Session) → KeptJob (reconcile_other server w s)
  unfolding reconcile_other
  reconcile_other-Kept s =
      Follows-bind guarded _ _ (reconcile_session-Kept false none s) (λ a. search following depth 8)

  look_after-Kept :
      (b : List (String × ℕ)) (s : Session) (h : Option String)
      → KeptJob (look_after server w b s h)
  unfolding look_after
  look_after-Kept b s none = search (following, reconcile_other-Kept)
  look_after-Kept b s (some h) =
      search (following, reconcile_other-Kept, is_expired-Kept, drop_worker-Kept) depth 12

  look_after_all-Kept :
      (b : List (String × ℕ)) (ss : List Session) (m : Bool)
      → KeptJob (look_after_all server w b ss m)
  unfolding look_after_all
  look_after_all-Kept b [] m = Follows-done guarded _
  look_after_all-Kept b (s ∷ ss) m =
      Follows-bind guarded _ _ (look_after-Kept b s s.worker_id)
        (λ c. look_after_all-Kept b ss (m || c))

  look_after_found-Kept : (ss : Option (List Session)) → KeptJob (look_after_found server w ss)
  unfolding look_after_found
  look_after_found-Kept none = Follows-done guarded _
  look_after_found-Kept (some ss) =
      Follows-bind guarded _ _ (Follows-read_heartbeats guarded)
        (λ b. look_after_all-Kept b ss false)

  run_for_others-Kept : KeptJob (run_for_others server w)
  unfolding run_for_others
  run_for_others-Kept = Follows-bind guarded _ _ (asked _ find_reconcilable-Kept) λ ss.
      Follows-bind guarded _ _ (look_after_found-Kept ss) (λ m. search (following, wake_if-Kept))

  run_for-Kept : (ss : Option (List Session)) → KeptJob (run_for server w ss)
  unfolding run_for run_without
  run_for-Kept none = Follows-done guarded _
  run_for-Kept (some []) = Follows-bind guarded _ _ claim-Kept λ c. run_without-Kept c
    where
      run_without-Kept : (c : Option (String × CommandAction)) → KeptJob (run_without server w c)
      run_without-Kept none = run_for_others-Kept
      run_without-Kept (some (t, a)) = Follows-done guarded _
  run_for-Kept (some (s ∷ ss)) = run_for_held-Kept

  pub run_reconciler_for_worker-Kept : KeptJob (run_reconciler_for_worker server w)
  unfolding run_reconciler_for_worker
  run_reconciler_for_worker-Kept =
      Follows-bind guarded _ _ (asked _ (find_sessions_for_worker-Kept w)) run_for-Kept
