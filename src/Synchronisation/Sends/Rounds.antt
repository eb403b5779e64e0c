-- ===== src/Synchronisation/Sends/Rounds.antt =====
-- The commands that a worker is answered with, from one round of the reconciler to the answer.
-- Job Proc
use agentbeacon.Synchronisation.Sends.{
  Gives, OfResult, Tried, Gives-bind, Gives-done, Gives-then, OfClaim, OfSweep, Triple, Always,
  anything, Good, Gives-if, Recorded, reconcile_session-Gives, Triple-weaken,
}
use agentbeacon.Synchronisation.Global.{
  claim_from, run_for, run_for_others, run_reconciler_for_worker, run_without, claim, command_in,
}
use agentbeacon.Reconciler.Cascade.{Job}
use agentbeacon.Tables.{Db, Session}
use agentbeacon.Synchronisation.Rounds.{
  Seen, ends, pass, passes, report_sweep, run_for_held, run_reconciler_for_session, sweep, visit,
  visits, ReconcilerResult, Sweep, note_any, nothing_seen, after_action, after_sweep, over,
  pass_again, sent,
}
use agentbeacon.Reconciler.History.Steps.{ReadsOnly}
use agentbeacon.Reconciler.Commands.{ReconcilerAction, CommandAction}
use agentbeacon.Synchronisation.Requests.{Server, holds}
use agentbeacon.Base.{
  Option, String, Bool, List, ℕ, false, if◌then◌else◌, suc, true, some, zero, none, ◌∷◌, [],
}

noted :
    (a : Option (Option ReconcilerAction)) (x : Seen) (d : Db)
    → Tried a d
    → OfSweep (note_any a x) d
noted none x d h = tt
noted (some none) x d h = tt
noted (some (some (ReconcilerAction.send_command t a))) x d h = h
noted (some (some ReconcilerAction.no_action)) x d h = tt
noted (some (some ReconcilerAction.pending_command)) x d h = tt
noted (some (some ReconcilerAction.repaired)) x d h = tt
noted (some (some ReconcilerAction.mutated)) x d h = tt

module _ (server : Server) (reads : ReadsOnly server.composer) (w : String) where
  after_sweep-Gives :
      (f : Seen → Job Sweep) (s : Sweep)
      → ((x : Seen) → Gives OfSweep (f x))
      → Triple anything (OfSweep s) (after_sweep server w f s) (Good OfSweep)
  after_sweep-Gives f (sent t a) k = Gives-done (Recorded t a) OfSweep (sent t a) (λ d h. h)
  after_sweep-Gives f (over x) k = k x

  sweep-Gives : (ss : List Session) (x : Seen) → Gives OfSweep (sweep server w ss x)
  unfolding sweep
  sweep-Gives [] x = Gives-done Always OfSweep (over x) (λ d h. tt)
  sweep-Gives (s ∷ ss) x =
      Gives-bind Tried OfSweep _ _ (reconcile_session-Gives server reads w true (some w) s) (λ a.
        Triple-weaken anything (OfSweep (note_any a x)) (Tried a) _ (Good OfSweep) (Good OfSweep)
          (noted a x) (λ r d h. h)
          (after_sweep-Gives (sweep server w ss) (note_any a x) (sweep-Gives ss)))

  pass-Gives :
      (f : Seen → Job Sweep) (ss : Option (List Session)) (x : Seen)
      → ((x : Seen) → Gives OfSweep (f x))
      → Gives OfSweep (pass server w f ss x)
  unfolding pass
  pass-Gives f none x k = Gives-done Always OfSweep (over x) (λ d h. tt)
  pass-Gives f (some ss) x k = Gives-bind OfSweep OfSweep _ _ (sweep-Gives ss _) (λ r.
      after_sweep-Gives (pass_again server w f) r (λ y.
        Gives-if OfSweep y.any_repaired _ _ (k y) (Gives-done Always OfSweep (over y) (λ d h. tt))))

  passes-Gives : (n : ℕ) (x : Seen) → Gives OfSweep (passes server w n x)
  unfolding passes
  passes-Gives zero x = Gives-done Always OfSweep (over x) (λ d h. tt)
  passes-Gives (suc n) x =
      Gives-then OfSweep _ _ (λ ss. pass-Gives (passes server w n) ss x (passes-Gives n))

  no_command :
      (b : Bool) (d : Db)
      → OfResult (if b then ReconcilerResult.pending_command else ReconcilerResult.no_action) d
  no_command true d = tt
  no_command false d = tt

  report_sweep-Gives :
      (s : Sweep) → Triple anything (OfSweep s) (report_sweep server w s) (Good OfResult)
  unfolding report_sweep
  report_sweep-Gives (sent t a) =
      Gives-done (Recorded t a) OfResult (ReconcilerResult.command t a) (λ d h. h)
  report_sweep-Gives (over x) =
      Gives-then OfResult _ _
        (λ u. Gives-done Always OfResult _ (λ d h. no_command x.has_pending_command d))

  run_for_held-Gives : Gives OfResult (run_for_held server w)
  unfolding run_for_held
  run_for_held-Gives =
      Gives-bind OfSweep OfResult _ _ (passes-Gives 2 nothing_seen) report_sweep-Gives

  ends-Gives : (b : Bool) → Gives OfResult (ends server w b)
  unfolding ends
  ends-Gives b = Gives-then OfResult _ _ (λ u. Gives-done Always OfResult _ (λ d h. tt))

  after_action-Gives :
      (p : Job ReconcilerResult) (b : Bool) (a : Option (Option ReconcilerAction))
      → Gives OfResult p
      → Triple anything (Tried a) (after_action server w p b a) (Good OfResult)
  after_action-Gives p b none k = Gives-done Always OfResult _ (λ d h. tt)
  after_action-Gives p b (some none) k = ends-Gives b
  after_action-Gives p b (some (some (ReconcilerAction.send_command t a))) k =
      Gives-done (Recorded t a) OfResult (ReconcilerResult.command t a) (λ d h. h)
  after_action-Gives p b (some (some ReconcilerAction.pending_command)) k =
      Gives-done Always OfResult _ (λ d h. tt)
  after_action-Gives p b (some (some ReconcilerAction.repaired)) k = k
  after_action-Gives p b (some (some ReconcilerAction.mutated)) k = ends-Gives true
  after_action-Gives p b (some (some ReconcilerAction.no_action)) k = ends-Gives b

  visit-Gives :
      (p : Job ReconcilerResult) (b : Bool) (s : Option Session)
      → Gives OfResult p
      → Gives OfResult (visit server w p b s)
  unfolding visit
  visit-Gives p b none k = Gives-done Always OfResult _ (λ d h. tt)
  visit-Gives p b (some s) k =
      Gives-if OfResult (holds w s) _ _
        (Gives-bind Tried OfResult _ _ (reconcile_session-Gives server reads w true (some w) s)
          (λ a. after_action-Gives p b a k))
        (Gives-done Always OfResult _ (λ d h. tt))

  visits-Gives : (n : ℕ) (id : String) (b : Bool) → Gives OfResult (visits server w n id b)
  unfolding visits
  visits-Gives zero id b = ends-Gives b
  visits-Gives (suc n) id b =
      Gives-then OfResult _ _
        (λ s. visit-Gives (visits server w n id true) b s (visits-Gives n id true))

  pub run_reconciler_for_session-Gives :
      (id : String) → Gives OfResult (run_reconciler_for_session server w id)
  unfolding run_reconciler_for_session
  run_reconciler_for_session-Gives id = visits-Gives 2 id false

  claimed :
      (a : Option (Option ReconcilerAction)) (d : Db)
      → Tried a d
      → OfClaim (command_in server w a) d
  claimed none d h = tt
  claimed (some none) d h = tt
  claimed (some (some (ReconcilerAction.send_command t a))) d h = h
  claimed (some (some ReconcilerAction.no_action)) d h = tt
  claimed (some (some ReconcilerAction.pending_command)) d h = tt
  claimed (some (some ReconcilerAction.repaired)) d h = tt
  claimed (some (some ReconcilerAction.mutated)) d h = tt

  claim_from-Gives : (s : Option (Option Session)) → Gives OfClaim (claim_from server w s)
  unfolding claim_from
  claim_from-Gives none = Gives-done Always OfClaim none (λ d h. tt)
  claim_from-Gives (some none) = Gives-done Always OfClaim none (λ d h. tt)
  claim_from-Gives (some (some s)) =
      Gives-bind Tried OfClaim _ _ (reconcile_session-Gives server reads w true (some w) s)
        (λ a. Gives-done (Tried a) OfClaim (command_in server w a) (claimed a))

  no_result :
      (b : Bool) (d : Db)
      → OfResult (if b then ReconcilerResult.no_action else ReconcilerResult.nothing_found) d
  no_result true d = tt
  no_result false d = tt

  run_for_others-Gives : Gives OfResult (run_for_others server w)
  unfolding run_for_others
  run_for_others-Gives = Gives-then OfResult _ _ λ ss.
      Gives-then OfResult _ _
        λ m. Gives-then OfResult _ _ (λ u. Gives-done Always OfResult _ (λ d h. no_result m d))

  run_without-Gives :
      (c : Option (String × CommandAction))
      → Triple anything (OfClaim c) (run_without server w c) (Good OfResult)
  unfolding run_without
  run_without-Gives none = run_for_others-Gives
  run_without-Gives (some (t, a)) =
      Gives-done (Recorded t a) OfResult (ReconcilerResult.command t a) (λ d h. h)

  run_for-Gives : (ss : Option (List Session)) → Gives OfResult (run_for server w ss)
  unfolding run_for claim
  run_for-Gives none = Gives-done Always OfResult _ (λ d h. tt)
  run_for-Gives (some []) =
      Gives-bind OfClaim OfResult _ _ (Gives-then OfClaim _ _ claim_from-Gives) run_without-Gives
  run_for-Gives (some (s ∷ ss)) = run_for_held-Gives

  pub run_reconciler_for_worker-Gives : Gives OfResult (run_reconciler_for_worker server w)
  unfolding run_reconciler_for_worker
  run_reconciler_for_worker-Gives = Gives-then OfResult _ _ run_for-Gives
