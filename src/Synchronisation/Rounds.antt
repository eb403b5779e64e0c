-- ===== src/Synchronisation/Rounds.antt =====
-- scheduler/src/api/handlers/worker_sync.rs: `run_reconciler_for_worker` on the sessions that the
-- worker holds, and `run_reconciler_for_session`.
-- Job Proc
use agentbeacon.Statements.{get_session, count_pending_turns, get_execution}
use agentbeacon.Statements.Sync.{find_sessions_for_worker}
use agentbeacon.Procedures.{done, ◌>>=◌, ◌>>◌, wake_waiters}
use agentbeacon.Tables.{Session, Execution}
use agentbeacon.Reconciler.Reconcile.{reconcile}
use agentbeacon.Reconciler.Cascade.{Job, query}
use agentbeacon.Synchronisation.Requests.{Server, caught, holds}
use agentbeacon.Reconciler.Commands.{ReconcilerAction, CommandAction}
use agentbeacon.Base.{
  Bool, Option, String, false, List, true, if◌then◌else◌, some, ℕ, ◌∷◌, none, suc, [], zero,
  unwrap_or,
}

pub data ReconcilerResult : Type 0 where
  command : String → CommandAction → ReconcilerResult
  no_action pending_command nothing_found : ReconcilerResult

-- What the actions so far came to.
pub record Seen : Type 0 where
  pub any_repaired : Bool
  pub sessions_mutated : Bool
  pub has_pending_command : Bool

pub data Sweep : Type 0 where
  sent : String → CommandAction → Sweep
  over : Seen → Sweep

abbrev pub nothing_seen : Seen
nothing_seen = record {
  any_repaired = false;
  sessions_mutated = false;
  has_pending_command = false;
}

abbrev pub note : ReconcilerAction → Seen → Sweep
note (ReconcilerAction.send_command token action) seen = sent token action
note ReconcilerAction.repaired seen =
    over (record seen { any_repaired = true; sessions_mutated = true })
note ReconcilerAction.mutated seen = over (record seen { sessions_mutated = true })
note ReconcilerAction.pending_command seen = over (record seen { has_pending_command = true })
note ReconcilerAction.no_action seen = over seen

-- An error of the reconciler, or of the reading of the execution, passes the session over.
abbrev pub note_any : Option (Option ReconcilerAction) → Seen → Sweep
note_any (some (some action)) seen = note action seen
note_any _ seen = over seen

unfoldable pub wake_if : Bool → Job (Unit {0})
wake_if b = if b then wake_waiters else done tt

module _ (server : Server) (worker_id : String) where
  unfoldable pub reconcile_for :
      Bool → Option String → Session → ℕ → Option Execution → Job (Option (Option ReconcilerAction))
  unfolding caught reconcile
  reconcile_for command_ok holder session pending none = done none
  reconcile_for command_ok holder session pending (some execution) = do
    action ←
        caught
          (reconcile server.composer server.fuel session pending execution command_ok holder true)
    done (some action)

  -- `none` where there is no execution, `some none` where the reconciler fails.
  unfoldable pub reconcile_session :
      Bool → Option String → Session → Job (Option (Option ReconcilerAction))
  unfolding caught reconcile_for
  reconcile_session command_ok holder session = do
    pending ← caught (query (count_pending_turns session.id))
    execution ← caught (query (get_execution session.execution_id))
    reconcile_for command_ok holder session (unwrap_or pending 0) execution

  abbrev pub after_sweep : (Seen → Job Sweep) → Sweep → Job Sweep
  after_sweep next (sent token action) = done (sent token action)
  after_sweep next (over seen) = next seen

  unfoldable pub sweep : List Session → Seen → Job Sweep
  unfolding reconcile_session
  sweep [] seen = done (over seen)
  sweep (session ∷ rest) seen = do
    action ← reconcile_session true (some worker_id) session
    after_sweep (sweep rest) (note_any action seen)

  -- Another pass if something was repaired.
  abbrev pub pass_again : (Seen → Job Sweep) → Seen → Job Sweep
  pass_again next seen = if seen.any_repaired then next seen else done (over seen)

  unfoldable pub pass : (Seen → Job Sweep) → Option (List Session) → Seen → Job Sweep
  unfolding sweep
  pass next none seen = done (over seen)
  pass next (some fresh) seen = do
    swept ← sweep fresh (record seen { any_repaired = false })
    after_sweep (pass_again next) swept

  unfoldable pub passes : ℕ → Seen → Job Sweep
  unfolding caught find_sessions_for_worker pass
  passes zero seen = done (over seen)
  passes (suc n) seen = do
    fresh ← caught (query (find_sessions_for_worker worker_id))
    pass (passes n) fresh seen

  unfoldable pub report_sweep : Sweep → Job ReconcilerResult
  unfolding wake_if
  report_sweep (sent token action) = done (command token action)
  report_sweep (over seen) = do
    wake_if seen.sessions_mutated
    done (if seen.has_pending_command then pending_command else no_action)

  unfoldable pub run_for_held : Job ReconcilerResult
  unfolding passes report_sweep
  run_for_held = do swept ← passes 2 nothing_seen; report_sweep swept

  -- One session, which the worker must hold.
  unfoldable pub ends : Bool → Job ReconcilerResult
  unfolding wake_if
  ends mutated = do wake_if mutated; done no_action

  abbrev pub after_action :
      Job ReconcilerResult → Bool → Option (Option ReconcilerAction) → Job ReconcilerResult
  after_action again mutated none = done nothing_found
  after_action again mutated (some none) = ends mutated
  after_action again mutated (some (some (ReconcilerAction.send_command token action))) =
      done (command token action)
  after_action again mutated (some (some ReconcilerAction.pending_command)) = done pending_command
  after_action again mutated (some (some ReconcilerAction.repaired)) = again
  after_action again mutated (some (some ReconcilerAction.mutated)) = ends true
  after_action again mutated (some (some ReconcilerAction.no_action)) = ends mutated

  unfoldable pub visit : Job ReconcilerResult → Bool → Option Session → Job ReconcilerResult
  unfolding reconcile_session ends
  visit again mutated none = done nothing_found
  visit again mutated (some session) =
      if holds worker_id session
      then (do
        action ← reconcile_session true (some worker_id) session
        after_action again mutated action)
      else done nothing_found

  unfoldable pub visits : ℕ → String → Bool → Job ReconcilerResult
  unfolding caught get_session visit ends
  visits zero session_id mutated = ends mutated
  visits (suc n) session_id mutated = do
    session ← caught (query (get_session session_id))
    visit (visits n session_id true) mutated session

  unfoldable pub run_reconciler_for_session : String → Job ReconcilerResult
  unfolding visits
  run_reconciler_for_session session_id = visits 2 session_id false
