-- ===== src/Synchronisation/Global.antt =====
-- scheduler/src/api/handlers/worker_sync.rs: `run_reconciler_for_worker` for a worker without
-- sessions: it claims one, or looks after those of others.
-- Job Proc
use agentbeacon.Transition.Actions.{Action}
use agentbeacon.Tx.{Rejected}
use agentbeacon.Procedures.{done, ◌>>=◌, ◌>>◌, kill_worker, read_clock, broadcast, read_heartbeats}
use agentbeacon.Statements.Sync.{
  find_reconcilable, find_sessions_for_worker, find_unassigned_with_work,
}
use agentbeacon.Reconciler.Cascade.{Job, ignored, run_transition, query}
use agentbeacon.Reconciler.Commands.{CommandAction, ReconcilerAction}
use agentbeacon.Tables.{Session, is_terminate, is_crashed}
use agentbeacon.Reconciler.Reconcile.{say}
use agentbeacon.Synchronisation.Rounds.{
  reconcile_session, run_for_held, ReconcilerResult, wake_if, nothing_found,
}
use agentbeacon.Base.{
  String, List, Option, Bool, ℕ, if◌then◌else◌, is_some, none, false, is_none, some, ◌||◌, ◌∷◌, [],
  ltb, str_eq, true, ◌&&◌, not, pos, ◌-◌, unwrap_or,
}
use agentbeacon.Synchronisation.Requests.{Server, caught}

module _ (server : Server) (worker_id : String) where
  abbrev pub command_in : Option (Option ReconcilerAction) → Option (String × CommandAction)
  command_in (some (some (ReconcilerAction.send_command token action))) = some (token, action)
  command_in _ = none

  unfoldable pub claim_from : Option (Option Session) → Job (Option (String × CommandAction))
  unfolding reconcile_session
  claim_from (some (some session)) = do
    action ← reconcile_session server worker_id true (some worker_id) session
    done (command_in action)
  claim_from _ = done none

  unfoldable pub claim : Job (Option (String × CommandAction))
  unfolding caught find_unassigned_with_work claim_from
  claim = do found ← caught (query find_unassigned_with_work); claim_from found

  abbrev pub last_seen : String → List (String × ℕ) → Option ℕ
  last_seen holder [] = none
  last_seen holder ((id, at) ∷ beats) = if str_eq id holder then some at else last_seen holder beats

  -- A worker that was never heard of counts from the start of the scheduler.
  unfoldable pub is_expired : List (String × ℕ) → String → Job Bool
  is_expired beats holder = do
    now ← read_clock
    done (ltb server.heartbeat_timeout (now - unwrap_or (last_seen holder beats) server.started_at))

  unfoldable pub drop_worker : Session → String → Job (Unit {0})
  unfolding say ignored run_transition
  drop_worker session holder = do
    (if session.command_has_payload
        then say session "Agent recovered from a crash. A message may have been lost."
        else done tt)
    kill_worker holder
    ignored {E = Rejected} (run_transition session.execution_id session.id Action.detect_crash)

  abbrev pub has_changed : Option (Option ReconcilerAction) → Bool
  has_changed (some (some ReconcilerAction.mutated)) = true
  has_changed (some (some ReconcilerAction.repaired)) = true
  has_changed _ = false

  unfoldable pub reconcile_other : Session → Job Bool
  unfolding reconcile_session
  reconcile_other session = do
    action ← reconcile_session server worker_id false none session
    (if has_changed action then broadcast session.execution_id (pos 0) else done tt)
    done (has_changed action)

  abbrev needs_global_reconciliation : Session → Bool
  needs_global_reconciliation s =
      is_some s.command_token || is_terminate s.desired || is_crashed s.executor_state

  unfoldable pub look_after : List (String × ℕ) → Session → Option String → Job Bool
  unfolding reconcile_other is_expired drop_worker
  look_after beats session none =
      if is_none session.outcome
        && not (is_terminate session.desired)
        && not (is_crashed session.executor_state)
      then done false
      else reconcile_other session
  look_after beats session (some holder) = if str_eq holder worker_id then done false else do
    expired ← is_expired beats holder
    if expired
        then (do drop_worker session holder; done true)
        else if is_none session.outcome && not (needs_global_reconciliation session)
        then done false
        else reconcile_other session

  unfoldable pub look_after_all : List (String × ℕ) → List Session → Bool → Job Bool
  unfolding look_after
  look_after_all beats [] mutated = done mutated
  look_after_all beats (session ∷ rest) mutated = do
    changed ← look_after beats session session.worker_id
    look_after_all beats rest (mutated || changed)

  unfoldable pub look_after_found : Option (List Session) → Job Bool
  unfolding look_after_all
  look_after_found none = done false
  look_after_found (some sessions) = do beats ← read_heartbeats; look_after_all beats sessions false

  unfoldable pub run_for_others : Job ReconcilerResult
  unfolding caught find_reconcilable look_after_found wake_if
  run_for_others = do
    found ← caught (query find_reconcilable)
    mutated ← look_after_found found
    wake_if mutated
    done (if mutated then ReconcilerResult.no_action else nothing_found)

  unfoldable pub run_without : Option (String × CommandAction) → Job ReconcilerResult
  unfolding run_for_others
  run_without (some (token, action)) = done (ReconcilerResult.command token action)
  run_without none = run_for_others

  unfoldable pub run_for : Option (List Session) → Job ReconcilerResult
  unfolding claim run_without run_for_held
  run_for none = done nothing_found
  run_for (some []) = do claimed ← claim; run_without claimed
  run_for (some (session ∷ rest)) = run_for_held server worker_id

  unfoldable pub run_reconciler_for_worker : Job ReconcilerResult
  unfolding caught find_sessions_for_worker run_for
  run_reconciler_for_worker = do
    sessions ← caught (query (find_sessions_for_worker worker_id))
    run_for sessions
