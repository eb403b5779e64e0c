-- ===== src/Reconciler/History/Procedures.antt =====
-- The history under the reconciler's procedures.
-- Job
use agentbeacon.Reconciler.History.Cascade.{
  KeptJob, ignored-Kept, issue-Guarded, issue-Kept, query-Guarded, query-Kept,
  run_terminate_failed-Kept, run_transition-Kept, terminate_and_cascade-Kept, transaction,
  get_session-Kept, cascade_children-Kept,
}
use agentbeacon.Statements.Keep.{Keeps-get_execution}
use agentbeacon.Reconciler.History.Repairs.{
  Kept-clear_crashed_command, Guarded-repair_desired, Guarded-repair_root, Guarded-repair_child,
  Kept-repair_execution,
}
use agentbeacon.Statements.{get_execution}
use agentbeacon.Reconciler.History.{guarded, history, Db, Guarded, IsCoherent, History}
use agentbeacon.Reconciler.History.Steps.{
  ReadsOnly, Kept-finalize, Kept-get_agent, Kept-get_children, Kept-insert_locked,
  Kept-issue_cancel, Kept-issue_feed_turn, Kept-issue_stop_turn, Kept-issue_assign,
}
use agentbeacon.Tables.{Session, CommandType, Execution, Desired, ExState}
use agentbeacon.Transition.Ratchet.Steps.{Kept}
use agentbeacon.Procedures.Follows.{
  Follows-bind, following, Follows-done, Follows-attempted, Follows-new_id, Follows-if,
}
use agentbeacon.Reconciler.Reconcile.{
  after_failed, agent_gone, await_command, cancel_if, command_expired, expire_command, fail_session,
  finalize_now, is_agent_deleted, issue_needed, kill, pending, recoverable, retry, say,
  terminate_children, terminate_loop, with_id, advance, assign_if_needed, feed_if_pending,
  reconcile, recover, repair_unfinished,
}
use agentbeacon.Reconciler.Cascade.{cascade_action}
use agentbeacon.Base.{String, Bool, List, Option, ℕ, false, some, ◌∷◌, [], none, is_some, true, All}
use agentbeacon.Reconciler.Commands.{Composer, Issue, issue_stop_turn, issue_assign, issue_cancel}
use agentbeacon.Tx.{Rejected, Result, ok, err}
use agentbeacon.Procedures.{World, Machine}

terminate_loop-Kept : (x : String) (cs : List Session) → KeptJob (terminate_loop x cs)
unfolding terminate_loop
terminate_loop-Kept x [] = Follows-done guarded tt
terminate_loop-Kept x (c ∷ cs) =
    Follows-bind guarded _ _
      (Follows-if guarded _ _ _ (ignored-Kept _ (run_transition-Kept x c.id cascade_action))
        (Follows-done guarded tt))
      (λ u. terminate_loop-Kept x cs)

terminate_children-Kept : (s : Session) → KeptJob (terminate_children s)
unfolding terminate_children
terminate_children-Kept s =
    search (following, query-Kept, Kept-get_children, terminate_loop-Kept) depth 8

command_expired-Kept : (t : Option CommandType) (at : Option ℕ) → KeptJob (command_expired t at)
unfolding command_expired
command_expired-Kept t none = Follows-done guarded false
command_expired-Kept t (some at) = search following depth 8

kill-Kept : (w : Option String) (b : Bool) → KeptJob (kill w b)
unfolding kill
kill-Kept none b = Follows-done guarded tt
kill-Kept (some w) b = search following

pub say-Kept : (s : Session) (t : String) → KeptJob (say s t)
unfolding say
say-Kept s t = ignored-Kept _ (transaction _ (Kept-insert_locked _ _ _ _))

expire_command-Kept : (s : Session) (b : Bool) → KeptJob (expire_command s b)
unfolding expire_command
expire_command-Kept s b =
    search (following, say-Kept, kill-Kept, ignored-Kept, run_transition-Kept) depth 12

identified : (f : String → Issue) → ((token : String) → Kept (f token)) → KeptJob (with_id f)
identified f k =
    Follows-bind guarded _ _ (Follows-new_id guarded) (λ token. issue-Kept (f token) (k token))

issue_needed-Kept : (s : Session) (t : Option CommandType) → KeptJob (issue_needed s t)
unfolding issue_needed
issue_needed-Kept s (some CommandType.stop_turn) =
    identified (issue_stop_turn s) (Kept-issue_stop_turn s)
issue_needed-Kept s (some CommandType.cancel) = identified (issue_cancel s) (Kept-issue_cancel s)
issue_needed-Kept s (some CommandType.assign) = Follows-done guarded _
issue_needed-Kept s (some CommandType.feed_turn) = Follows-done guarded _
issue_needed-Kept s none = Follows-done guarded _

pending-Kept : (s : Session) (b : Bool) → KeptJob (pending s b)
unfolding pending
pending-Kept s b = search (following, issue_needed-Kept)

await_command-Kept : (s : Session) (a b : Bool) → KeptJob (await_command s a b)
unfolding await_command
await_command-Kept s a b =
    search
      (
        following, issue-Kept, Kept-clear_crashed_command, command_expired-Kept,
        expire_command-Kept, pending-Kept,
      )
      depth 12

is_agent_deleted-Kept : (id : String) → KeptJob (is_agent_deleted id)
unfolding is_agent_deleted
is_agent_deleted-Kept id = search (following, transaction, Kept-get_agent) depth 8

get_execution-Kept : (id : String) → Kept (get_execution id)
get_execution-Kept id = Keeps-get_execution history id

recoverable-Kept : (s : Session) (n : ℕ) → KeptJob (recoverable s n)
unfolding recoverable
recoverable-Kept s n = search (following, query-Kept, get_execution-Kept, Kept-get_agent) depth 12

retry-Kept : (s : Session) → KeptJob (retry s)
unfolding retry
retry-Kept s = search (following, run_transition-Kept) depth 8

after_failed-Kept :
    (fuel : ℕ) (s : Session) (r : Result Rejected (Unit {0})) → KeptJob (after_failed fuel s r)
unfolding after_failed
after_failed-Kept fuel s (ok a) = Follows-bind guarded _ _ (say-Kept s _) λ u.
    Follows-bind guarded _ _ (query-Kept _ (get_session-Kept s.id)) λ fresh.
      Follows-bind guarded _ _ (cascade_children-Kept fuel fresh) (λ v. Follows-done guarded _)
after_failed-Kept fuel s (err x) = search following

fail_session-Kept : (fuel : ℕ) (s : Session) → KeptJob (fail_session fuel s)
unfolding fail_session
fail_session-Kept fuel s =
    Follows-bind guarded _ _
      (Follows-attempted guarded _
        (run_terminate_failed-Kept _ _ "system:crash_unrecoverable" true))
      (after_failed-Kept fuel s)

agent_gone-Kept : (fuel : ℕ) (s : Session) → KeptJob (agent_gone fuel s)
unfolding agent_gone
agent_gone-Kept fuel s = search (following, terminate_and_cascade-Kept)

finalize_now-Kept : (s : Session) → KeptJob (finalize_now s)
unfolding finalize_now
finalize_now-Kept s = search (following, query-Kept, Kept-finalize)

cancel_if-Kept : (b : Bool) (s : Session) → KeptJob (cancel_if b s)
unfolding cancel_if
cancel_if-Kept b s = search (following, identified, Kept-issue_cancel)

module _ (c : Composer) (r : ReadsOnly c) (fuel : ℕ) (s : Session) (n : ℕ) (x : Execution)
    (b : Bool) (w : Option String) where
  feed_if_pending-Kept : KeptJob (feed_if_pending c fuel s n x b w)
  unfolding feed_if_pending
  feed_if_pending-Kept = search (following, identified, Kept-issue_feed_turn)

  assign_if_needed-Kept : KeptJob (assign_if_needed c fuel s n x b w)
  unfolding assign_if_needed
  assign_if_needed-Kept = Follows-bind guarded _ _ (is_agent_deleted-Kept s.agent_id) λ deleted.
      Follows-if guarded _ _ _ (agent_gone-Kept fuel s) (
        Follows-if guarded _ _ _
          (identified (issue_assign c s (is_some s.agent_session_id) w)
            (Kept-issue_assign c r s (is_some s.agent_session_id) w))
          (Follows-done guarded _))

  recover-Kept : KeptJob (recover c fuel s n x b w)
  unfolding recover
  recover-Kept =
      search
        (
          following, is_agent_deleted-Kept, agent_gone-Kept, recoverable-Kept, retry-Kept,
          fail_session-Kept,
        )
        depth 12

  advance-Kept : (d : Desired) (e : ExState) → KeptJob (advance c fuel s n x b w d e)
  unfolding advance
  advance-Kept Desired.run ExState.unassigned = assign_if_needed-Kept
  advance-Kept Desired.run ExState.running = feed_if_pending-Kept
  advance-Kept Desired.run ExState.idle = feed_if_pending-Kept
  advance-Kept Desired.run ExState.crashed = recover-Kept
  advance-Kept Desired.stop ExState.running = search (following, identified, Kept-issue_stop_turn)
  advance-Kept Desired.stop ExState.idle = Follows-done guarded _
  advance-Kept Desired.stop ExState.unassigned = Follows-done guarded _
  advance-Kept Desired.stop ExState.crashed = Follows-done guarded _
  advance-Kept Desired.terminate ExState.running = cancel_if-Kept b s
  advance-Kept Desired.terminate ExState.idle =
      search (following, cancel_if-Kept, finalize_now-Kept)
  advance-Kept Desired.terminate ExState.unassigned = finalize_now-Kept s
  advance-Kept Desired.terminate ExState.crashed = finalize_now-Kept s

  repair_unfinished-Kept : KeptJob (repair_unfinished c fuel s n x b w)
  unfolding repair_unfinished
  repair_unfinished-Kept =
      Follows-if guarded _ _ _ (issue-Guarded _ (Guarded-repair_root s x))
        (query-Guarded _ (Guarded-repair_child s))

  pub reconcile-Kept : (v : Bool) → KeptJob (reconcile c fuel s n x b w v)
  unfolding reconcile
  reconcile-Kept v = Follows-if guarded _ _ _ repair_unfinished-Kept (
      Follows-if guarded _ _ _ (query-Guarded _ (Guarded-repair_desired s)) (
        Follows-if guarded _ _ _ (issue-Kept _ (Kept-repair_execution s)) (
          Follows-bind guarded _ _ (terminate_children-Kept s) λ u.
            Follows-if guarded _ _ _ (await_command-Kept s b v)
              (advance-Kept s.desired s.executor_state))))

-- Whatever `reconcile` does, on whichever rows it was called, and however it ends: if every session
-- of the database is coherent, the parts of an assignment that other modules put together only read,
-- and the transactions of others that run in between keep the history of a coherent database, then
-- it keeps that history too. A session that is terminated and an execution that has ended stay as
-- they ended, coherent sessions stay coherent, and the log only grows.
pub reconcile_keeps_history :
    (c : Composer) (fuel : ℕ) (s : Session) (n : ℕ) (x : Execution) (b : Bool) (i : Option String)
    (v : Bool) (w : World) (m : Machine)
    → ReadsOnly c
    → ((k : ℕ) (d : Db) → Guarded d (w.others k d))
    → All IsCoherent m.db.sessions
    → History m.db (reconcile c fuel s n x b i v w m).1.db
reconcile_keeps_history c fuel s n x b i v w m r o h =
    (reconcile-Kept c r fuel s n x b i v).at w m o h
