-- ===== src/Reconciler/Sends/Procedures.antt =====
-- What `reconcile` sends stands in the database that it leaves.
use agentbeacon.Reconciler.Sends.Issues.{
  issue_cancel-Leaves, issue_feed_turn-Leaves, issue_stop_turn-Leaves, issue_assign-Leaves,
}
use agentbeacon.Reconciler.Sends.{
  SentTo, SentTo-mutated, SentTo-no_action, SentTo-pending, SentTo-repaired, session_of, Somewhere,
  Carries,
}
use agentbeacon.Procedures.Yields.{
  Leaves, Yields-raise, yielding, Yields, Yields-done, Yields-if, leaving, Yields-bind,
  Yields-map_raise, Yields-transact, Yields-transact_or_roll_back,
}
use agentbeacon.Reconciler.History.Steps.{ReadsOnly}
use agentbeacon.Reconciler.Reconcile.{
  after_failed, agent_gone, await_command, cancel_if, expire_command, fail_session, finalize_now,
  issue_needed, pending, retry, issue, advance, assign_if_needed, feed_if_pending, reconcile,
  recover, repair_unfinished, with_id,
}
use agentbeacon.Reconciler.Repair.{
  clear_crashed_command, repair_child, repair_desired, repair_execution, repair_root,
}
use agentbeacon.Tx.{Tx, Result, SchedulerError, Rejected, ok, err}
use agentbeacon.Procedures.{done, World, Machine}
use agentbeacon.Reconciler.Cascade.{Job, fails, query, scheduler}
use agentbeacon.Reconciler.Commands.{
  Composer, Issue, ReconcilerAction, mutated, no_action, pending_command, issue_cancel,
  issue_feed_turn, CommandAction, issue_assign, issue_stop_turn, send_command,
}
use agentbeacon.Tables.{Session, Execution, CommandType, Desired, ExState}
use agentbeacon.Base.{String, ℕ, Bool, Option, some, is_some, none, ◌≡◌, refl}

module _ (id : String) where
  abbrev Says : Job ReconcilerAction → Type 0
  Says p = Yields (SentTo id) p

  silent : Says (done no_action)
  silent = Yields-done (SentTo id) no_action (SentTo-no_action id)

  waiting : Says (done pending_command)
  waiting = Yields-done (SentTo id) pending_command (SentTo-pending id)

  acted : Says (done mutated)
  acted = Yields-done (SentTo id) mutated (SentTo-mutated id)

  pub issued : (m : Issue) → Leaves (SentTo id) m → Says (issue m)
  issued m q =
      Yields-map_raise (SentTo id) scheduler _
        (Yields-transact_or_roll_back (SentTo id) no_action m (SentTo-no_action id) q)

  pub queried : (m : Tx SchedulerError ReconcilerAction) → Leaves (SentTo id) m → Says (query m)
  queried m q = Yields-map_raise (SentTo id) scheduler _ (Yields-transact (SentTo id) m q)

  identified :
      (f : String → Issue) → ((token : String) → Leaves (SentTo id) (f token)) → Says (with_id f)
  identified f q = Yields-bind (SentTo id) _ _ (λ token. issued (f token) (q token))

  failing : (t : String) → Says (fails t)
  failing t = Yields-raise (SentTo id) _

  -- The repairs send nothing.
  repair_root-Says : (s : Session) (x : Execution) → Says (issue (repair_root s x))
  unfolding repair_root
  repair_root-Says s x = issued _ (search (leaving, SentTo-repaired) depth 16)

  repair_child-Says : (s : Session) → Says (query (repair_child s))
  unfolding repair_child
  repair_child-Says s = queried _ (search (leaving, SentTo-repaired) depth 8)

  repair_desired-Says : (s : Session) → Says (query (repair_desired s))
  unfolding repair_desired
  repair_desired-Says s = queried _ (search (leaving, SentTo-repaired) depth 8)

  repair_execution-Says : (s : Session) → Says (issue (repair_execution s))
  unfolding repair_execution
  repair_execution-Says s = issued _ (search (leaving, SentTo-repaired) depth 12)

  clear_crashed_command-Says : (s : Session) → Says (issue (clear_crashed_command s))
  unfolding clear_crashed_command
  clear_crashed_command-Says s = issued _ (search (leaving, SentTo-repaired) depth 12)

  expire_command-Says : (s : Session) (b : Bool) → Says (expire_command s b)
  unfolding expire_command
  expire_command-Says s b = search (yielding, acted) depth 8

  retry-Says : (s : Session) → Says (retry s)
  unfolding retry
  retry-Says s = search (yielding, acted)

  after_failed-Says :
      (fuel : ℕ) (s : Session) (r : Result Rejected (Unit {0})) → Says (after_failed fuel s r)
  unfolding after_failed
  after_failed-Says fuel s (ok a) = search (yielding, acted) depth 8
  after_failed-Says fuel s (err x) = search (yielding, silent)

  fail_session-Says : (fuel : ℕ) (s : Session) → Says (fail_session fuel s)
  unfolding fail_session
  fail_session-Says fuel s = search (yielding, after_failed-Says)

  agent_gone-Says : (fuel : ℕ) (s : Session) → Says (agent_gone fuel s)
  unfolding agent_gone
  agent_gone-Says fuel s = search (yielding, acted)

  finalize_now-Says : (s : Session) → Says (finalize_now s)
  unfolding finalize_now
  finalize_now-Says s = search (yielding, acted)

module _ (s : Session) where
  issue_needed-Says : (t : Option CommandType) → Says s.id (issue_needed s t)
  unfolding issue_needed
  issue_needed-Says (some CommandType.stop_turn) =
      identified s.id (issue_stop_turn s) (issue_stop_turn-Leaves s)
  issue_needed-Says (some CommandType.cancel) =
      identified s.id (issue_cancel s) (issue_cancel-Leaves s)
  issue_needed-Says (some CommandType.assign) = waiting s.id
  issue_needed-Says (some CommandType.feed_turn) = waiting s.id
  issue_needed-Says none = waiting s.id

  pending-Says : (b : Bool) → Says s.id (pending s b)
  unfolding pending
  pending-Says b = search (yielding, issue_needed-Says, waiting)

  await_command-Says : (a b : Bool) → Says s.id (await_command s a b)
  unfolding await_command
  await_command-Says a b =
      search (yielding, clear_crashed_command-Says, expire_command-Says, pending-Says) depth 8

  cancel_if-Says : (b : Bool) → Says s.id (cancel_if b s)
  unfolding cancel_if
  cancel_if-Says b =
      Yields-if (SentTo s.id) b _ _ (identified s.id (issue_cancel s) (issue_cancel-Leaves s))
        (silent s.id)

  module _ (c : Composer) (r : ReadsOnly c) (fuel : ℕ) (n : ℕ) (x : Execution) (b : Bool)
      (w : Option String) where
    feed_if_pending-Says : Says s.id (feed_if_pending c fuel s n x b w)
    unfolding feed_if_pending
    feed_if_pending-Says =
        Yields-if (SentTo s.id) _ _ _
          (identified s.id (issue_feed_turn s) (issue_feed_turn-Leaves s)) (silent s.id)

    assign_if_needed-Says : Says s.id (assign_if_needed c fuel s n x b w)
    unfolding assign_if_needed
    assign_if_needed-Says = Yields-bind (SentTo s.id) _ _ λ deleted.
        Yields-if (SentTo s.id) _ _ _ (agent_gone-Says s.id fuel s) (
          Yields-if (SentTo s.id) _ _ _
            (identified s.id (issue_assign c s (is_some s.agent_session_id) w)
              (issue_assign-Leaves c r s (is_some s.agent_session_id) w))
            (silent s.id))

    recover-Says : Says s.id (recover c fuel s n x b w)
    unfolding recover
    recover-Says = search (yielding, agent_gone-Says, retry-Says, fail_session-Says) depth 8

    advance-Says : (d : Desired) (e : ExState) → Says s.id (advance c fuel s n x b w d e)
    unfolding advance
    advance-Says Desired.run ExState.unassigned = assign_if_needed-Says
    advance-Says Desired.run ExState.running = feed_if_pending-Says
    advance-Says Desired.run ExState.idle = feed_if_pending-Says
    advance-Says Desired.run ExState.crashed = recover-Says
    advance-Says Desired.stop ExState.running =
        Yields-if (SentTo s.id) b _ _
          (identified s.id (issue_stop_turn s) (issue_stop_turn-Leaves s)) (silent s.id)
    advance-Says Desired.stop ExState.idle = silent s.id
    advance-Says Desired.stop ExState.unassigned = silent s.id
    advance-Says Desired.stop ExState.crashed = silent s.id
    advance-Says Desired.terminate ExState.running = cancel_if-Says b
    advance-Says Desired.terminate ExState.idle =
        Yields-if (SentTo s.id) _ _ _ (cancel_if-Says b) (finalize_now-Says s.id s)
    advance-Says Desired.terminate ExState.unassigned = finalize_now-Says s.id s
    advance-Says Desired.terminate ExState.crashed = finalize_now-Says s.id s

    repair_unfinished-Says : Says s.id (repair_unfinished c fuel s n x b w)
    unfolding repair_unfinished
    repair_unfinished-Says =
        Yields-if (SentTo s.id) _ _ _ (repair_root-Says s.id s x) (repair_child-Says s.id s)

    pub reconcile-Says : (v : Bool) → Says s.id (reconcile c fuel s n x b w v)
    unfolding reconcile
    reconcile-Says v =
        search
          (
            yielding, repair_unfinished-Says, repair_desired-Says, repair_execution-Says,
            await_command-Says, advance-Says,
          )
          depth 8

-- A command that `reconcile` hands to a worker is for the session that it was called on, and stands
-- in a row of that session in the database that it leaves, with its token and its type: the
-- acknowledgement of the worker, which names the token, will find it. The parts of an assignment that
-- other modules put together are taken to be only read; what other transactions do is free.
pub command_is_recorded :
    (c : Composer) (fuel : ℕ) (s : Session) (n : ℕ) (x : Execution) (b : Bool) (i : Option String)
    (v : Bool) (w : World) (m : Machine) (token : String) (action : CommandAction)
    → ReadsOnly c
    → (reconcile c fuel s n x b i v w m).0 ≡ ok (send_command token action)
    → (session_of action ≡ s.id)
      × Somewhere (Carries token action) (reconcile c fuel s n x b i v w m).1.db.sessions
command_is_recorded c fuel s n x b i v w m token action r h =
    ((reconcile-Says s c r fuel n x b i v).at w m (send_command token action) h).sent token action
      refl
