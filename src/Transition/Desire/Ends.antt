-- ===== src/Transition/Desire/Ends.antt =====
-- What a termination and a stop come to.
use agentbeacon.Statements.Inverse.{
  begin_execution_tx-Ok, get_session-Ok, count_pending_turns-Ok, attempt-Ok,
}
use agentbeacon.Base.{
  some, true, false, refl, String, Bool, Option, ℕ, ltb, ◌&&◌, count_where, not, ◌≡◌, arith,
  if◌then◌else◌, ◌∙◌, subst, ap,
}
use agentbeacon.Tables.{terminate, completed, canceled, Outcome, Session, Db, Env, is_terminate}
use agentbeacon.Transition.Activity.{is_quiescent}
use agentbeacon.Transition.Desire.{set_terminate, end_session}
use agentbeacon.Transition.Desire.Reads
use agentbeacon.Transition.Ratchet.{History, History-trans}
use agentbeacon.Transition.Ratchet.Desire.{notify_parent-Kept, write_outcome-Kept}
use agentbeacon.Tx.Keeps.{unchanged}
use agentbeacon.Transition.Runs.{find_session-Kept}
use agentbeacon.Base.{find-test}
use agentbeacon.Tx.{◌>>=◌}
use agentbeacon.Tx.Inverse.{Ok, bind-Ok, map_err-Ok, guard-Ok}
use agentbeacon.Statements.Rows.{find-update_where}
use agentbeacon.Statements.{
  attempt, update_sessions, insert_event, verify_session_owner, append_event, update_where,
  pending_turns, session_has_id, find_session,
}

abbrev pub ended_row : Outcome → String → ℕ → Session → Session
ended_row o by now s = record s {
  desired = terminate;
  outcome = some o;
  desired_by = some by;
  desired_at = some now;
  updated_at = now;
  completed_at = some now;
}

pub end_session-Ok :
    (s : Session) (label : String) (test : Session → Bool) (o : Outcome) (by : String) (e : Env)
    (d d' : Db) (u : Unit {0})
    → Ok (end_session s label test o by) e d u d'
    → (ltb 0 (count_where test d.sessions) ≡ true)
      × (d'.sessions ≡ update_where test (ended_row o by e.now) d.sessions)
unfolding end_session update_sessions insert_event verify_session_owner append_event attempt ◌>>=◌
end_session-Ok s label test o by e d d' u h = ground arith

abbrev pub not_ended : String → Session → Bool
not_ended id s = session_has_id id s && not (is_terminate s.desired)

-- What a termination leaves of the session under its id.
pub record Ended (id by : String) (now : ℕ) (d d' : Db) : Type 0 where
  pub before : Session
  pub after : Session
  pub found_before : find_session id d.sessions ≡ some before
  pub live_before : is_terminate before.desired ≡ false
  pub found_after : find_session id d'.sessions ≡ some after
  pub desired : after.desired ≡ terminate
  pub desired_by : after.desired_by ≡ some by
  pub completed_at : after.completed_at ≡ some now
  pub outcome :
      after.outcome
      ≡ some (if is_quiescent before (pending_turns id d.task_queue) then completed else canceled)

-- The row that a termination reads, and the database once the session's own row is written.
record Terminated (id by : String) (now : ℕ) (d d' : Db) : Type 0 where
  pub row : Session
  pub written : Db
  pub found : find_session id d.sessions ≡ some row
  pub live : is_terminate row.desired ≡ false
  pub update :
      written.sessions
      ≡ update_where
          (not_ended id)
          (ended_row
            (if is_quiescent row (pending_turns id d.task_queue) then completed else canceled)
            by
            now)
          d.sessions
  pub later : History written d'

set_terminate-Terminated :
    (s : Session) (by : String) (p : Option String) (e : Env) (d d' : Db)
    → Ok (set_terminate s by p) e d tt d'
    → Terminated s.id by e.now d d'
unfolding set_terminate
set_terminate-Terminated s by p e d d' h =
    let b1 = bind-Ok _ _ tt e d d' h in
    let r1 = begin_execution_tx-Ok e d b1.1 _ b1.0 (map_err-Ok _ _ b1.0 e d b1.1 b1.2) in
    let b2 = bind-Ok _ _ tt e b1.1 d' b1.3 in
    let r2 = get_session-Ok e b1.1 b2.1 _ b2.0 (map_err-Ok _ _ b2.0 e b1.1 b2.1 b2.2) in
    let r3 = guard-Ok (is_terminate b2.0.desired) _ _ tt e b2.1 d' b2.3 in
    let b4 = bind-Ok _ _ tt e b2.1 d' r3.1 in
    let r4 = count_pending_turns-Ok e b2.1 b4.1 s.id b4.0 (map_err-Ok _ _ b4.0 e b2.1 b4.1 b4.2) in
    let b5 = bind-Ok _ _ tt e b4.1 d' b4.3 in
    let r5 = (Reads.execution_outcome-Reads unchanged s).at e b4.1 b5.1 b5.0 b5.2 in
    let b6 = bind-Ok _ _ tt e b5.1 d' b5.3 in
    let r6 = end_session-Ok s _ _ _ _ e b5.1 b6.1 b6.0 b6.2 in
    let b7 = bind-Ok _ _ tt e b6.1 d' b6.3 in
    let b8 = bind-Ok _ _ tt e b7.1 d' b7.3 in
    let r9 = attempt-Ok e b8.1 d' _ tt (map_err-Ok _ _ tt e b8.1 d' b8.3) in
    record {
      row = b2.0;
      written = b6.1;
      found = ground arith;
      live = r3.0;
      update = ground arith;
      later =
          History-trans b6.1 b7.1 d' ((notify_parent-Kept s p _).at e b6.1 b7.1 b7.0 b7.2)
            (subst (History b7.1) r9 ((write_outcome-Kept s b5.0).at e b7.1 b8.1 b8.0 b8.2));
    }

-- A termination that is accepted finds a session under its id that is not terminated, and leaves it
-- terminated by this actor at this time: completed, if the row that the transaction read was at rest
-- with the turns pending for it, and canceled otherwise.
pub terminate_ends :
    (s : Session) (by : String) (p : Option String) (e : Env) (d d' : Db)
    → Ok (set_terminate s by p) e d tt d'
    → Ended s.id by e.now d d'
unfolding find_session
terminate_ends s by p e d d' h =
    let t = set_terminate-Terminated s by p e d d' h in
    let hit : not_ended s.id t.row ≡ true =
      rw (find-test (session_has_id s.id) d.sessions t.row t.found, t.live) refl in
    let end =
      ended_row
        (if is_quiescent t.row (pending_turns s.id d.task_queue) then completed else canceled) by
        e.now in
    let written : find_session s.id t.written.sessions ≡ some (end t.row) =
      ap (find_session s.id) t.update
      ∙ find-update_where (session_has_id s.id) (not_ended s.id) end (λ x. refl) d.sessions t.row
          t.found hit in
    let kept = find_session-Kept s.id t.written d' (end t.row) t.later written in
    let frozen = kept.2.frozen refl in
    record {
      before = t.row;
      after = kept.0;
      found_before = t.found;
      live_before = t.live;
      found_after = kept.1;
      desired = frozen.desired;
      desired_by = frozen.desired_by;
      completed_at = frozen.completed_at;
      outcome = frozen.outcome;
    }
