-- ===== src/Transition/Apply/Ends.antt =====
-- The termination of a session by its ids, from the look-up to the last write.
use agentbeacon.Base.{
  inl, inr, some, true, false, find-test, String, List, ◌≡◌, arith, str_eq_iff, subst, sym, Bool,
}
use agentbeacon.Tables.{terminate, Session, Env, Db, Desired, is_terminate, same_desired}
use agentbeacon.Transition.Apply.{look_up, terminate_session}
use agentbeacon.Transition.Desire.{set_desired, write_desired, parent_for_notify}
use agentbeacon.Transition.Desire.Reads
use agentbeacon.Transition.Desire.Ends.{Ended, terminate_ends}
use agentbeacon.Statements.{get_session, attempt, fetch_one, find_session, session_has_id}
use agentbeacon.Tx.Keeps.{unchanged}
use agentbeacon.Tx.{◌>>=◌}
use agentbeacon.Tx.Inverse.{Ok, bind-Ok, guard-Ok, if-Ok}

pub look_up-Ok :
    (x id : String) (s : Session) (e : Env) (d d' : Db)
    → Ok (look_up x id) e d s d'
    → (find_session id d.sessions ≡ some s) × (d ≡ d')
unfolding look_up get_session attempt fetch_one ◌>>=◌
look_up-Ok x id s e d d' h = ground arith

pub find_session-id :
    (id : String) (ss : List Session) (s : Session) → find_session id ss ≡ some s → s.id ≡ id
unfolding find_session
find_session-id id ss s h = (str_eq_iff s.id id).0 (find-test (session_has_id id) ss s h)

-- Only a terminated session is already as a termination wants it.
not_the_same : (x : Desired) → is_terminate x ≡ false → same_desired x terminate ≡ false
not_the_same x h = ground arith

not_both : (b : Bool) → b ≡ false → ¬ (b ≡ true)
not_both true h k = absurd (cc)
not_both false h k = absurd (cc)

pub set_desired-Ended :
    (s : Session) (by : String) (e : Env) (d d' : Db)
    → Ok (set_desired s terminate by) e d tt d'
    → Ended s.id by e.now d d'
unfolding set_desired write_desired
set_desired-Ended s by e d d' h =
    let r1 = guard-Ok (is_terminate s.desired) _ _ tt e d d' h in
    elim (if-Ok (same_desired s.desired terminate) _ _ tt e d d' r1.1) [
      | inl same ↦ absurd (not_both _ (not_the_same s.desired r1.0) same.0)
      | inr other ↦
          let b2 = bind-Ok (parent_for_notify s terminate by) _ tt e d d' other.1 in
          let r2 = (Reads.parent_for_notify-Reads unchanged s terminate by).at e d b2.1 b2.0 b2.2 in
          subst (λ x. Ended s.id by e.now x d') (sym r2) (terminate_ends s by b2.0 e b2.1 d' b2.3)
    ]

-- A termination that is accepted, by the ids of the execution and the session, finds the session not
-- terminated, and leaves it terminated by this actor at this time: completed, if it was at rest with
-- the turns pending for it, and canceled otherwise.
pub terminate_session-Ended :
    (x id by : String) (e : Env) (d d' : Db)
    → Ok (terminate_session x id by) e d tt d'
    → Ended id by e.now d d'
unfolding terminate_session
terminate_session-Ended x id by e d d' h =
    let b1 = bind-Ok (look_up x id) _ tt e d d' h in
    let r1 = look_up-Ok x id b1.0 e d b1.1 b1.2 in
    subst (λ i. Ended i by e.now d d') (find_session-id id d.sessions b1.0 r1.0)
      (subst (λ y. Ended b1.0.id by e.now y d') (sym r1.1)
        (set_desired-Ended b1.0 by e b1.1 d' b1.3))
