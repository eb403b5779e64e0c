-- ===== src/Reconciler/Descendants.antt =====
-- A session that is terminated, as a look-up by its id finds it, and the step of the cascade that
-- terminates a child.
pub mod Sets
pub mod Children
pub mod Ends
use agentbeacon.Statements.Inverse.{get_session-Ok}
use agentbeacon.Transition.Desire.{set_desired}
use agentbeacon.Tx.Inverse.{bind-Ok, pure-Ok}
use agentbeacon.Transition.Ratchet.Actions.{apply-Kept}
use agentbeacon.Transition.Apply.Ends.{look_up-Ok, find_session-id, set_desired-Ended}
use agentbeacon.Procedures.{transact, done, attempted}
use agentbeacon.Transition.Runs.{find_session-Kept}
use agentbeacon.Reconciler.Tree.{Distinct, Distinct-after}
use agentbeacon.Reconciler.History.{guarded, IsCoherent-after}
use agentbeacon.Transition.Ratchet.{IsCoherent, History, History-trans}
use agentbeacon.Statements.{find_session, get_session}
use agentbeacon.Reconciler.Cascade.{
  run_transition, cascade_action, Fault, accept_cascade, cascade_to, is_settled, diverged, is_live,
  scheduler, is_ratchet, is_terminating,
}
use agentbeacon.Transition.Apply.{apply, look_up}
use agentbeacon.Tx.{Result, Rejected, ok, err, SchedulerError}
use agentbeacon.Procedures.Triples.{
  Stable, Triple, Triple-bind, Triple-transact, Triple-done, Triple-if, Triple-raise,
  Triple-attempted, Triple-weaken,
}
use agentbeacon.Tables.{Db, Session, terminate, Desired, is_terminate}
use agentbeacon.Base.{String, All, Option, ◌≡◌, some, ℤ, subst, none, Bool, false, true, arith}

pub record IsEnded (id : String) (d : Db) : Type 0 where
  pub row : Session
  pub found : find_session id d.sessions ≡ some row
  pub desired : row.desired ≡ terminate

-- A database that has come, by the history, from a coherent one whose ids are distinct.
pub record Since (d0 d : Db) : Type 0 where
  pub coherent : All IsCoherent d.sessions
  pub distinct : Distinct d.sessions
  pub history : History d0 d

pub Since-stable : (d0 : Db) → Stable guarded (Since d0)
Since-stable d0 d d' g h =
    let k = g h.coherent in
    record {
      coherent = IsCoherent-after d d' k h.coherent;
      distinct = Distinct-after d.sessions d'.sessions k.sessions h.distinct;
      history = History-trans d0 d d' h.history k;
    }

-- Since `d0`, and something that the history keeps.
abbrev pub And : Db → (Db → Type 0) → Db → Type 0
And d0 F d = Since d0 d × F d

module _ (d0 : Db) where
  pub IsEnded-stable : (id : String) → Stable guarded (And d0 (IsEnded id))
  IsEnded-stable id d d' g h =
      let kept = find_session-Kept id d d' h.1.row (g h.0.coherent) h.1.found in
      (
        Since-stable d0 d d' g h.0,
        record { row = kept.0; found = kept.1; desired = (kept.2.frozen h.1.desired).desired },
      )

  -- One transition that terminates a child.
  abbrev AfterTransition : String → Result Rejected (Option ℤ) → Db → Type 0
  AfterTransition id (ok a) d = And d0 (IsEnded id) d
  AfterTransition id (err x) d = Since d0 d

  abbrev LookedUp : String → Result Rejected Session → Db → Type 0
  LookedUp id (ok s) d = Since d0 d × (s.id ≡ id)
  LookedUp id (err x) d = Since d0 d

  looking_up : (x id : String) → Triple guarded (Since d0) (transact (look_up x id)) (LookedUp id)
  looking_up x id =
      Triple-transact guarded (Since d0) (look_up x id) (LookedUp id) (Since-stable d0)
        (λ e d d' s h p.
          let r = look_up-Ok x id s e d d' p in
          (subst (Since d0) r.1 h, find_session-id id d.sessions s r.0))
        (λ e d y h. h)

  terminating :
      (x id : String) (s : Session)
      → Triple guarded
          (LookedUp id (ok s))
          (transact (apply x s cascade_action))
          (AfterTransition id)
  unfolding apply
  terminating x id s =
      Triple-transact guarded (LookedUp id (ok s)) _ (AfterTransition id)
        (λ d d' g h. (Since-stable d0 d d' g h.0, h.1))
        (λ e d d' a h p.
          let kept =
            Since-stable d0 d d' (λ c. (apply-Kept x s cascade_action).at e d d' a p) h.0 in
          let b = bind-Ok (set_desired s terminate "system:cascade") _ a e d d' p in
          let over = pure-Ok none a e b.1 d' b.3 in
          let end = set_desired-Ended s "system:cascade" e d b.1 b.2 in
          (
            kept,
            subst (λ (y : Db). IsEnded id y) over.1
                (subst (λ (i : String). IsEnded i b.1) h.1
                  (record { row = end.after; found = end.found_after; desired = end.desired })),
          ))
        (λ e d y h. h.0)

  transitioning :
      (x id : String)
      → Triple guarded (Since d0) (run_transition x id cascade_action) (AfterTransition id)
  unfolding run_transition
  transitioning x id =
      Triple-bind guarded (Since d0) (transact (look_up x id)) _ (LookedUp id) (AfterTransition id)
        (looking_up x id) (terminating x id) (λ y d h. h)

  -- A result that the recursion has come to an end with.
  abbrev pub Fine : {A : Type 0} → (Db → Type 0) → Result Fault A → Db → Type 0
  Fine F (ok a) d = And d0 F d
  Fine F (err x) d = ¬ (x ≡ diverged)

  pub no_divergence : (x : SchedulerError) → ¬ (scheduler x ≡ diverged)
  no_divergence x h = absurd (cc)

  abbrev Reread : String → Result Fault (Result SchedulerError Session) → Db → Type 0
  Reread id (ok (ok s)) d = Since d0 d × (find_session id d.sessions ≡ some s)
  Reread id (ok (err x)) d = Since d0 d
  Reread id (err x) d = ¬ (x ≡ diverged)

  abbrev Found : String → Result SchedulerError Session → Db → Type 0
  Found id (ok s) d = Since d0 d × (find_session id d.sessions ≡ some s)
  Found id (err x) d = Since d0 d

  get_session-Found :
      (id : String) → Triple guarded (Since d0) (transact (get_session id)) (Found id)
  get_session-Found id =
      Triple-transact guarded (Since d0) (get_session id) (Found id) (Since-stable d0)
        (λ e d d' s h p.
          let r = get_session-Ok e d d' id s p in
          (subst (Since d0) r.1 h, subst (λ (y : Db). find_session id y.sessions ≡ some s) r.1 r.0))
        (λ e d x h. h)

  passed_on :
      (id : String) (r : Result SchedulerError Session) (d : Db) → Found id r d → Reread id (ok r) d
  passed_on id (ok s) d h = h
  passed_on id (err x) d h = h

  abbrev SettledIf : String → Result Fault Bool → Db → Type 0
  SettledIf id (ok b) d = Since d0 d × (b ≡ true → IsEnded id d)
  SettledIf id (err x) d = ¬ (x ≡ diverged)

  settling_by :
      (id : String) (r : Result SchedulerError Session)
      → Triple guarded (Reread id (ok r)) (done (is_terminating r)) (SettledIf id)
  settling_by id (ok s) =
      Triple-done guarded (Reread id (ok (ok s))) _ (SettledIf id)
        (λ d h. (h.0, λ t. record { row = s; found = h.1; desired = by_test s.desired t }))
    where
      by_test : (x : Desired) → is_terminate x ≡ true → x ≡ terminate
      by_test x t = ground arith
  settling_by id (err x) =
      Triple-done guarded (Reread id (ok (err x))) _ (SettledIf id) (λ d h. (h, λ t. absurd (cc)))

  settling :
      (x : Rejected) (id : String) → Triple guarded (Since d0) (is_settled x id) (SettledIf id)
  unfolding is_settled
  settling x id =
      Triple-if guarded (Since d0) (is_ratchet x) _ _ (SettledIf id)
        (λ e.
          Triple-bind guarded (Since d0) (attempted (transact (get_session id))) _ (Reread id)
            (SettledIf id)
            (Triple-attempted guarded (Since d0) (transact (get_session id)) (Found id) (Reread id)
              (passed_on id) (get_session-Found id))
            (settling_by id) (λ y d h. h))
        (λ e. Triple-done guarded (Since d0) false (SettledIf id) (λ d h. (h, λ t. absurd (cc))))

  accepting :
      (id : String) (r : Result Rejected (Option ℤ))
      → Triple guarded (AfterTransition id r) (accept_cascade id r) (Fine (IsEnded id))
  unfolding accept_cascade
  accepting id (ok a) =
      Triple-done guarded (AfterTransition id (ok a)) tt (Fine (IsEnded id)) (λ d h. h)
  accepting id (err x) =
      Triple-bind guarded (Since d0) (is_settled x id) _ (SettledIf id) (Fine (IsEnded id))
        (settling x id)
        (λ settled.
          Triple-if guarded (SettledIf id (ok settled)) settled _ _ (Fine (IsEnded id))
            (λ e.
              Triple-done guarded (SettledIf id (ok settled)) tt (Fine (IsEnded id))
                (λ d h. (h.0, h.1 e)))
            (λ e.
              Triple-raise guarded (SettledIf id (ok settled)) _ (Fine (IsEnded id))
                (λ d h. no_divergence _)))
        (λ y d h. h)

  abbrev Handed : String → Result Fault (Result Rejected (Option ℤ)) → Db → Type 0
  Handed id (ok r) d = AfterTransition id r d
  Handed id (err x) d = ¬ (x ≡ diverged)

  -- One child is terminated, by the cascade or before it.
  pub cascading_to :
      (x : String) (c : Session)
      → Triple guarded
          (And d0 (λ d. is_live c ≡ false → IsEnded c.id d))
          (cascade_to x c)
          (Fine (IsEnded c.id))
  unfolding cascade_to
  cascading_to x c =
      Triple-if guarded _ (is_live c) _ _ (Fine (IsEnded c.id))
        (λ e.
          Triple-bind guarded _ (attempted (run_transition x c.id cascade_action)) _ (Handed c.id)
            (Fine (IsEnded c.id))
            (Triple-attempted guarded _ (run_transition x c.id cascade_action)
              (AfterTransition c.id) (Handed c.id) (λ r d h. h)
              (Triple-weaken guarded (Since d0) _ (run_transition x c.id cascade_action)
                (AfterTransition c.id) (AfterTransition c.id) (λ d h. h.0) (λ r d h. h)
                (transitioning x c.id)))
            (accepting c.id) (λ y d h. h))
        (λ e. Triple-done guarded _ tt (Fine (IsEnded c.id)) (λ d h. (h.0, h.1 e)))
