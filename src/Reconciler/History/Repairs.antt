-- ===== src/Reconciler/History/Repairs.antt =====
-- The repairs of contradictory rows, on a database that has none.
use agentbeacon.Procedures.{Stopped}
use agentbeacon.Transition.Executor.{cleared_command}
use agentbeacon.Reconciler.History.Steps.{working}
use agentbeacon.Transition.Ratchet.Steps.{Kept, stepping, write_execution_terminal_in_tx-Kept}
use agentbeacon.Reconciler.History.{guarded, SessionKept, History, History-refl, history}
use agentbeacon.Statements.Inverse.{get_session-Ok, begin_execution_tx-Ok, attempt-Ok}
use agentbeacon.Reconciler.Commands.{lift, ReconcilerAction, repaired, give_up}
use agentbeacon.Tx.Keeps.{Keeps, Keeps-pure, unchanged, Keeps-throw}
use agentbeacon.Tx.{Tx, ◌>>=◌, SchedulerError, ◌>>◌, pure}
use agentbeacon.Tx.Inverse.{Ok, map_err-Ok, bind-Ok, if-Ok, pure-Ok, throw-Ok}
use agentbeacon.Transition.Ratchet.{IsCoherent}
use agentbeacon.Tables.{Session, Env, Db, Execution}
use agentbeacon.Reconciler.Repair.{
  is_undecided, is_unfinished, repair_child_row, repair_desired_row, clear_crashed_command,
  derive_and_write, repair_execution, repair_child, repair_desired, repair_root,
}
use agentbeacon.Statements.{find_session, get_session, session_has_id, begin_execution_tx, attempt}
use mathlib.Core.Option.{some-injective}
use agentbeacon.Transition.Desire.Reads
use agentbeacon.Base.{
  String, find, Bool, List, ◌≡◌, All, false, arith, some, ◌∷◌, Bool-cases, inl, if◌then◌else◌,
  subst, not, sym, ◌∙◌, inr, if_true, ℕ, if_false, [],
}

find-All :
    {A : Type 0} (P : A → Type 0) (p : A → Bool) (xs : List A) (x : A)
    → All P xs
    → find p xs ≡ some x
    → P x
unfolding find
find-All P p [] x h f = absurd (cc)
find-All P p (y ∷ ys) x h f = elim (Bool-cases (p y)) [
  | inl hit ↦ subst P (some-injective y x (sym (if_true (p y) _ _ hit) ∙ f)) h.0
  | inr miss ↦ find-All P p ys x h.1 (sym (if_false (p y) _ _ miss) ∙ f)
]

get_session-IsCoherent :
    (id : String) (e : Env) (d d' : Db) (s : Session)
    → All IsCoherent d.sessions
    → Ok (get_session id) e d s d'
    → IsCoherent s × (d ≡ d')
unfolding find_session
get_session-IsCoherent id e d d' s c h =
    let found = get_session-Ok e d d' id s h in
    (find-All IsCoherent (session_has_id id) d.sessions s c found.0, found.1)

coherent-not_unfinished : (s : Session) → IsCoherent s → is_unfinished s ≡ false
unfolding is_unfinished
coherent-not_unfinished s c = ground (arith, c.outcome_when_terminated)

coherent-not_undecided : (s : Session) → IsCoherent s → is_undecided s ≡ false
unfolding is_undecided
coherent-not_undecided s c = ground (arith, c.outcome_when_terminated)

-- A test that no coherent row meets leaves the way that only reads.
module _ {E A : Type 0} (bad : Session → Bool)
    (never : (s : Session) → IsCoherent s → bad s ≡ false) (read : Tx E Session) (x : Tx E A)
    (y : Session → Tx E A) where
  pub unreached :
      ((e : Env) (d d' : Db) (s : Session)
        → All IsCoherent d.sessions
        → Ok read e d s d'
        → IsCoherent s × (d ≡ d'))
      → Keeps unchanged x
      → (e : Env) (d d' : Db) (a : A) → All IsCoherent d.sessions
      → Ok (read >>= λ s. if not (bad s) then x else y s) e d a d'
      → (Ok x e d a d') × (d ≡ d')
  unreached coherent k e d d' a c h =
      let b = bind-Ok read _ a e d d' h in
      let f = coherent e d b.1 b.0 c b.2 in
      elim (if-Ok (not (bad b.0)) x (y b.0) a e b.1 d' b.3) [
        | inl way ↦ (subst (λ (z : Db). Ok x e z a d') (sym f.1) way.1, f.1 ∙ k.at e b.1 d' a way.1)
        | inr other ↦ absurd (cc (never b.0 f.0))
      ]

lift-get_session-IsCoherent :
    (id : String) (e : Env) (d d' : Db) (s : Session)
    → All IsCoherent d.sessions
    → Ok (lift (get_session id)) e d s d'
    → IsCoherent s × (d ≡ d')
lift-get_session-IsCoherent id e d d' s c h =
    get_session-IsCoherent id e d d' s c (map_err-Ok Stopped.failed (get_session id) s e d d' h)

-- The transactions on a coherent database: none writes, and the first cannot even commit.
module _ (e : Env) (d d' : Db) (c : All IsCoherent d.sessions) (s : Session) where
  repair_child_row-idle : (u : Unit {0}) → Ok (repair_child_row s) e d u d' → d ≡ d'
  unfolding repair_child_row
  repair_child_row-idle u h =
      (unreached is_unfinished coherent-not_unfinished _ _ _ (get_session-IsCoherent s.id)
        (Keeps-pure unchanged tt) e d d' u c h).1

  repair_desired_row-idle : (u : Unit {0}) → Ok (repair_desired_row s) e d u d' → d ≡ d'
  unfolding repair_desired_row
  repair_desired_row-idle u h =
      (unreached is_undecided coherent-not_undecided _ _ _ (get_session-IsCoherent s.id)
        (Keeps-pure unchanged tt) e d d' u c h).1

module _ (e : Env) (d d' : Db) (c : All IsCoherent d.sessions) (s : Session)
    (r : ReconcilerAction) where
  -- The frame of a repair: the lock, the row's repair and the commit.
  idle_frame :
      (m : Tx SchedulerError (Unit {0}))
      → ((x x' : Db) (u : Unit {0}) → All IsCoherent x.sessions → Ok m e x u x' → x ≡ x')
      → Ok
          (do begin_execution_tx s.execution_id; m; attempt "commit repair tx"; pure repaired)
          e
          d
          r
          d'
      → d ≡ d'
  idle_frame m idle h =
      let b1 = bind-Ok (begin_execution_tx s.execution_id) _ r e d d' h in
      let e1 = begin_execution_tx-Ok e d b1.1 s.execution_id b1.0 b1.2 in
      let b2 = bind-Ok m _ r e b1.1 d' b1.3 in
      let e2 = idle b1.1 b2.1 b2.0 (subst (λ (x : Db). All IsCoherent x.sessions) e1 c) b2.2 in
      let b3 = bind-Ok (attempt "commit repair tx") _ r e b2.1 d' b2.3 in
      e1
      ∙ e2
      ∙ attempt-Ok e b2.1 b3.1 "commit repair tx" b3.0 b3.2
      ∙ (pure-Ok repaired r e b3.1 d' b3.3).1

  pub repair_child-idle : Ok (repair_child s) e d r d' → d ≡ d'
  unfolding repair_child
  repair_child-idle h =
      idle_frame (repair_child_row s) (λ x x' u c'. repair_child_row-idle e x x' c' s u) h

  pub repair_desired-idle : Ok (repair_desired s) e d r d' → d ≡ d'
  unfolding repair_desired
  repair_desired-idle h =
      idle_frame (repair_desired_row s) (λ x x' u c'. repair_desired_row-idle e x x' c' s u) h

  pub repair_root-idle : (x : Execution) → ¬ Ok (repair_root s x) e d r d'
  unfolding repair_root
  repair_root-idle x h =
      let b1 = bind-Ok (lift (begin_execution_tx s.execution_id)) _ r e d d' h in
      let e1 =
        begin_execution_tx-Ok e d b1.1 s.execution_id b1.0
          (map_err-Ok Stopped.failed _ b1.0 e d b1.1 b1.2) in
      let way =
        unreached is_unfinished coherent-not_unfinished _ give_up _
          (lift-get_session-IsCoherent s.id) (Keeps-throw unchanged _) e b1.1 d' r
          (subst (λ (y : Db). All IsCoherent y.sessions) e1 c) b1.3 in
      throw-Ok _ r e b1.1 d' way.0

pub Guarded-repair_child : (s : Session) → Keeps guarded (repair_child s)
Guarded-repair_child s = record {
  at = λ e d d' r h c. subst (History d) (repair_child-idle e d d' c s r h) (History-refl d);
}

pub Guarded-repair_desired : (s : Session) → Keeps guarded (repair_desired s)
Guarded-repair_desired s = record {
  at = λ e d d' r h c. subst (History d) (repair_desired-idle e d d' c s r h) (History-refl d);
}

pub Guarded-repair_root : (s : Session) (x : Execution) → Keeps guarded (repair_root s x)
Guarded-repair_root s x = record { at = λ e d d' r h c. absurd (repair_root-idle e d d' c s r x h) }

derive_and_write-Kept : (x : String) → Kept (derive_and_write x)
unfolding derive_and_write
derive_and_write-Kept x =
    search
      (stepping, Reads.derive_execution_outcome-Reads history, write_execution_terminal_in_tx-Kept)
      depth 8

pub Kept-repair_execution : (s : Session) → Kept (repair_execution s)
unfolding repair_execution
Kept-repair_execution s = search (working, derive_and_write-Kept) depth 16

cleared : (now : ℕ) (s : Session) → SessionKept s (record (cleared_command s) { updated_at = now })
cleared now s = ground arith

pub Kept-clear_crashed_command : (s : Session) → Kept (clear_crashed_command s)
unfolding clear_crashed_command
Kept-clear_crashed_command s = search (working, cleared) depth 16
