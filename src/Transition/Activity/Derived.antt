-- ===== src/Transition/Activity/Derived.antt =====
-- The outcome of an execution, against one condition on each session.
use agentbeacon.Tables.{Db, Env, Outcome, is_failed, failed, canceled, completed}
use agentbeacon.Base.{
  none, some, refl, true, false, [], ◌∷◌, any, Bool, Option, String, ℕ, List, is_none, ◌&&◌, ◌≡◌,
  All, arith, if◌then◌else◌, is_some, not, ◌||◌,
}
use agentbeacon.Transition.Activity.{
  is_quiescent, state_is_quiescent, is_active, slice_is_quiescent, root_has_failed, some_active,
  some_unsettled, parent_outcome, parent_awaits, some_unreported, sessions_of,
  derive_execution_outcome, Session,
}
use agentbeacon.Statements.{attempt, fetch_one, find_session, count_pending_turns, pending_turns}
use agentbeacon.Tx.{ok, ◌>>=◌}

-- The test for rest that the derivation writes out is the one of `is_quiescent`, for any session
-- and any number of pending turns.
pub quiescence_agrees :
    (s : Session) (pending : ℕ) → slice_is_quiescent s pending ≡ is_quiescent s pending
unfolding slice_is_quiescent is_quiescent state_is_quiescent
quiescence_agrees s pending = ground arith

-- A session is at rest only if it is not active.
pub active-not_quiescent :
    (s : Session) (pending : ℕ) → is_active s pending && is_quiescent s pending ≡ false
unfolding is_active is_quiescent state_is_quiescent
active-not_quiescent s pending = ground arith

abbrev pub parent_is_open : Db → Option String → Bool
parent_is_open d none = false
parent_is_open d (some parent_id) = elim (find_session parent_id d.sessions) [
  | none ↦ false
  | some p ↦ is_none p.outcome
]

-- A failure that an open parent has not been told of.
abbrev pub is_unreported : Db → Session → Bool
is_unreported d s =
    is_failed s.outcome && not s.parent_notified && parent_is_open d s.parent_session_id

abbrev pub is_unsettled : Db → Session → Bool
is_unsettled d s = is_none s.outcome && not (is_quiescent s (pending_turns s.id d.task_queue))

abbrev pub is_busy : Db → Session → Bool
is_busy d s = is_active s (pending_turns s.id d.task_queue)

-- The outcome, from the sessions of the execution in one pass.
abbrev pub derived_outcome : Db → String → Outcome
derived_outcome d execution_id =
    let ss = sessions_of execution_id d.sessions in
    if any root_has_failed ss
    then failed
    else if any (λ s. is_busy d s || is_unsettled d s || is_unreported d s) ss
    then canceled
    else completed

unfoldable pub ParentsAreThere : Db → Session → Type 0
ParentsAreThere d s =
    (p : String) → s.parent_session_id ≡ some p → is_some (find_session p d.sessions) ≡ true

any-or :
    {A : Type 0} (p q r : A → Bool) (xs : List A)
    → any (λ x. p x || q x || r x) xs ≡ any p xs || any q xs || any r xs
unfolding any
any-or p q r [] = refl
any-or p q r (x ∷ xs) = let rest = any-or p q r xs in ground arith

module _ (e : Env) (d : Db) (quiet : (label : String) → e.fails label ≡ false) where
  some_active-run : (ss : List Session) → some_active ss e d ≡ ok (any (is_busy d) ss, d)
  unfolding some_active any ◌>>=◌ count_pending_turns attempt
  some_active-run [] = refl
  some_active-run (s ∷ ss) =
      let rest = some_active-run ss in let calm = quiet "count pending turns" in ground arith

  some_unsettled-run : (ss : List Session) → some_unsettled ss e d ≡ ok (any (is_unsettled d) ss, d)
  unfolding some_unsettled any ◌>>=◌ count_pending_turns attempt
  some_unsettled-run [] = refl
  some_unsettled-run (s ∷ ss) =
      let rest = some_unsettled-run ss in
      let calm = quiet "count pending turns" in
      let agrees = quiescence_agrees s (pending_turns s.id d.task_queue) in ground arith

  parent_awaits-run :
      (p : Option String)
      → ((x : String) → p ≡ some x → is_some (find_session x d.sessions) ≡ true)
      → parent_awaits p e d ≡ ok (parent_is_open d p, d)
  unfolding parent_awaits parent_outcome ◌>>=◌ attempt fetch_one
  parent_awaits-run none h = refl
  parent_awaits-run (some p) h =
      let there = h p refl in let calm = quiet "read parent outcome" in ground arith

  some_unreported-run :
      (ss : List Session)
      → All (ParentsAreThere d) ss
      → some_unreported ss e d ≡ ok (any (is_unreported d) ss, d)
  unfolding some_unreported any ◌>>=◌ ParentsAreThere
  some_unreported-run [] h = refl
  some_unreported-run (s ∷ ss) h =
      let rest = some_unreported-run ss h.1 in
      let parent = parent_awaits-run s.parent_session_id h.0 in ground arith

-- Where no statement fails and the parents of the execution's sessions are there, the derivation
-- changes nothing and gives: failed, if a root of the execution failed; else canceled, if some
-- session is active, or has no outcome and is not at rest, or failed with an open parent that has
-- not been told; else completed.
pub derive_execution_outcome-derived :
    (e : Env) (d : Db) (execution_id : String)
    → ((label : String) → e.fails label ≡ false)
    → All (ParentsAreThere d) (sessions_of execution_id d.sessions)
    → derive_execution_outcome execution_id e d ≡ ok (derived_outcome d execution_id, d)
unfolding derive_execution_outcome ◌>>=◌ attempt
derive_execution_outcome-derived e d x quiet h =
    let ss = sessions_of x d.sessions in
    let calm = quiet "list sessions for derivation" in
    let active = some_active-run e d quiet ss in
    let unsettled = some_unsettled-run e d quiet ss in
    let unreported = some_unreported-run e d quiet ss h in
    let split = any-or (is_busy d) (is_unsettled d) (is_unreported d) ss in ground arith
