-- ===== src/Parking/Chains.antt =====
-- What a session's ancestors are like where `classify_ancestry` calls them clean.
use agentbeacon.Parking.{
  classify_ancestry, SessionAncestryNode, classify_loop, AncestorCheck, find_node, has_visited,
  clean, check_node, corrupt, enter_parent, is_ending, terminating, to_parent,
}
use agentbeacon.Base.{
  List, String, Bool, ℕ, ◌≡◌, Option, if◌then◌else◌, some, true, ◌∷◌, arith, count_where, false,
  none, str_eq_iff, str_eq_refl, suc, [], find-test, not, refl, str_eq, Bool-cases, sym, ◌&&◌, inl,
  subst, ◌∙◌, ap, inr, zero,
}
use mathlib.Core.Option.{some-injective}

-- `id` is a root, or its parent is of the same execution, goes on, and has such ancestors itself.
pub data LiveChain (nodes : List SessionAncestryNode) : String → Type 0 where
  top :
      (id : String) (n : SessionAncestryNode)
      → find_node id nodes ≡ some n
      → n.parent_session_id ≡ none
      → LiveChain nodes id
  below :
      (id pid : String) (n p : SessionAncestryNode)
      → find_node id nodes ≡ some n
      → n.parent_session_id ≡ some pid
      → find_node pid nodes ≡ some p
      → p.execution_id ≡ n.execution_id
      → is_ending p ≡ false
      → LiveChain nodes pid
      → LiveChain nodes id

-- The node itself goes on, and so do its ancestors.
record Goes (nodes : List SessionAncestryNode) (id : String) : Type 0 where
  pub node : SessionAncestryNode
  pub found : find_node id nodes ≡ some node
  pub live : is_ending node ≡ false
  pub chain : LiveChain nodes id

module _ (start_id : String) (nodes : List SessionAncestryNode) where
  find_node-id : (id : String) (n : SessionAncestryNode) → find_node id nodes ≡ some n → n.id ≡ id
  unfolding find_node
  find_node-id id n h = (str_eq_iff n.id id).0 (find-test (λ m. str_eq m.id id) nodes n h)

  clean_guard :
      (b : Bool) (x : AncestorCheck)
      → (if b then corrupt else x) ≡ clean
      → (b ≡ false) × (x ≡ clean)
  clean_guard true x h = absurd (cc)
  clean_guard false x h = (refl, h)

  clean_ending :
      (b : Bool) (x : AncestorCheck)
      → (if b then terminating else x) ≡ clean
      → (b ≡ false) × (x ≡ clean)
  clean_ending true x h = absurd (cc)
  clean_ending false x h = (refl, h)

  clean_same :
      (b : Bool) (x : AncestorCheck) → (if b then x else corrupt) ≡ clean → (b ≡ true) × (x ≡ clean)
  clean_same true x h = (refl, h)
  clean_same false x h = absurd (cc)

  entering :
      (next : String → AncestorCheck) (id pid : String) (n : SessionAncestryNode)
      (o : Option SessionAncestryNode)
      → find_node id nodes ≡ some n
      → n.parent_session_id ≡ some pid
      → find_node pid nodes ≡ o
      → (next pid ≡ clean → Goes nodes pid)
      → enter_parent start_id nodes next n pid o ≡ clean
      → LiveChain nodes id
  entering next id pid n none f e g k h = absurd (cc)
  entering next id pid n (some p) f e g k h =
      let same = clean_same (str_eq p.execution_id n.execution_id) (next pid) h in
      let goes = k same.1 in
      let it : goes.node ≡ p = some-injective goes.node p (sym goes.found ∙ g) in
      LiveChain.below id pid n p f e g ((str_eq_iff p.execution_id n.execution_id).0 same.0)
        (subst (λ (x : SessionAncestryNode). is_ending x ≡ false) it goes.live) goes.chain

  climbing :
      (next : String → AncestorCheck) (id : String) (n : SessionAncestryNode) (o : Option String)
      → find_node id nodes ≡ some n
      → n.parent_session_id ≡ o
      → ((pid : String) → next pid ≡ clean → Goes nodes pid)
      → to_parent start_id nodes next n o ≡ clean
      → LiveChain nodes id
  climbing next id n none f e k h = LiveChain.top id n f e
  climbing next id n (some pid) f e k h =
      entering next id pid n (find_node pid nodes) f e refl (k pid) h

  visited_more :
      (v id : String) (vs : List String) → has_visited id vs ≡ true → has_visited id (v ∷ vs) ≡ true
  unfolding has_visited
  visited_more v id vs h = ground arith

  visited_first : (id : String) (vs : List String) → has_visited id (id ∷ vs) ≡ true
  unfolding has_visited
  visited_first id vs = rw (str_eq_refl id) refl

  -- Where the start was visited, the loop is past it.
  past_start :
      (vs : List String) (id : String) (n : SessionAncestryNode)
      → has_visited start_id vs ≡ true
      → n.id ≡ id
      → has_visited n.id vs ≡ false
      → str_eq id start_id ≡ false
  past_start vs id n v e new = elim (Bool-cases (str_eq id start_id)) [
    | inl hit ↦ absurd (
        true_false
          (sym v ∙ sym (ap (λ i. has_visited i vs) (e ∙ (str_eq_iff id start_id).0 hit)) ∙ new))
    | inr miss ↦ miss
  ]
    where
      true_false : ¬ (true ≡ false)
      true_false h = absurd (cc)

  of_guard : (x y : Bool) → x ≡ false → not x && y ≡ false → y ≡ false
  of_guard true y e g = absurd (cc)
  of_guard false y e g = g

  at_node :
      (k : ℕ) (vs : List String) (id : String) (o : Option SessionAncestryNode)
      → has_visited start_id vs ≡ true
      → ((v pid : String) → classify_loop start_id nodes k (v ∷ vs) pid ≡ clean → Goes nodes pid)
      → find_node id nodes ≡ o
      → check_node start_id nodes (classify_loop start_id nodes k) vs id o ≡ clean
      → Goes nodes id
  at_node k vs id none v up f c = absurd (cc)
  at_node k vs id (some n) v up f c =
      let new = clean_guard (has_visited n.id vs) _ c in
      let past = past_start vs id n v (find_node-id id n f) new.0 in
      let on = clean_ending (not (str_eq id start_id) && is_ending n) _ new.1 in
      record {
        node = n;
        found = f;
        live = of_guard (str_eq id start_id) (is_ending n) past on.0;
        chain =
            climbing (classify_loop start_id nodes k (n.id ∷ vs)) id n n.parent_session_id f refl
              (up n.id) on.1;
      }

  going_up :
      (k : ℕ) (vs : List String) (id : String)
      → has_visited start_id vs ≡ true
      → classify_loop start_id nodes k vs id ≡ clean
      → Goes nodes id
  unfolding classify_loop
  going_up zero vs id v h = absurd (cc)
  going_up (suc k) vs id v h =
      at_node k vs id (find_node id nodes) v
        (λ u pid. going_up k (u ∷ vs) pid (visited_more u start_id vs v)) refl h

  starting :
      (k : ℕ) (o : Option SessionAncestryNode)
      → find_node start_id nodes ≡ o
      → check_node start_id nodes (classify_loop start_id nodes k) [] start_id o ≡ clean
      → LiveChain nodes start_id
  starting k none f c = absurd (cc)
  starting k (some n) f c =
      let new = clean_guard (has_visited n.id []) _ c in
      let on = clean_ending (not (str_eq start_id start_id) && is_ending n) _ new.1 in
      climbing (classify_loop start_id nodes k (n.id ∷ [])) start_id n n.parent_session_id f refl
        (λ pid. going_up k (n.id ∷ []) pid (
          subst (λ i. has_visited start_id (i ∷ []) ≡ true) (sym (find_node-id start_id n f))
            (visited_first start_id [])))
        on.1

-- A session whose ancestors are called clean is a root, or has a parent of the same execution that is
-- not terminated and has no outcome, and so on up to a root.
pub classify_ancestry-LiveChain :
    (start_id : String) (nodes : List SessionAncestryNode)
    → classify_ancestry start_id nodes ≡ clean
    → LiveChain nodes start_id
unfolding classify_ancestry classify_loop
classify_ancestry-LiveChain start_id nodes h =
    starting start_id nodes (count_where (λ n. true) nodes) (find_node start_id nodes) refl h
