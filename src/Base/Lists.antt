-- ===== src/Base/Lists.antt =====
-- Lists measured by native numbers, and predicates on them by recursion.
use Prim.Native.Nat.{ℕ, suc, ◌+◌}
use mathlib.Core.Path.{◌≡◌, refl, sym, subst, ◌∙◌}
use mathlib.Core.Bool.{Bool, true, false, ◌||◌}
use mathlib.Core.List.{List, [], ◌∷◌, ◌++◌}
use mathlib.Core.Option.{Option, none, some, some-injective}
use native.Mathlib.Omega.{arith}
use mathlib.Core.Logic.{inl, inr, ◌⊎◌}
use agentbeacon.Base.Tests.{if◌then◌else◌, Bool-cases, if_true, if_false}

module _ {ℓ} {A : Type ℓ} where
  abbrev pub length : List A → ℕ
  length [] = 0
  length (x ∷ xs) = suc (length xs)

  pub length-append : (xs ys : List A) → length (xs ++ ys) ≡ length xs + length ys
  length-append [] ys = omega arith
  length-append (x ∷ xs) ys = omega (arith, length-append xs ys)

  pub List-cases : (xs : List A) → (xs ≡ []) ⊎ ((x : A) × (ys : List A) × (xs ≡ x ∷ ys))
  List-cases [] = inl refl
  List-cases (x ∷ xs) = inr (x, xs, refl)

  -- `Iterator::find`.
  unfoldable pub find : (A → Bool) → List A → Option A
  find p [] = none
  find p (x ∷ xs) = if p x then some x else find p xs

  pub find-test : (p : A → Bool) (xs : List A) (x : A) → find p xs ≡ some x → p x ≡ true
  unfolding find
  find-test p [] x h = absurd (cc)
  find-test p (y ∷ ys) x h = let rest = find-test p ys x in ground arith

  -- `Iterator::any`.
  unfoldable pub any : (A → Bool) → List A → Bool
  any p [] = false
  any p (x ∷ xs) = p x || any p xs

  -- The number of rows that a condition selects.
  unfoldable pub count_where : (A → Bool) → List A → ℕ
  count_where p [] = 0
  count_where p (x ∷ xs) = let rest = count_where p xs in if p x then suc rest else rest

  unfoldable pub filter_where : (A → Bool) → List A → List A
  filter_where p [] = []
  filter_where p (x ∷ xs) = let rest = filter_where p xs in if p x then x ∷ rest else rest

  abbrev pub All {κ} : (A → Type κ) → List A → Type κ
  All P [] = Unit
  All P (x ∷ xs) = P x × All P xs

  -- Two lists of one length, related item by item.
  abbrev pub Pointwise : (A → A → Type 0) → List A → List A → Type 0
  Pointwise R [] [] = Unit
  Pointwise R [] (y ∷ ys) = ⊥
  Pointwise R (x ∷ xs) [] = ⊥
  Pointwise R (x ∷ xs) (y ∷ ys) = R x y × Pointwise R xs ys

  pub Pointwise-refl : (R : A → A → Type 0) → ((x : A) → R x x) → (xs : List A) → Pointwise R xs xs
  Pointwise-refl R r [] = tt
  Pointwise-refl R r (x ∷ xs) = (r x, Pointwise-refl R r xs)

  pub Pointwise-trans :
      (R : A → A → Type 0)
      → ((x y z : A) → R x y → R y z → R x z)
      → (xs ys zs : List A) → Pointwise R xs ys
      → Pointwise R ys zs
      → Pointwise R xs zs
  Pointwise-trans R t [] [] [] h k = tt
  Pointwise-trans R t [] [] (z ∷ zs) h k = absurd k
  Pointwise-trans R t [] (y ∷ ys) zs h k = absurd h
  Pointwise-trans R t (x ∷ xs) [] zs h k = absurd h
  Pointwise-trans R t (x ∷ xs) (y ∷ ys) [] h k = absurd k
  Pointwise-trans R t (x ∷ xs) (y ∷ ys) (z ∷ zs) h k =
      (t x y z h.0 k.0, Pointwise-trans R t xs ys zs h.1 k.1)

module _ {A : Type 0} (R : A → A → Type 0) where
  module _ (p : A → Bool) (same : (x y : A) → R x y → p x ≡ p y) where
    -- What stands in the place of an item that was found is found as well.
    pub find-Pointwise :
        (x : A) (xs ys : List A)
        → Pointwise R xs ys
        → find p xs ≡ some x
        → (y : A) × (find p ys ≡ some y) × R x y
    unfolding find
    find-Pointwise x [] [] w h = absurd (cc)
    find-Pointwise x (z ∷ xs) [] w h = absurd w
    find-Pointwise x [] (y ∷ ys) w h = absurd w
    find-Pointwise x (z ∷ xs) (y ∷ ys) w h = elim (Bool-cases (p z)) [
      | inl hit ↦ (
        y,
        if_true (p y) (some y) (find p ys) (sym (same z y w.0) ∙ hit),
        subst (λ u. R u y) (some-injective z x (sym (if_true (p z) (some z) (find p xs) hit) ∙ h))
            w.0,
      )
      | inr miss ↦
          let rest =
            find-Pointwise x xs ys w.1 (sym (if_false (p z) (some z) (find p xs) miss) ∙ h) in
          (rest.0, if_false (p y) (some y) (find p ys) (sym (same z y w.0) ∙ miss) ∙ rest.1, rest.2)
    ]

  pub All-Pointwise :
      (P : A → Type 0)
      → ((x y : A) → R x y → P x → P y)
      → (xs ys : List A) → Pointwise R xs ys
      → All P xs
      → All P ys
  All-Pointwise P keep [] [] w h = tt
  All-Pointwise P keep (x ∷ xs) [] w h = absurd w
  All-Pointwise P keep [] (y ∷ ys) w h = absurd w
  All-Pointwise P keep (x ∷ xs) (y ∷ ys) w h =
      (keep x y w.0 h.0, All-Pointwise P keep xs ys w.1 h.1)
