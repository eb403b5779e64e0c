-- ===== src/Statements/Rows.antt =====
-- Rows under an update: what a statement does row by row.
use agentbeacon.Base.{
  Bool, true, List, [], ◌∷◌, Pointwise, ◌≡◌, Bool-cases, inl, inr, find, some, arith,
}
use agentbeacon.Statements.{update_where}

module _ {A : Type 0} (R : A → A → Type 0) (R-refl : (x : A) → R x x) where
  -- A relation that holds of a row and the row that it becomes holds of the whole table.
  pub update_where-Pointwise :
      (test : A → Bool) (f : A → A)
      → ((x : A) → test x ≡ true → R x (f x))
      → (xs : List A) → Pointwise R xs (update_where test f xs)
  unfolding update_where
  update_where-Pointwise test f h [] = tt
  update_where-Pointwise test f h (x ∷ xs) = elim (Bool-cases (test x)) [
    | inl hit ↦ (rw hit (h x hit), update_where-Pointwise test f h xs)
    | inr miss ↦ (rw miss (R-refl x), update_where-Pointwise test f h xs)
  ]

module _ {A : Type 0} (p test : A → Bool) (f : A → A) (same : (x : A) → p (f x) ≡ p x) where
  -- The first row of an id, after an update that takes it.
  pub find-update_where :
      (xs : List A) (t : A)
      → find p xs ≡ some t
      → test t ≡ true
      → find p (update_where test f xs) ≡ some (f t)
  unfolding find update_where
  find-update_where [] t h k = absurd (cc)
  find-update_where (x ∷ xs) t h k =
      let keep = same x in let rest = find-update_where xs t in ground arith
