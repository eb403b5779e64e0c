-- ===== src/Resolution/Size/Digits.antt =====
-- scheduler/src/resolution.rs: `i64_digits` counts decimal digits.
use native.Mathlib.Decide.{dec_lt}
use native.Mathlib.Nat.{pow-suc, pow-le-pow_right}
use agentbeacon.Base.{
  ℕ, zero, suc, ◌+◌, ◌-◌, ◌/◌, ◌^◌, ◌≤◌, ◌<◌, ◌≡◌, refl, ◌⊎◌, inl, inr, ap, pos, leb, i64_max,
  arith, Bool-cases, leb→le,
}
use agentbeacon.Resolution.Size.{digits_loop, i64_digits}

power_step :
    (m k : ℕ)
    → 10 ≤ m
    → m / 10 < 10 ^ suc k
    → (k ≡ 0) ⊎ (10 ^ k ≤ m / 10)
    → (m < 10 ^ suc (suc k)) × (10 ^ suc k ≤ m)
power_step m k h below (inl e) =
    (omega (arith, pow-suc 10 (suc k)), omega (arith, ap (λ (j : ℕ). 10 ^ suc j) e))
power_step m k h below (inr above) =
    (omega (arith, pow-suc 10 (suc k)), omega (arith, pow-suc 10 k))

-- What a run of the loop adds to its counter.
digits_loop_adds :
    (fuel m d : ℕ)
    → m < 10 ^ fuel
    → (k : ℕ) × (digits_loop fuel m d ≡ d + k) × (m < 10 ^ suc k) × ((k ≡ 0) ⊎ (10 ^ k ≤ m))
unfolding digits_loop
digits_loop_adds zero m d h = (0, omega arith, omega arith, inl refl)
digits_loop_adds (suc fuel) m d h = elim (Bool-cases (leb 10 m)) [
  | inl more ↦
      let (k, e, below, above) =
        digits_loop_adds fuel (m / 10) (d + 1) (omega (arith, pow-suc 10 fuel, leb→le 10 m more)) in
      let (upper, lower) = power_step m k (leb→le 10 m more) below above in
      (suc k, rw more (omega (arith, e)), upper, inr lower)
  | inr done ↦ (0, rw done (omega arith), ground arith, inl refl)
]

at_least : (n k : ℕ) → 0 < n → (k ≡ 0) ⊎ (10 ^ k ≤ n) → 10 ^ k ≤ n
at_least n k h (inl e) = omega (arith, ap (λ (j : ℕ). 10 ^ j) e)
at_least n k h (inr above) = above

-- A positive `i64` has exactly `i64_digits` decimal digits: 20 rounds of the loop are enough.
pub i64_digits_exact :
    (n : ℕ)
    → 0 < n
    → n ≤ i64_max
    → (10 ^ (i64_digits (pos n) - 1) ≤ n) × (n < 10 ^ i64_digits (pos n))
unfolding i64_digits
i64_digits_exact n h bound =
    let (k, e, below, above) = digits_loop_adds 20 n 1 (omega arith) in
    let less : 0 + digits_loop 20 n 1 - 1 ≡ k = omega (arith, e) in
    let same : 0 + digits_loop 20 n 1 ≡ suc k = omega (arith, e) in
    (rw less (at_least n k h above), rw same below)

-- No positive `i64` has more digits than the largest.
pub i64_digits-le : (n : ℕ) → n ≤ i64_max → i64_digits (pos n) ≤ 19
unfolding i64_digits
i64_digits-le n h =
    let (k, e, below, above) = digits_loop_adds 20 n 1 (omega arith) in
    elim (dec_lt 18 k) [ yes large ↦ absurd (too_many k large above) | no small ↦ omega (arith, e) ]
  where
    too_many : (k : ℕ) → 18 < k → (k ≡ 0) ⊎ (10 ^ k ≤ n) → ⊥
    too_many k large (inl e) = omega arith
    too_many k large (inr above) =
        omega (arith, pow-le-pow_right {n = 10} (omega arith) {i = 19} {j = k} large)
