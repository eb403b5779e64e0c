-- ===== src/Resolution/Size/Fit.antt =====
-- scheduler/src/resolution.rs: `fit_answer_text` cuts an answer to the longest text that fits.
use agentbeacon.Base.{
  ℕ, ◌+◌, ◌-◌, ◌≤◌, ◌<◌, ◌≡◌, refl, ap, sym, ◌∙◌, ◌⊎◌, inl, inr, Bool, true, false, Option, some,
  String, Char, ℤ, pos, ltb_ℤ, leb, sub_ℕ, len, slice, ◌⧺◌, len-cons, cons-append, nil-append,
  slice-append_left, arith, Bool-cases, if◌then◌else◌, leb→le, len_utf8,
}
use agentbeacon.Resolution.Size.{
  marker_serialized_cap_bytes, char_escaped_width, escaped_len, serialized_marker_bytes, normalized,
  fit_loop, fit_answer_text,
}

-- The text that the loop lets through.
taken : ℤ → ℕ → String → String
taken budget acc String.[] = String.[]
taken budget acc (String.◌∷◌ c s) =
    let more = String.◌∷◌ c (taken budget (acc + char_escaped_width c) s) in
    if ltb_ℤ budget (pos (acc + char_escaped_width c)) then String.[] else more

fit_loop-taken :
    (budget : ℤ) (acc i : ℕ) (s : String) → fit_loop budget acc i i s ≡ i + len (taken budget acc s)
unfolding fit_loop taken
fit_loop-taken budget acc i String.[] = omega arith
fit_loop-taken budget acc i (String.◌∷◌ c s) =
    elim (Bool-cases (ltb_ℤ budget (pos (acc + char_escaped_width c)))) [
      | inl over ↦ rw over (omega arith)
      | inr fits ↦ rw fits (
          omega (
            arith,
            len-cons c (taken budget (acc + char_escaped_width c) s),
            fit_loop-taken budget (acc + char_escaped_width c) (i + len_utf8 c) s,
          ))
    ]

-- What comes after the text that is let through: nothing, or a character that does not fit.
abbrev Stops : ℕ → ℕ → String → String → Type 0
Stops budget acc p rest =
    (rest ≡ String.[])
    ⊎ ((c : Char) × (t : String) × (rest ≡ String.◌∷◌ c t)
        × (budget < acc + escaped_len p + char_escaped_width c))

Stops-cons :
    (budget acc : ℕ) (c : Char) (p rest : String)
    → Stops budget (acc + char_escaped_width c) p rest
    → Stops budget acc (String.◌∷◌ c p) rest
unfolding escaped_len
Stops-cons budget acc c p rest (inl e) = inl e
Stops-cons budget acc c p rest (inr (d, t, e, over)) = inr (d, t, e, omega arith)

taken_split :
    (budget acc : ℕ) (s : String)
    → (rest : String) × (s ≡ (taken (pos budget) acc s ⧺ rest))
      × Stops budget acc (taken (pos budget) acc s) rest
unfolding taken escaped_len
taken_split budget acc String.[] = (String.[], sym (nil-append String.[]), inl refl)
taken_split budget acc (String.◌∷◌ c s) =
    elim (Bool-cases (ltb_ℤ (pos budget) (pos (acc + char_escaped_width c)))) [
      | inl over ↦ (
        String.◌∷◌ c s,
        rw over (sym (nil-append (String.◌∷◌ c s))),
        inr (c, s, refl, rw over (ground arith)),
      )
      | inr fits ↦
          let (rest, e, stops) = taken_split budget (acc + char_escaped_width c) s in
          (
            rest,
            rw fits (ap (String.◌∷◌ c) e ∙ sym (cons-append c _ rest)),
            rw fits (Stops-cons budget acc c _ rest stops),
          )
    ]

escaped_len-taken :
    (budget acc : ℕ) (s : String)
    → acc ≤ budget
    → acc + escaped_len (taken (pos budget) acc s) ≤ budget
unfolding taken escaped_len
escaped_len-taken budget acc String.[] h = omega arith
escaped_len-taken budget acc (String.◌∷◌ c s) h =
    elim (Bool-cases (ltb_ℤ (pos budget) (pos (acc + char_escaped_width c)))) [
      | inl over ↦ rw over (omega arith)
      | inr fits ↦
          rw fits
            (omega (arith, escaped_len-taken budget (acc + char_escaped_width c) s (ground arith)))
    ]

-- The prefix that a budget cuts, read off the loop.
slice-taken :
    (budget : ℕ) (a : String) → slice a 0 (fit_loop (pos budget) 0 0 0 a) ≡ taken (pos budget) 0 a
slice-taken budget a =
    let (rest, e, stops) = taken_split budget 0 a in
    let p = taken (pos budget) 0 a in
    let cut : fit_loop (pos budget) 0 0 0 a ≡ len p =
      omega (arith, fit_loop-taken (pos budget) 0 0 a) in
    ap (slice a 0) cut ∙ ap (λ (t : String). slice t 0 (len p)) e ∙ slice-append_left p rest

sub_ℕ_pos : (a b : ℕ) → b ≤ a → sub_ℕ a b ≡ pos (a - b)
sub_ℕ_pos a b h = ground arith

-- The size of a marker grows with its answer text alone.
module _ (batch_id : String) (escalation : Option ℤ) (event_id : ℤ) (at : String) where
  abbrev size : Option String → Bool → ℕ
  size = serialized_marker_bytes batch_id escalation event_id at

  size-some : (p : String) → size (some p) true ≡ size (some "") true + escaped_len p
  unfolding serialized_marker_bytes escaped_len
  size-some p = omega arith

  size-normalized-le : (p : String) → size (normalized p) true ≤ size (some p) true
  unfolding serialized_marker_bytes
  size-normalized-le p = ground arith

  -- The result, with the budget as a plain number.
  abbrev fitted : String → String → Option String × Bool
  fitted a prefix =
      if leb (size (normalized a) false) marker_serialized_cap_bytes
      then (normalized a, false)
      else (normalized prefix, true)

  abbrev room : ℕ
  room = marker_serialized_cap_bytes - size (some "") true

  module _ (a : String) (envelope : size (some "") true ≤ marker_serialized_cap_bytes) where
    fit_answer_text_form :
        fit_answer_text batch_id escalation event_id at a ≡ fitted a (taken (pos room) 0 a)
    unfolding fit_answer_text
    fit_answer_text_form =
        ap (λ (b : ℤ). fitted a (slice a 0 (fit_loop b 0 0 0 a))) (sub_ℕ_pos _ _ envelope)
        ∙ ap (fitted a) (slice-taken room a)

    taken-le : size (normalized (taken (pos room) 0 a)) true ≤ marker_serialized_cap_bytes
    taken-le =
        let p = taken (pos room) 0 a in
        omega (
          arith,
          size-normalized-le p,
          size-some p,
          escaped_len-taken room 0 a (omega arith),
          envelope,
        )

    -- Where the envelope leaves room, the fitted answer makes a marker within the cap.
    pub fit_answer_text-le :
        let (text, truncated) = fit_answer_text batch_id escalation event_id at a in
        size text truncated ≤ marker_serialized_cap_bytes
    fit_answer_text-le =
        rw fit_answer_text_form
          (elim (Bool-cases (leb (size (normalized a) false) marker_serialized_cap_bytes)) [
            | inl whole ↦ rw whole (leb→le _ _ whole)
            | inr long ↦ rw long taken-le
          ])
