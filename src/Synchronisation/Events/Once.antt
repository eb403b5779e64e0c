-- ===== src/Synchronisation/Events/Once.antt =====
-- A numbered message is recorded once.
-- insert_with_dedup
use agentbeacon.Transition.Ratchet.{History}
use agentbeacon.Statements.{verify_session_owner, attempt, next_event}
use agentbeacon.Tx.Inverse.{Ok}
use agentbeacon.Statements.Sync.{any_where, insert_with_dedup, is_message, append_message}
use agentbeacon.Json.{Json}
use agentbeacon.Tables.{EventType, Env, Db, InsertedEvent, Event}
use agentbeacon.Tx.{◌>>=◌}
use agentbeacon.Base.{
  arith, Bool, String, count_where, List, ℤ, ◌≡◌, true, ◌++◌, Option, ◌∷◌, [], ℕ, ltb,
  if◌then◌else◌, suc, Bool-cases, false, none, inl, some, subst, inr, sym, refl, str_eq_refl,
  eq_ℤ_refl,
}

module _ {A : Type 0} (p : A → Bool) where
  any_left : (xs ys : List A) → any_where p xs ≡ true → any_where p (xs ++ ys) ≡ true
  unfolding count_where
  any_left [] ys h = absurd (cc)
  any_left (x ∷ xs) ys h = elim (Bool-cases (p x)) [
    | inl hit ↦ found (p x) _ hit
    | inr miss ↦
        rest_of (p x) (count_where p (xs ++ ys)) miss
          (any_left xs ys (of_rest (p x) (count_where p xs) miss h))
  ]
    where
      found : (b : Bool) (n : ℕ) → b ≡ true → ltb 0 (if b then suc n else n) ≡ true
      found true n e = ground arith
      found false n e = absurd (cc)

      rest_of :
          (b : Bool) (n : ℕ) → b ≡ false → ltb 0 n ≡ true → ltb 0 (if b then suc n else n) ≡ true
      rest_of true n e h = absurd (cc)
      rest_of false n e h = h

      of_rest :
          (b : Bool) (n : ℕ) → b ≡ false → ltb 0 (if b then suc n else n) ≡ true → ltb 0 n ≡ true
      of_rest true n e h = absurd (cc)
      of_rest false n e h = h

  any_last : (xs : List A) (x : A) → p x ≡ true → any_where p (xs ++ x ∷ []) ≡ true
  unfolding count_where
  any_last [] x h = rw h refl
  any_last (y ∷ ys) x h = either (p y) _ (any_last ys x h)
    where
      either : (b : Bool) (n : ℕ) → ltb 0 n ≡ true → ltb 0 (if b then suc n else n) ≡ true
      either true n k = ground arith
      either false n k = k

module _ (x s : String) (t : EventType) (p : Json) (n : ℤ) (e : Env) (d d' : Db)
    (r : Option InsertedEvent) (run : Ok (insert_with_dedup x s t p n) e d r d') where
  abbrev message_of : Event
  message_of = record (next_event x (some s) t p e.now d) { msg_seq = some n }

  appended : any_where (is_message s n) d.events ≡ false → d.events ++ message_of ∷ [] ≡ d'.events
  unfolding insert_with_dedup verify_session_owner attempt append_message ◌>>=◌
  appended new = ground arith

  ignored : any_where (is_message s n) d.events ≡ true → (r ≡ none) × (d ≡ d')
  unfolding insert_with_dedup verify_session_owner attempt ◌>>=◌
  ignored known = ground arith

  known_after : any_where (is_message s n) d'.events ≡ true
  known_after = elim (Bool-cases (any_where (is_message s n) d.events)) [
    | inl known ↦
        subst (λ (y : Db). any_where (is_message s n) y.events ≡ true) (ignored known).1 known
    | inr new ↦
        subst (λ (es : List Event). any_where (is_message s n) es ≡ true) (appended new)
          (any_last (is_message s n) d.events message_of (rw (str_eq_refl s, eq_ℤ_refl n) refl))
  ]

-- A message of a session with a number that was inserted, or found to be there, is not inserted
-- again: a later insertion under the same session and number, whatever its text, gives no event and
-- changes nothing, whatever transactions run in between that keep the history.
pub insert_with_dedup-once :
    (x s : String) (t : EventType) (p : Json) (n : ℤ) (e : Env) (d d1 d2 d3 : Db)
    (r : Option InsertedEvent) (x' : String) (t' : EventType) (p' : Json) (e' : Env)
    (r' : Option InsertedEvent)
    → Ok (insert_with_dedup x s t p n) e d r d1
    → History d1 d2
    → Ok (insert_with_dedup x' s t' p' n) e' d2 r' d3
    → (r' ≡ none) × (d2 ≡ d3)
insert_with_dedup-once x s t p n e d d1 d2 d3 r x' t' p' e' r' h k again =
    ignored x' s t' p' n e' d2 d3 r' again (
      subst (λ (es : List Event). any_where (is_message s n) es ≡ true) (sym k.events.1)
        (any_left (is_message s n) d1.events k.events.0 (known_after x s t p n e d d1 r h)))
