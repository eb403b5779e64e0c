-- ===== src/Resolution/Pattern.antt =====
-- scheduler/src/resolution.rs: `like_pattern_for_batch_id`, the prefilter of the log by batch id.
-- `serde_json::to_string` is a parameter, and `Matches` is SQL's `LIKE … ESCAPE '\'`.
use agentbeacon.Resolution.Size.Escape.{escape}
use agentbeacon.Json.{Json, Fields, obj, arr, str, field, end, cons, nil}
use agentbeacon.Resolution.Marker.{marker_payload, marker_data}
use agentbeacon.Resolution.Size.Written.{write, write_fields, quoted}
use agentbeacon.Base.{
  Char, String, Bool, Option, if◌then◌else◌, unwrap_or, ◌≡◌, ◌⧺◌, ap, code, false, nil-append, none,
  some, Bool-cases, cons-append, is_empty, sym, ◌∙◌, ◌==◌, ◌>>=◌, ◌||◌, refl, inl, inr, ℤ, true,
}

-- `str::strip_prefix('"')` and `str::strip_suffix('"')`.
unfoldable pub strip_prefix : String → Option String
strip_prefix String.[] = none
strip_prefix (String.◌∷◌ c s) = if code c == 34 then some s else none

unfoldable pub strip_suffix : String → Option String
strip_suffix String.[] = none
strip_suffix (String.◌∷◌ c s) =
    let rest = strip_suffix s in
    if is_empty s
    then (if code c == 34 then some "" else none)
    else (do t ← rest; some (String.◌∷◌ c t))

-- The test for a character that `LIKE` reads specially, and the loop that escapes it.
unfoldable pub is_special : Char → Bool
is_special c = code c == 92 || code c == 37 || code c == 95

unfoldable pub like_escape : String → String
like_escape String.[] = ""
like_escape (String.◌∷◌ c s) =
    let rest = String.◌∷◌ c (like_escape s) in if is_special c then String.◌∷◌ "\\" rest else rest

-- The text between the quotes, or the whole text.
unfoldable pub strip_quotes : String → String
unfolding strip_prefix strip_suffix
strip_quotes encoded = unwrap_or (do s ← strip_prefix encoded; strip_suffix s) encoded

unfoldable pub like_pattern_for_batch_id : (String → Option String) → String → String
unfolding strip_quotes like_escape
like_pattern_for_batch_id to_string batch_id =
    let encoded = unwrap_or (to_string batch_id) batch_id in
    String.◌∷◌ "%" (like_escape (strip_quotes encoded) ⧺ "%")

-- A pattern matches a text.
pub data Matches : String → String → Type 0 where
  done : Matches String.[] String.[]
  literal :
      (c : Char) (p t : String)
      → is_special c ≡ false
      → Matches p t
      → Matches (String.◌∷◌ c p) (String.◌∷◌ c t)
  escaped :
      (c : Char) (p t : String)
      → Matches p t
      → Matches (String.◌∷◌ "\\" (String.◌∷◌ c p)) (String.◌∷◌ c t)
  one : (c : Char) (p t : String) → Matches p t → Matches (String.◌∷◌ "_" p) (String.◌∷◌ c t)
  any_none : (p t : String) → Matches p t → Matches (String.◌∷◌ "%" p) t
  any_more :
      (c : Char) (p t : String)
      → Matches (String.◌∷◌ "%" p) t
      → Matches (String.◌∷◌ "%" p) (String.◌∷◌ c t)

append_assoc : (a b c : String) → ((a ⧺ b) ⧺ c) ≡ (a ⧺ (b ⧺ c))
append_assoc String.[] b c = rw (nil-append b) (sym (nil-append (b ⧺ c)))
append_assoc (String.◌∷◌ x a) b c =
    rw (cons-append x a b, cons-append x (a ⧺ b) c, cons-append x a (b ⧺ c))
      (ap (String.◌∷◌ x) (append_assoc a b c))

is_empty-quoted : (s : String) → is_empty (s ⧺ "\"") ≡ false
is_empty-quoted String.[] = refl
is_empty-quoted (String.◌∷◌ c s) = rw (cons-append c s "\"") refl

strip_suffix-append : (s : String) → strip_suffix (s ⧺ "\"") ≡ some s
unfolding strip_suffix
strip_suffix-append String.[] = refl
strip_suffix-append (String.◌∷◌ c s) =
    rw (cons-append c s "\"", is_empty-quoted s, strip_suffix-append s) refl

strip_quotes-quoted : (s : String) → strip_quotes ("\"" ⧺ (s ⧺ "\"")) ≡ s
unfolding strip_quotes strip_prefix
strip_quotes-quoted s =
    rw (cons-append "\"" "" (s ⧺ "\""), nil-append (s ⧺ "\""), strip_suffix-append s) refl

Matches-all : (t : String) → Matches "%" t
Matches-all String.[] = any_none _ _ done
Matches-all (String.◌∷◌ c t) = any_more _ _ _ (Matches-all t)

Matches-before :
    {p t : String} (a : String) → Matches (String.◌∷◌ "%" p) t → Matches (String.◌∷◌ "%" p) (a ⧺ t)
Matches-before {p} {t} String.[] h = rw (nil-append t) h
Matches-before {p} {t} (String.◌∷◌ c a) h =
    rw (cons-append c a t) (any_more _ _ _ (Matches-before a h))

like_escape-special :
    (c : Char) (s : String)
    → is_special c ≡ true
    → like_escape (String.◌∷◌ c s) ≡ String.◌∷◌ "\\" (String.◌∷◌ c (like_escape s))
unfolding like_escape
like_escape-special c s special = rw special refl

like_escape-plain :
    (c : Char) (s : String)
    → is_special c ≡ false
    → like_escape (String.◌∷◌ c s) ≡ String.◌∷◌ c (like_escape s)
unfolding like_escape
like_escape-plain c s plain = rw plain refl

Matches-escaped : (s p t : String) → Matches p t → Matches (like_escape s ⧺ p) (s ⧺ t)
unfolding like_escape
Matches-escaped String.[] p t h = rw (nil-append p, nil-append t) h
Matches-escaped (String.◌∷◌ c s) p t h =
    let rest = like_escape s in
    elim (Bool-cases (is_special c)) [
      | inl special ↦
          rw
            (
              like_escape-special c s special,
              cons-append "\\" (String.◌∷◌ c rest) p,
              cons-append c rest p,
              cons-append c s t,
            )
            (escaped _ _ _ (Matches-escaped s p t h))
      | inr plain ↦
          rw (like_escape-plain c s plain, cons-append c rest p, cons-append c s t)
            (literal _ _ _ plain (Matches-escaped s p t h))
    ]

-- A text that stands somewhere inside another.
Inside : String → String → Type 0
Inside m t = (before after : String) × (t ≡ (before ⧺ (m ⧺ after)))

Inside-left : (m t a : String) → Inside m t → Inside m (a ⧺ t)
unfolding Inside
Inside-left m t a (x, y, e) = (a ⧺ x, y, ap (λ s. a ⧺ s) e ∙ sym (append_assoc a x (m ⧺ y)))

Inside-right : (m t a : String) → Inside m t → Inside m (t ⧺ a)
unfolding Inside
Inside-right m t a (x, y, e) = (
  x,
  y ⧺ a,
  ap (λ s. s ⧺ a) e ∙ (append_assoc x (m ⧺ y) a ∙ ap (λ s. x ⧺ s) (append_assoc m y a)),
)

append_nil : (a : String) → (a ⧺ "") ≡ a
append_nil String.[] = nil-append ""
append_nil (String.◌∷◌ c a) = rw (cons-append c a "") (ap (String.◌∷◌ c) (append_nil a))

Inside-self : (m : String) → Inside m m
unfolding Inside
Inside-self m = (String.[], String.[], sym (nil-append (m ⧺ "") ∙ append_nil m))

Inside-object : (m : String) (fs : Fields) → Inside m (write_fields fs) → Inside m (write (obj fs))
unfolding write
Inside-object m fs h = Inside-left m _ "{" (Inside-right m _ "}" h)

Inside-array : (m : String) (v : Json) → Inside m (write v) → Inside m (write (arr (cons v nil)))
unfolding write
Inside-array m v h = Inside-left m _ "[" (Inside-right m _ "]" h)

Inside-value :
    (m k : String) (v : Json) (fs : Fields)
    → Inside m (write v)
    → Inside m (write_fields (field k v fs))
unfolding write_fields
Inside-value m k v end h = Inside-left m _ (quoted k) (Inside-left m _ ":" h)
Inside-value m k v (field l w fs) h =
    Inside-left m _ (quoted k) (Inside-left m _ ":" (Inside-right m _ _ h))

Inside-later :
    (m k l : String) (v w : Json) (fs : Fields)
    → Inside m (write_fields (field l w fs))
    → Inside m (write_fields (field k v (field l w fs)))
unfolding write_fields
Inside-later m k l v w fs h =
    Inside-left m _ (quoted k)
      (Inside-left m _ ":" (Inside-left m _ (write v) (Inside-left m _ "," h)))

Inside-str : (s : String) → Inside (escape s) (write (str s))
unfolding write quoted
Inside-str s = Inside-left _ _ "\"" (Inside-right _ _ "\"" (Inside-self _))

Inside-marker_payload :
    (b : String) (i : Option ℤ) (r : ℤ) (at : String) (text : Option String) (truncated : Bool)
    → Inside (escape b) (write (marker_payload b i r at text truncated))
unfolding marker_payload marker_data
Inside-marker_payload b i r at text truncated =
    let m = escape b in
    Inside-object m _ (
      Inside-value m _ _ _ (
        Inside-array m _ (
          Inside-object m _ (
            Inside-value m _ _ _ (
              Inside-object m _
                (Inside-later m _ _ _ _ _ (Inside-value m _ _ _ (Inside-str b))))))))

like_pattern_for_batch_id-Matches :
    (to_string : String → Option String) (batch_id t : String)
    → to_string batch_id ≡ some ("\"" ⧺ (escape batch_id ⧺ "\""))
    → Inside (escape batch_id) t
    → Matches (like_pattern_for_batch_id to_string batch_id) t
unfolding like_pattern_for_batch_id Inside
like_pattern_for_batch_id-Matches to_string b t written (x, y, e) =
    rw (written, strip_quotes-quoted (escape b), e)
      (Matches-before x (any_none _ _ (Matches-escaped (escape b) "%" y (Matches-all y))))

-- The prefilter of the log never drops a marker of the batch: if `serde_json::to_string` writes the
-- batch id in quotes, escaped as JSON does, then `LIKE` matches the pattern of the batch with the
-- text of every marker of that batch, whatever characters, wildcards included, the batch id has.
pub prefilter_finds_marker :
    (to_string : String → Option String) (batch_id : String) (escalation : Option ℤ) (event_id : ℤ)
    (at : String) (text : Option String) (truncated : Bool)
    → to_string batch_id ≡ some ("\"" ⧺ (escape batch_id ⧺ "\""))
    → Matches
        (like_pattern_for_batch_id to_string batch_id)
        (write (marker_payload batch_id escalation event_id at text truncated))
prefilter_finds_marker to_string b i r at text truncated written =
    like_pattern_for_batch_id-Matches to_string b _ written
      (Inside-marker_payload b i r at text truncated)
