-- ===== src/Resolution/Size/Written.antt =====
-- scheduler/src/resolution.rs: `serialized_marker_bytes` against the text of a marker.
use agentbeacon.Resolution.Parts.{answer_type}
use agentbeacon.Base.{
  ◌≡◌, inl, inr, Bool-cases, none, some, true, false, refl, zero, suc, pos, negsuc, ◌⧺◌, len-append,
  ◌∙◌, ◌+◌, ◌/◌, ◌%◌, String, ℕ, ℤ, if◌then◌else◌, len, leb, ◌==◌, arith, ap, Bool, Option,
}
use agentbeacon.Json.{
  Json, Items, Fields, Number, null, bool, num, int, float, str, arr, obj, nil, cons, end, field,
}
use agentbeacon.Resolution.Size.{
  digits_loop, i64_digits, serialized_marker_bytes, escaped_len, char_escaped_width,
  truncated_bytes, answer_bytes, escalation_bytes,
}
use agentbeacon.Resolution.Size.Escape.{escape, escaped_len-escape, len-if}
use agentbeacon.Resolution.Marker.{marker_data, optional_id, optional_text, marker_payload}

-- One decimal digit, and the digits of a number: at most one more than the fuel.
decimal_digit : ℕ → String
decimal_digit d =
    if d == 0
    then "0"
    else if d == 1
    then "1"
    else if d == 2
    then "2"
    else if d == 3
    then "3"
    else if d == 4
    then "4"
    else if d == 5
    then "5"
    else if d == 6
    then "6"
    else if d == 7
    then "7"
    else if d == 8
    then "8"
    else "9"

write_digits : ℕ → ℕ → String → String
write_digits zero m acc = decimal_digit m ⧺ acc
write_digits (suc fuel) m acc =
    let rest = write_digits fuel (m / 10) (decimal_digit (m % 10) ⧺ acc) in
    if leb 10 m then rest else decimal_digit m ⧺ acc

-- An integer in decimal: 20 rounds write every `i64`.
pub write_int : ℤ → String
write_int (pos n) = write_digits 20 n ""
write_int (negsuc n) = "-" ⧺ write_digits 20 (suc n) ""

unfoldable pub write_number : Number → String
write_number (int z) = write_int z
write_number (float s) = s

unfoldable pub quoted : String → String
quoted s = "\"" ⧺ (escape s ⧺ "\"")

-- How compact JSON is written (RFC 8259).
unfoldable mutual
  pub write : Json → String
  write null = "null"
  write (bool true) = "true"
  write (bool false) = "false"
  write (num n) = write_number n
  write (str s) = quoted s
  write (arr vs) = "[" ⧺ (write_items vs ⧺ "]")
  write (obj fs) = "{" ⧺ (write_fields fs ⧺ "}")

  pub write_items : Items → String
  write_items nil = ""
  write_items (cons v nil) = write v
  write_items (cons v (cons w vs)) = write v ⧺ ("," ⧺ write_items (cons w vs))

  pub write_fields : Fields → String
  write_fields end = ""
  write_fields (field k v end) = quoted k ⧺ (":" ⧺ write v)
  write_fields (field k v (field l w fs)) =
      quoted k ⧺ (":" ⧺ (write v ⧺ ("," ⧺ write_fields (field l w fs))))

len-decimal_digit : (d : ℕ) → len (decimal_digit d) ≡ 1
unfolding decimal_digit
len-decimal_digit d = search len-if depth 20

len-write_digits :
    (fuel m : ℕ) (acc : String) → len (write_digits fuel m acc) ≡ digits_loop fuel m (1 + len acc)
unfolding write_digits digits_loop
len-write_digits zero m acc = omega (arith, len-append (decimal_digit m) acc, len-decimal_digit m)
len-write_digits (suc fuel) m acc = elim (Bool-cases (leb 10 m)) [
  | inl more ↦ rw more (
      len-write_digits fuel (m / 10) (decimal_digit (m % 10) ⧺ acc)
      ∙ ap (digits_loop fuel (m / 10))
          (omega (arith, len-append (decimal_digit (m % 10)) acc, len-decimal_digit (m % 10))))
  | inr done ↦ rw done (omega (arith, len-append (decimal_digit m) acc, len-decimal_digit m))
]

len-write_int : (z : ℤ) → len (write_int z) ≡ i64_digits z
unfolding write_int i64_digits
len-write_int (pos n) = omega (arith, len-write_digits 20 n "")
len-write_int (negsuc n) =
    omega (arith, len-append "-" (write_digits 20 (suc n) ""), len-write_digits 20 (suc n) "")

len-quoted : (s : String) → len (quoted s) ≡ 2 + escaped_len s
unfolding quoted
len-quoted s =
    omega
      (arith, len-append "\"" (escape s ⧺ "\""), len-append (escape s) "\"", escaped_len-escape s)

len-write-str : (s : String) → len (write (str s)) ≡ 2 + escaped_len s
unfolding write
len-write-str s = len-quoted s

len-write-int : (z : ℤ) → len (write (num (int z))) ≡ i64_digits z
unfolding write write_number
len-write-int z = len-write_int z

-- The bytes of the members after the first, with the commas before them.
more_bytes : Fields → ℕ
more_bytes end = 0
more_bytes (field k v fs) = 4 + escaped_len k + len (write v) + more_bytes fs

len-write_fields :
    (k : String) (v : Json) (fs : Fields)
    → len (write_fields (field k v fs)) ≡ 3 + escaped_len k + len (write v) + more_bytes fs
unfolding write_fields more_bytes
len-write_fields k v end =
    omega (arith, len-append (quoted k) (":" ⧺ write v), len-append ":" (write v), len-quoted k)
len-write_fields k v (field l w fs) =
    let rest = write_fields (field l w fs) in
    omega (
      arith,
      len-append (quoted k) (":" ⧺ (write v ⧺ ("," ⧺ rest))),
      len-append ":" (write v ⧺ ("," ⧺ rest)),
      len-append (write v) ("," ⧺ rest),
      len-append "," rest,
      len-quoted k,
      len-write_fields l w fs,
    )

more_bytes-optional_id :
    (id : Option ℤ) (fs : Fields)
    → more_bytes (optional_id "escalation_event_id" id fs) ≡ escalation_bytes id + more_bytes fs
unfolding more_bytes write write_number escaped_len char_escaped_width
more_bytes-optional_id none fs = omega arith
more_bytes-optional_id (some id) fs = omega (arith, len-write_int id)

more_bytes-optional_text :
    (t : Option String) (fs : Fields)
    → more_bytes (optional_text "answer_text" t fs) ≡ answer_bytes t + more_bytes fs
unfolding more_bytes write escaped_len char_escaped_width
more_bytes-optional_text none fs = omega arith
more_bytes-optional_text (some t) fs = omega (arith, len-quoted t)

more_bytes-truncated :
    (b : Bool)
    → more_bytes (if b then field "truncated" (bool true) end else end) ≡ truncated_bytes b
unfolding more_bytes write escaped_len char_escaped_width
more_bytes-truncated true = refl
more_bytes-truncated false = refl

len-object : (fs : Fields) → len (write (obj fs)) ≡ 2 + len (write_fields fs)
unfolding write
len-object fs =
    omega (arith, len-append "{" (write_fields fs ⧺ "}"), len-append (write_fields fs) "}")

len-write-marker_data :
    (batch_id : String) (escalation : Option ℤ) (event_id : ℤ) (at : String) (text : Option String)
    (truncated : Bool)
    → 21 + len (write (marker_data batch_id escalation event_id at text truncated))
      ≡ serialized_marker_bytes batch_id escalation event_id at text truncated
unfolding marker_data serialized_marker_bytes more_bytes escaped_len char_escaped_width
len-write-marker_data b i r a t c =
    let last = if c then field "truncated" (bool true) end else end in
    let third = optional_text "answer_text" t last in
    let second = optional_id "escalation_event_id" i third in
    omega (
      arith,
      len-object (
          field "type" (str answer_type) (
            field "batch_id" (str b)
              (field "resolved_event_id" (num (int r)) (field "resolved_at" (str a) second)))),
      len-write_fields "type" (str answer_type) (
          field "batch_id" (str b)
            (field "resolved_event_id" (num (int r)) (field "resolved_at" (str a) second))),
      len-write-str answer_type,
      len-write-str b,
      len-write-str a,
      len-write-int r,
      more_bytes-optional_id i third,
      more_bytes-optional_text t last,
      more_bytes-truncated c,
    )

len-items : (v : Json) → len (write (arr (cons v nil))) ≡ 2 + len (write v)
unfolding write
len-items v = omega (arith, len-append "[" (write v ⧺ "]"), len-append (write v) "]")

-- `serialized_marker_bytes` is the exact length of a marker: for every batch, escalation id, event
-- id, timestamp, answer text (or none) and truncation flag, the payload written as compact JSON (RFC
-- 8259) has as many bytes as it says.
pub serialized_marker_bytes-exact :
    (batch_id : String) (escalation : Option ℤ) (event_id : ℤ) (at : String) (text : Option String)
    (truncated : Bool)
    → len (write (marker_payload batch_id escalation event_id at text truncated))
      ≡ serialized_marker_bytes batch_id escalation event_id at text truncated
unfolding marker_payload escaped_len char_escaped_width more_bytes
serialized_marker_bytes-exact b i r a t c =
    let d = marker_data b i r a t c in
    let part = obj (field "data" d end) in
    omega (
      arith,
      len-object (field "parts" (arr (cons part nil)) end),
      len-write_fields "parts" (arr (cons part nil)) end,
      len-items part,
      len-object (field "data" d end),
      len-write_fields "data" d end,
      len-write-marker_data b i r a t c,
    )
