-- ===== src/Resolution/Size.antt =====
-- scheduler/src/resolution.rs: the serialized size of a marker, and the answer text that fits.
-- Sizes are `usize` and stay far below its range, so they are plain numbers; `i64` ones are ℤ.
pub mod Escape
pub mod Digits
pub mod Fit
pub mod Envelope
pub mod Written
use Prim.Native.Char.{len_utf8}
use agentbeacon.Base.{
  ℕ, zero, suc, ◌+◌, ◌*◌, ◌/◌, ◌≡◌, Bool, true, false, ◌||◌, Option, none, some, String, Char, code,
  ℤ, pos, negsuc, sub_ℕ, unsigned_abs, ltb, leb, ltb_ℤ, ◌==◌, i64_max, len, slice, is_empty,
  if◌then◌else◌,
}

abbrev pub marker_serialized_cap_bytes : ℕ
marker_serialized_cap_bytes = 96 * 1024

abbrev pub reserved_event_id : ℤ
reserved_event_id = pos i64_max

abbrev pub reserved_timestamp : String
reserved_timestamp = "9999-12-31T23:59:59Z"

abbrev pub reserved_batch_id : String
reserved_batch_id = "00000000-0000-0000-0000-000000000000"

-- The characters that JSON writes as a backslash and one letter.
abbrev pub is_short_escape : ℕ → Bool
is_short_escape c = c == 34 || c == 92 || c == 10 || c == 13 || c == 9 || c == 8 || c == 12

unfoldable pub char_escaped_width : Char → ℕ
char_escaped_width c =
    if is_short_escape (code c) then 2 else if ltb (code c) 0x20 then 6 else len_utf8 c

unfoldable pub escaped_len : String → ℕ
escaped_len String.[] = 0
escaped_len (String.◌∷◌ c s) = char_escaped_width c + escaped_len s

-- `while m >= 10 { m /= 10; d += 1; }`.
unfoldable pub digits_loop : ℕ → ℕ → ℕ → ℕ
digits_loop zero m d = d
digits_loop (suc fuel) m d =
    let rest = digits_loop fuel (m / 10) (d + 1) in if leb 10 m then rest else d

-- An `i64` has at most 19 digits, so 20 rounds are enough.
unfoldable pub i64_digits : ℤ → ℕ
unfolding digits_loop
i64_digits (pos n) = 0 + digits_loop 20 n 1
i64_digits (negsuc n) = 1 + digits_loop 20 (suc n) 1

abbrev pub escalation_bytes : Option ℤ → ℕ
escalation_bytes none = 0
escalation_bytes (some id) = 23 + i64_digits id

abbrev pub answer_bytes : Option String → ℕ
answer_bytes none = 0
answer_bytes (some a) = 17 + escaped_len a

abbrev pub truncated_bytes : Bool → ℕ
truncated_bytes true = 17
truncated_bytes false = 0

unfoldable pub serialized_marker_bytes : String → Option ℤ → ℤ → String → Option String → Bool → ℕ
serialized_marker_bytes batch_id escalation_event_id resolved_event_id resolved_at answer_text
      truncated =
    99
    + escaped_len batch_id
    + i64_digits resolved_event_id
    + escaped_len resolved_at
    + escalation_bytes escalation_event_id
    + answer_bytes answer_text
    + truncated_bytes truncated

unfoldable pub reserved_envelope_bytes : Option String → ℕ
unfolding serialized_marker_bytes
reserved_envelope_bytes answer_text =
    serialized_marker_bytes reserved_batch_id (some reserved_event_id) reserved_event_id
      reserved_timestamp answer_text false

unfoldable pub reserved_envelope_exceeds_cap : Option String → Bool
unfolding reserved_envelope_bytes
reserved_envelope_exceeds_cap answer_text =
    ltb marker_serialized_cap_bytes (reserved_envelope_bytes answer_text)

pub envelope_only_exceeds_cap : String → ℤ → String → Bool
envelope_only_exceeds_cap batch_id resolved_event_id resolved_at =
    ltb marker_serialized_cap_bytes
      (serialized_marker_bytes batch_id none resolved_event_id resolved_at none false)

abbrev pub normalized : String → Option String
normalized s = if is_empty s then none else some s

normalized_option : Option String → Option String
normalized_option none = none
normalized_option (some s) = normalized s

pub source_yields_no_marker : String → ℤ → Option String → Bool
unfolding envelope_only_exceeds_cap normalized_option
source_yields_no_marker batch_id source_event_id answer_text =
    let at : String = reserved_timestamp in
    let cap : ℕ = marker_serialized_cap_bytes in
    let size =
      serialized_marker_bytes batch_id none source_event_id at (normalized_option answer_text)
        false in
    if envelope_only_exceeds_cap batch_id source_event_id at
    then true
    else if leb size cap
    then false
    else ltb cap (serialized_marker_bytes batch_id none source_event_id at none true)

-- The loop over `char_indices`: `i` is the offset of the next character, `cut` the end of the text
-- that fits so far.
pub fit_loop : ℤ → ℕ → ℕ → ℕ → String → ℕ
fit_loop budget acc i cut String.[] = cut
fit_loop budget acc i cut (String.◌∷◌ c s) =
    let w = char_escaped_width c in
    let rest = fit_loop budget (acc + w) (i + len_utf8 c) (i + len_utf8 c) s in
    if ltb_ℤ budget (pos (acc + w)) then cut else rest

unfoldable pub fit_answer_text : String → Option ℤ → ℤ → String → String → Option String × Bool
unfolding fit_loop
fit_answer_text batch_id escalation_event_id resolved_event_id resolved_at answer_text =
    let size = serialized_marker_bytes batch_id escalation_event_id resolved_event_id resolved_at in
    let budget = sub_ℕ marker_serialized_cap_bytes (size (some "") true) in
    let prefix = slice answer_text 0 (fit_loop budget 0 0 0 answer_text) in
    if leb (size (normalized answer_text) false) marker_serialized_cap_bytes
    then (normalized answer_text, false)
    else (normalized prefix, true)
