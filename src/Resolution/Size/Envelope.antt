-- ===== src/Resolution/Size/Envelope.antt =====
-- scheduler/src/resolution.rs: the gate on an answer, taken before the marker's ids are known.
use agentbeacon.Base.{ℕ, ◌+◌, ◌≤◌, ◌≡◌, false, Option, some, String, pos, i64_max, arith}
use agentbeacon.Resolution.Size.{
  marker_serialized_cap_bytes, escaped_len, i64_digits, char_escaped_width, serialized_marker_bytes,
  reserved_envelope_bytes, reserved_envelope_exceeds_cap, answer_bytes,
}
use agentbeacon.Resolution.Size.Digits.{i64_digits-le}

reserved_envelope_total :
    (answer : Option String) → reserved_envelope_bytes answer ≡ 216 + answer_bytes answer
unfolding reserved_envelope_bytes escaped_len char_escaped_width i64_digits
reserved_envelope_total answer = omega arith

-- A marker of the live path, whatever ids the database gives it, is no larger than what the gate
-- reserves: its batch id takes at most 36 bytes, its time 20, and both ids are `i64`s.
pub serialized_marker_bytes-le :
    (batch_id : String) (escalation event_id : ℕ) (at : String) (answer : Option String)
    → escaped_len batch_id ≤ 36
    → escaped_len at ≤ 20
    → escalation ≤ i64_max
    → event_id ≤ i64_max
    → serialized_marker_bytes batch_id (some (pos escalation)) (pos event_id) at answer false
      ≤ reserved_envelope_bytes answer
unfolding serialized_marker_bytes
serialized_marker_bytes-le batch_id escalation event_id at answer b t e i =
    omega
      (arith, i64_digits-le escalation e, i64_digits-le event_id i, reserved_envelope_total answer)

-- An answer that passes the gate gives a marker within the cap, if its batch id takes at most 36
-- bytes, its time 20, and both ids are `i64`s.
pub reserved_envelope_sound :
    (batch_id : String) (escalation event_id : ℕ) (at : String) (answer : Option String)
    → escaped_len batch_id ≤ 36
    → escaped_len at ≤ 20
    → escalation ≤ i64_max
    → event_id ≤ i64_max
    → reserved_envelope_exceeds_cap answer ≡ false
    → serialized_marker_bytes batch_id (some (pos escalation)) (pos event_id) at answer false
      ≤ marker_serialized_cap_bytes
unfolding reserved_envelope_exceeds_cap
reserved_envelope_sound batch_id escalation event_id at answer b t e i passed =
    let small = serialized_marker_bytes-le batch_id escalation event_id at answer b t e i in
    ground arith
