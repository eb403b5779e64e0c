-- ===== src/Examples/Markers.antt =====
-- Markers, their sizes and the answers that they keep, at concrete inputs.
use agentbeacon.Resolution.Pattern.{
  Matches, like_pattern_for_batch_id, prefilter_finds_marker, like_escape, strip_quotes,
  strip_prefix, strip_suffix, is_special,
}
use agentbeacon.Resolution.Size.Written.{write, serialized_marker_bytes-exact}
use agentbeacon.Resolution.Size.{
  escaped_len, fit_answer_text, reserved_envelope_exceeds_cap, serialized_marker_bytes,
  char_escaped_width, i64_digits, reserved_envelope_bytes, marker_serialized_cap_bytes,
}
use agentbeacon.Resolution.Parts.{Payload, parse_parts, parts_domain_valid, data_is_valid, top_role}
use agentbeacon.Base.{
  none, some, refl, pos, [], ◌∷◌, true, false, len, ◌^◌, ◌≡◌, ◌≤◌, arith, ◌-◌, ◌<◌, String, ◌⧺◌,
  Option,
}
use agentbeacon.Json.{Json, str, obj, field, end, arr, cons, nil}
use agentbeacon.Resolution.RoundTrip.{marker_roundtrip, dismiss_roundtrip, read_candidates}
use agentbeacon.Resolution.Candidates.{answer, dismiss}
use agentbeacon.Resolution.Marker.{marker_payload, dismiss_payload}
use agentbeacon.Resolution.Sources.{historical_answer_source, historical_answer_source_ref}
use agentbeacon.Resolution.Sources.Agree.{historical_sources_agree, source_of}
use agentbeacon.Resolution.Size.Fit.{fit_answer_text-le}
use agentbeacon.Resolution.Size.Envelope.{serialized_marker_bytes-le, reserved_envelope_sound}
use agentbeacon.Resolution.Size.Escape.{escaped_len-escape, escape, escape_char}
use agentbeacon.Resolution.Size.Digits.{i64_digits_exact}

marker_roundtrip_example :
    read_candidates
      (some (marker_payload "b1" (some (pos 3)) (pos 5) "now" (some "yes") true))
      (pos 6)
    ≡ (record {
      kind = answer;
      batch_id = "b1";
      escalation_event_id = some (pos 3);
      order_key = record { primary_id = pos 5; own_event_id = pos 6; part_ordinal = pos 0 };
      answer_text = some "yes";
      resolved_at_raw = some "now";
      embedded_resolved_event_id = some (pos 5);
      truncated = true;
    })
      ∷ []
marker_roundtrip_example =
    marker_roundtrip "b1" (some (pos 3)) (pos 5) "now" (some "yes") true (pos 6) refl refl

dismiss_roundtrip_example :
    read_candidates (some (dismiss_payload "b1" (pos 3))) (pos 6)
    ≡ (record {
      kind = dismiss;
      batch_id = "b1";
      escalation_event_id = some (pos 3);
      order_key = record { primary_id = pos 6; own_event_id = pos 6; part_ordinal = pos 0 };
      answer_text = none;
      resolved_at_raw = none;
      embedded_resolved_event_id = none;
      truncated = false;
    })
      ∷ []
dismiss_roundtrip_example = dismiss_roundtrip "b1" (pos 3) (pos 6) refl

abbrev answer_part : Json
answer_part = obj (
    field "text" (str "yes") (
      field "data"
        (obj (
          field "type" (str "question_answer")
            (field "escalation_event_id" (str "3") (field "batch_id" (str "b1") end))))
        end))

abbrev logged_answer : Payload
logged_answer =
    some (obj (field "role" (str "ROLE_USER") (field "parts" (arr (cons answer_part nil)) end)))

historical_sources_agree_example :
    historical_answer_source logged_answer
    ≡ source_of (historical_answer_source_ref (top_role logged_answer) (answer_part ∷ []))
unfolding parse_parts parts_domain_valid data_is_valid
historical_sources_agree_example = historical_sources_agree logged_answer

small : serialized_marker_bytes "b1" none (pos 5) "now" (some "") true ≤ marker_serialized_cap_bytes
unfolding serialized_marker_bytes escaped_len i64_digits char_escaped_width
small = omega arith

batch : escaped_len "b1" ≤ 36
unfolding escaped_len char_escaped_width
batch = omega arith

time : escaped_len "now" ≤ 20
unfolding escaped_len char_escaped_width
time = omega arith

passed : reserved_envelope_exceeds_cap (some "yes") ≡ false
unfolding reserved_envelope_exceeds_cap reserved_envelope_bytes serialized_marker_bytes escaped_len
    i64_digits char_escaped_width
passed = refl

fit_answer_text-le_example :
    let (text, truncated) = fit_answer_text "b1" none (pos 5) "now" "yes" in
    serialized_marker_bytes "b1" none (pos 5) "now" text truncated ≤ marker_serialized_cap_bytes
fit_answer_text-le_example = fit_answer_text-le "b1" none (pos 5) "now" "yes" small

escaped_len-escape_example : len (escape "a\nb") ≡ escaped_len "a\nb"
escaped_len-escape_example = escaped_len-escape "a\nb"

i64_digits_exact_example :
    (10 ^ (i64_digits (pos 1234) - 1) ≤ 1234) × (1234 < 10 ^ i64_digits (pos 1234))
i64_digits_exact_example = i64_digits_exact 1234 (omega arith) (omega arith)

serialized_marker_bytes-le_example :
    serialized_marker_bytes "b1" (some (pos 3)) (pos 5) "now" (some "yes") false
    ≤ reserved_envelope_bytes (some "yes")
serialized_marker_bytes-le_example =
    serialized_marker_bytes-le "b1" 3 5 "now" (some "yes") batch time (omega arith) (omega arith)

reserved_envelope_sound_example :
    serialized_marker_bytes "b1" (some (pos 3)) (pos 5) "now" (some "yes") false
    ≤ marker_serialized_cap_bytes
reserved_envelope_sound_example =
    reserved_envelope_sound "b1" 3 5 "now" (some "yes") batch time (omega arith) (omega arith)
      passed

serialized_marker_bytes-exact_example :
    len (write (marker_payload "b1" (some (pos 3)) (pos 5) "now" (some "say \"yes\"") true))
    ≡ serialized_marker_bytes "b1" (some (pos 3)) (pos 5) "now" (some "say \"yes\"") true
serialized_marker_bytes-exact_example =
    serialized_marker_bytes-exact "b1" (some (pos 3)) (pos 5) "now" (some "say \"yes\"") true

-- How serde_json writes a text.
abbrev written : String → Option String
written s = some ("\"" ⧺ (escape s ⧺ "\""))

like_pattern_wildcards : like_pattern_for_batch_id written "a_b" ≡ "%a\\_b%"
unfolding like_pattern_for_batch_id like_escape strip_quotes strip_prefix strip_suffix is_special
    escape escape_char
like_pattern_wildcards = refl

prefilter_finds_marker_example :
    Matches
      (like_pattern_for_batch_id written "100%_\"b")
      (write (marker_payload "100%_\"b" (some (pos 3)) (pos 5) "now" (some "yes") false))
prefilter_finds_marker_example =
    prefilter_finds_marker written "100%_\"b" (some (pos 3)) (pos 5) "now" (some "yes") false refl
