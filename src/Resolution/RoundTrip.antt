-- ===== src/Resolution/RoundTrip.antt =====
-- The marker payloads, read back.
use agentbeacon.Base.{
  none, some, [], false, true, pos, negsuc, Option, count_where, ℤ, Bool, List, String, ltb, ◌&&◌,
  ◌≡◌, filter_some, leb, i64_max, not, is_empty, ◌∷◌, arith,
}
use agentbeacon.Resolution.Parts.{
  Payload, parse_parts, answer_part_count, embedded_resolved_event_id, escalation_event_id,
  part_data_type, positive_i64, data_is_valid, parts_domain_valid,
}
use agentbeacon.Resolution.Candidates.{
  ResolutionCandidate, resolution_candidates, candidates_from, part_candidate, answer_candidate,
  dismiss_candidate, answer, dismiss,
}
use agentbeacon.Resolution.Marker.{marker_data, marker_payload, dismiss_payload}

-- What the `i64` of an event's id can be.
abbrev pub is_event_id : ℤ → Bool
is_event_id (pos n) = ltb 0 n && leb n i64_max
is_event_id (negsuc n) = false

abbrev pub is_optional_event_id : Option ℤ → Bool
is_optional_event_id none = true
is_optional_event_id (some id) = is_event_id id

-- The candidates that an event's payload gives.
abbrev pub read_candidates : Payload → ℤ → List ResolutionCandidate
read_candidates payload own_event_id = elim (parse_parts payload) [
  | none ↦ []
  | some parts ↦ resolution_candidates parts own_event_id
]

-- A marker payload reads back, as the event that holds it, as one answer with the batch, the
-- escalation, the resolved event, the time and the flag that it was made from, and with the text
-- unless that is empty. Both ids are positive `i64`s, and the escalation may be left out.
pub marker_roundtrip :
    (batch_id : String) (escalation : Option ℤ) (resolved : ℤ) (at : String) (text : Option String)
    (truncated : Bool) (own : ℤ)
    → is_optional_event_id escalation ≡ true
    → is_event_id resolved ≡ true
    → read_candidates (some (marker_payload batch_id escalation resolved at text truncated)) own
      ≡ (record {
        kind = answer;
        batch_id = batch_id;
        escalation_event_id = escalation;
        order_key = record { primary_id = resolved; own_event_id = own; part_ordinal = pos 0 };
        answer_text = filter_some (λ s. not (is_empty s)) text;
        resolved_at_raw = some at;
        embedded_resolved_event_id = some resolved;
        truncated = truncated;
      })
        ∷ []
unfolding marker_payload marker_data parse_parts data_is_valid resolution_candidates candidates_from
    part_candidate answer_candidate answer_part_count part_data_type embedded_resolved_event_id
    escalation_event_id positive_i64 count_where parts_domain_valid
marker_roundtrip b none (pos r) at none false own h k = ground arith
marker_roundtrip b none (pos r) at none true own h k = ground arith
marker_roundtrip b none (pos r) at (some t) false own h k = ground arith
marker_roundtrip b none (pos r) at (some t) true own h k = ground arith
marker_roundtrip b (some (pos e)) (pos r) at none false own h k = ground arith
marker_roundtrip b (some (pos e)) (pos r) at none true own h k = ground arith
marker_roundtrip b (some (pos e)) (pos r) at (some t) false own h k = ground arith
marker_roundtrip b (some (pos e)) (pos r) at (some t) true own h k = ground arith
marker_roundtrip b none (negsuc r) at t u own h k = absurd (cc)
marker_roundtrip b (some (negsuc r)) s at t u own h k = absurd (cc)
marker_roundtrip b (some (pos e)) (negsuc r) at t u own h k = absurd (cc)

-- A dismissal payload reads back as one dismissal of its batch and escalation, ordered by the event
-- that holds it. The escalation's id is a positive `i64`.
pub dismiss_roundtrip :
    (batch_id : String) (escalation own : ℤ)
    → is_event_id escalation ≡ true
    → read_candidates (some (dismiss_payload batch_id escalation)) own
      ≡ (record {
        kind = dismiss;
        batch_id = batch_id;
        escalation_event_id = some escalation;
        order_key = record { primary_id = own; own_event_id = own; part_ordinal = pos 0 };
        answer_text = none;
        resolved_at_raw = none;
        embedded_resolved_event_id = none;
        truncated = false;
      })
        ∷ []
unfolding dismiss_payload parse_parts data_is_valid resolution_candidates candidates_from
    part_candidate dismiss_candidate answer_part_count part_data_type escalation_event_id
    positive_i64 count_where parts_domain_valid
dismiss_roundtrip b (pos e) own h = ground arith
dismiss_roundtrip b (negsuc e) own h = absurd (cc)
