-- ===== src/Transition/Markers.antt =====
-- scheduler/src/db/events.rs: escalations, and the marker that resolves one.
pub mod Found
pub mod Least
use agentbeacon.Base.{
  ℕ, Bool, true, false, ◌&&◌, List, [], ◌∷◌, Option, none, some, String, ℤ, ltb_ℤ, eq_ℤ, str_eq,
  is_some_text, filter_where, if◌then◌else◌, ◌>>=◌,
}
use agentbeacon.Resolution.Parts.{parse_parts}
use agentbeacon.Resolution.Candidates.{
  key_lt, ResolutionKind, answer, dismiss, ResolutionCandidate, resolution_candidates,
  escalation_data,
}
use agentbeacon.Tables.{Event, EventType, platform, Escalation}

abbrev pub is_platform : EventType → Bool
is_platform platform = true
is_platform _ = false

unfoldable pub as_escalation : Event → Option Escalation
as_escalation event =
    if is_platform event.event_type
    then (do
      session_id ← event.session_id
      batch ← escalation_data event.payload
      some (record {
        id = event.id;
        execution_id = event.execution_id;
        session_id = session_id;
        created_at = event.created_at;
        «data» = batch;
      }))
    else none

abbrev pub names_escalation : Option ℤ → ℤ → Bool
names_escalation none id = false
names_escalation (some named) id = eq_ℤ named id

-- A dismissal is resolved when its event was written.
unfoldable pub stamped :
    (ℕ → String) → Event → ResolutionCandidate → ResolutionKind → ResolutionCandidate
stamped rfc3339 event c answer = c
stamped rfc3339 event c dismiss = record c { resolved_at_raw = some (rfc3339 event.created_at) }

-- The candidate with the smaller key; the one that is there wins a tie.
unfoldable pub better :
    Option ResolutionCandidate → ResolutionCandidate → Option ResolutionCandidate
better none c = some c
better (some b) c = if key_lt c.order_key b.order_key then some c else some b

unfoldable pub best_candidate :
    (ℕ → String)
    → ℤ
    → Event
    → Option ResolutionCandidate
    → List ResolutionCandidate
    → Option ResolutionCandidate
unfolding better stamped
best_candidate rfc3339 escalation_id event best [] = best
best_candidate rfc3339 escalation_id event best (c ∷ cs) =
    best_candidate rfc3339 escalation_id event
      (if names_escalation c.escalation_event_id escalation_id
        then better best (stamped rfc3339 event c c.kind)
        else best)
      cs

-- The candidates of one event, if it belongs to the session of the escalation.
unfoldable pub event_candidates : String → Event → List ResolutionCandidate
event_candidates session_id event =
    if is_some_text event.session_id session_id
    then elim (parse_parts event.payload) [
      | none ↦ []
      | some parts ↦ resolution_candidates parts event.id
    ]
    else []

unfoldable pub best_marker_from :
    (ℕ → String) → Escalation → Option ResolutionCandidate → List Event → Option ResolutionCandidate
unfolding best_candidate event_candidates
best_marker_from rfc3339 escalation best [] = best
best_marker_from rfc3339 escalation best (event ∷ rest) =
    best_marker_from rfc3339 escalation
      (best_candidate rfc3339 escalation.id event best
        (event_candidates escalation.session_id event))
      rest

unfoldable pub best_marker : (ℕ → String) → List Event → Escalation → Option ResolutionCandidate
unfolding best_marker_from
best_marker rfc3339 events escalation = best_marker_from rfc3339 escalation none events

-- The platform events of the escalation's execution that came after it.
abbrev pub follows : Escalation → Event → Bool
follows escalation event =
    str_eq event.execution_id escalation.execution_id
    && is_platform event.event_type
    && ltb_ℤ escalation.id event.id

unfoldable pub marker_of : (ℕ → String) → List Event → Escalation → Option ResolutionCandidate
unfolding best_marker filter_where
marker_of rfc3339 events escalation =
    best_marker rfc3339 (filter_where (follows escalation) events) escalation
