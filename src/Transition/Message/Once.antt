-- ===== src/Transition/Message/Once.antt =====
-- A decision takes one answer: once a message has answered it, no later message can.
use agentbeacon.Statements.{next_event}
use agentbeacon.Tables.{Db, Event, platform}
use agentbeacon.Base.{some, false, ℕ, ℤ, pos, filter_some, not, is_empty, List}
use agentbeacon.Transition.Message.{ResolutionMarker, InsertedEvent, Session, marker_payload}
use agentbeacon.Transition.Message.Accepted.{Accepted}
use agentbeacon.Resolution.Candidates.{ResolutionCandidate, answer}

-- The marker that a message writes for an escalation.
abbrev marker_event : Session → ResolutionMarker → InsertedEvent → ℕ → Db → Event
marker_event s m row now d =
    next_event s.execution_id (some m.escalation.session_id) platform
      (marker_payload m.escalation.«data».batch_id (some m.escalation.id) row.id row.created_at
        m.answer_text false)
      now d

abbrev marker_candidate : ResolutionMarker → InsertedEvent → ℤ → ResolutionCandidate
marker_candidate m row own = record {
  kind = answer;
  batch_id = m.escalation.«data».batch_id;
  escalation_event_id = some m.escalation.id;
  order_key = record { primary_id = row.id; own_event_id = own; part_ordinal = pos 0 };
  answer_text = filter_some (λ s. not (is_empty s)) m.answer_text;
  resolved_at_raw = some row.created_at;
  embedded_resolved_event_id = some row.id;
  truncated = false;
}
