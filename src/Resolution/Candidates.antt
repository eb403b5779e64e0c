-- ===== src/Resolution/Candidates.antt =====
-- scheduler/src/resolution.rs: the resolutions that an event carries, and escalation batches.
use agentbeacon.Base.{
  ℕ, suc, Bool, false, not, ◌&&◌, ◌||◌, List, [], ◌∷◌, Option, none, some, String, ℤ, pos, ltb_ℤ,
  eq_ℤ, unwrap_or, filter_some, str_eq, is_empty, is_some_text, ltb, if◌then◌else◌, ◌>>=◌,
}
use agentbeacon.Json.{Json, get, get_str, as_bool, as_array}
use agentbeacon.Resolution.Parts.{
  Payload, role_agent, escalate_type, answer_type, dismiss_type, parse_parts, top_role,
  parse_role_and_parts, part_data, embedded_resolved_event_id, escalation_event_id,
  answer_part_count,
}

pub record OrderKey : Type 0 where
  pub primary_id : ℤ
  pub own_event_id : ℤ
  pub part_ordinal : ℤ

-- The derived `Ord`: lexicographic over the fields.
unfoldable pub key_lt : OrderKey → OrderKey → Bool
key_lt a b =
    ltb_ℤ a.primary_id b.primary_id
    || (eq_ℤ a.primary_id b.primary_id
        && (ltb_ℤ a.own_event_id b.own_event_id
            || (eq_ℤ a.own_event_id b.own_event_id && ltb_ℤ a.part_ordinal b.part_ordinal)))

pub data ResolutionKind : Type 0 where
  answer dismiss : ResolutionKind

pub record ResolutionCandidate : Type 0 where
  pub kind : ResolutionKind
  pub batch_id : String
  pub escalation_event_id : Option ℤ
  pub order_key : OrderKey
  pub answer_text : Option String
  pub resolved_at_raw : Option String
  pub embedded_resolved_event_id : Option ℤ
  pub truncated : Bool

unfoldable pub answer_candidate : Json → String → ℤ → ℕ → ResolutionCandidate
answer_candidate d batch_id own_event_id ordinal =
    let embedded = embedded_resolved_event_id d in
    record {
      kind = answer;
      batch_id = batch_id;
      escalation_event_id = escalation_event_id d;
      order_key = record {
        primary_id = unwrap_or embedded own_event_id;
        own_event_id = own_event_id;
        part_ordinal = pos ordinal;
      };
      answer_text = filter_some (λ s. not (is_empty s)) (get_str "answer_text" d);
      resolved_at_raw = get_str "resolved_at" d;
      embedded_resolved_event_id = embedded;
      truncated = unwrap_or (do t ← get "truncated" d; as_bool t) false;
    }

unfoldable pub dismiss_candidate : Json → String → ℤ → ℕ → ResolutionCandidate
dismiss_candidate d batch_id own_event_id ordinal = record {
  kind = dismiss;
  batch_id = batch_id;
  escalation_event_id = escalation_event_id d;
  order_key = record {
    primary_id = own_event_id;
    own_event_id = own_event_id;
    part_ordinal = pos ordinal;
  };
  answer_text = none;
  resolved_at_raw = none;
  embedded_resolved_event_id = none;
  truncated = false;
}

-- The body of the loop over the parts: at most one candidate for each.
unfoldable pub part_candidate : ℤ → ℕ → Json → Option ResolutionCandidate
unfolding answer_candidate dismiss_candidate
part_candidate own_event_id ordinal part = do
  d ← part_data part
  batch_id ← get_str "batch_id" d
  kind ← get_str "type" d
  if str_eq kind answer_type
      then some (answer_candidate d batch_id own_event_id ordinal)
      else if str_eq kind dismiss_type
      then some (dismiss_candidate d batch_id own_event_id ordinal)
      else none

unfoldable pub candidates_from : ℤ → ℕ → List Json → List ResolutionCandidate
candidates_from own_event_id ordinal [] = []
candidates_from own_event_id ordinal (p ∷ ps) =
    let rest = candidates_from own_event_id (suc ordinal) ps in
    elim (part_candidate own_event_id ordinal p) [ none ↦ rest | some c ↦ c ∷ rest ]

unfoldable pub resolution_candidates : List Json → ℤ → List ResolutionCandidate
unfolding candidates_from part_candidate
resolution_candidates parts own_event_id =
    if ltb 1 (answer_part_count parts) then [] else candidates_from own_event_id 0 parts

pub record EscalatePart : Type 0 where
  pub batch_id : String
  pub part_ordinal : ℤ

escalate_part : ℕ → Json → Option EscalatePart
escalate_part ordinal part = do
  d ← part_data part
  kind ← get_str "type" d
  batch_id ← get_str "batch_id" d
  if str_eq kind escalate_type
      then some (record { batch_id = batch_id; part_ordinal = pos ordinal })
      else none

escalate_parts_from : ℕ → List Json → List EscalatePart
escalate_parts_from ordinal [] = []
escalate_parts_from ordinal (p ∷ ps) =
    let rest = escalate_parts_from (suc ordinal) ps in
    elim (escalate_part ordinal p) [ none ↦ rest | some e ↦ e ∷ rest ]

unfoldable pub escalate_parts : Payload → List EscalatePart
unfolding escalate_parts_from escalate_part
escalate_parts payload =
    if is_some_text (top_role payload) role_agent
    then elim (parse_parts payload) [ none ↦ [] | some parts ↦ escalate_parts_from 0 parts ]
    else []

pub record EscalationData : Type 0 where
  pub batch_id : String
  pub importance : String
  pub questions : List Json

questions_of : Json → List Json
questions_of d = unwrap_or (do q ← get "questions" d; as_array q) []

-- A part that is an escalation: `none` where it names no batch or asks nothing.
escalation_of : Json → Option EscalationData
escalation_of d = do
  batch_id ← get_str "batch_id" d
  elim (questions_of d) [
    | [] ↦ none
    | q ∷ qs ↦ some (record {
      batch_id = batch_id;
      importance = unwrap_or (get_str "importance" d) "blocking";
      questions = q ∷ qs;
    })
  ]

first_escalation : List Json → Option EscalationData
first_escalation [] = none
first_escalation (p ∷ ps) =
    let rest = first_escalation ps in
    do
      d ← part_data p
      if is_some_text (get_str "type" d) escalate_type then escalation_of d else rest

unfoldable pub escalation_data : Payload → Option EscalationData
unfolding first_escalation escalation_of questions_of
escalation_data payload = do
  (role, parts) ← parse_role_and_parts payload
  if is_some_text role role_agent then first_escalation parts else none
