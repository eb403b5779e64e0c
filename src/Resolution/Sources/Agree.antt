-- ===== src/Resolution/Sources/Agree.antt =====
-- The two readings of a logged answer, and what a valid live answer is.
use agentbeacon.Base.{none, some, true, Option, String, ◌≡◌, arith, Bool, filter_some}
use agentbeacon.Resolution.Sources.{
  AnswerSource, historical_answer_source, historical_answer_source_ref,
}
use agentbeacon.Resolution.Parts.{parse_parts, top_role, Payload}

abbrev pub source_of : Option (String × Option String) → Option AnswerSource
source_of none = none
source_of (some (b, t)) = some (record { batch_id = b; answer_text = t })

-- What is read of a payload is what is read of its role and its parts.
pub historical_sources_agree :
    (payload : Payload)
    → historical_answer_source payload ≡ elim (parse_parts payload) [
      | none ↦ none
      | some parts ↦ source_of (historical_answer_source_ref (top_role payload) parts)
    ]
unfolding historical_answer_source historical_answer_source_ref
historical_sources_agree payload = ground arith

filter_some-holds :
    {A : Type 0} (p : A → Bool) (o : Option A) (a : A) → filter_some p o ≡ some a → p a ≡ true
filter_some-holds p none a h = absurd (cc)
filter_some-holds p (some b) a h = ground arith
