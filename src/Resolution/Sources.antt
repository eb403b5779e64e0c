-- ===== src/Resolution/Sources.antt =====
-- scheduler/src/resolution.rs: the messages that answer a question, in the log and on the live route.
pub mod Agree
use agentbeacon.Base.{
  none, some, [], ◌∷◌, true, false, not, ◌&&◌, ◌||◌, ◌*◌, ◌+◌, ◌-◌, suc, zero, if◌then◌else◌, ◌>>=◌,
  refl, code, leb, ltb, ◌==◌, i64_max, Bool, List, Option, String, ℕ, ℤ, is_some_text, pos,
  filter_some, negsuc, is_positive,
}
use agentbeacon.Json.{Json, get_str}
use agentbeacon.Resolution.Parts.{
  Payload, role_user, answer_type, part_data, has_sender_part, answer_part_count, find_map,
  answer_text_from_parts, parts_domain_valid, top_role, parse_parts,
}

pub record AnswerSource : Type 0 where
  pub batch_id : String
  pub answer_text : Option String

pub data AnswerValidation : Type 0 where
  not_an_answer multiple_parts missing_escalation_event_id sender_present malformed_parts :
      AnswerValidation
  valid : ℤ → Option String → AnswerValidation

-- `data.batch_id`, of a part that answers.
unfoldable pub answer_batch_id : Json → Option String
answer_batch_id part = do
  d ← part_data part
  if is_some_text (get_str "type" d) answer_type then get_str "batch_id" d else none

unfoldable pub historical_answer_source_ref :
    Option String → List Json → Option (String × Option String)
unfolding has_sender_part answer_part_count find_map answer_batch_id answer_text_from_parts
historical_answer_source_ref role parts =
    if not (is_some_text role role_user)
    then none
    else if has_sender_part parts || not (answer_part_count parts == 1)
    then none
    else (do
      batch_id ← find_map answer_batch_id parts
      some (batch_id, answer_text_from_parts parts))

unfoldable pub historical_answer_source : Payload → Option AnswerSource
unfolding has_sender_part answer_part_count find_map answer_batch_id answer_text_from_parts top_role
    parse_parts
historical_answer_source payload =
    if not (is_some_text (top_role payload) role_user) then none else (do
      parts ← parse_parts payload
      if has_sender_part parts || not (answer_part_count parts == 1) then none else do
        batch_id ← find_map answer_batch_id parts
        some (record { batch_id = batch_id; answer_text = answer_text_from_parts parts }))

-- The digits of a decimal number, after those that gave `n`.
unfoldable pub decimal : ℕ → String → Option ℕ
decimal n String.[] = some n
decimal n (String.◌∷◌ c s) =
    let rest = decimal (10 * n + (code c - b'0')) s in
    if leb b'0' (code c) && leb (code c) b'9' then rest else none

-- `str::parse::<i64>`, without the sign: at least one digit.
unfoldable pub magnitude : String → Option ℕ
unfolding decimal
magnitude String.[] = none
magnitude (String.◌∷◌ c s) = decimal 0 (String.◌∷◌ c s)

abbrev pub in_i64 : Bool → ℕ → Option ℤ
in_i64 negative n =
    if negative
    then (if leb n (suc i64_max) then some (if n == 0 then pos 0 else negsuc (n - 1)) else none)
    else (if leb n i64_max then some (pos n) else none)

unfoldable pub parse_i64 : String → Option ℤ
unfolding magnitude
parse_i64 String.[] = none
parse_i64 (String.◌∷◌ c s) =
    if code c == b'-'
    then (do n ← magnitude s; in_i64 true n)
    else if code c == b'+'
    then (do n ← magnitude s; in_i64 false n)
    else (do n ← magnitude (String.◌∷◌ c s); in_i64 false n)

-- `data.escalation_event_id`, of a part that answers: a text that reads as a positive `i64`.
unfoldable pub answer_escalation_id : Json → Option ℤ
unfolding parse_i64
answer_escalation_id part = do
  d ← part_data part
  if is_some_text (get_str "type" d) answer_type
      then (do t ← get_str "escalation_event_id" d; filter_some is_positive (parse_i64 t))
      else none

unfoldable pub validate_live_answer : List Json → AnswerValidation
unfolding has_sender_part answer_part_count find_map answer_escalation_id answer_text_from_parts
    parts_domain_valid
validate_live_answer parts =
    let count = answer_part_count parts in
    if count == 0
    then not_an_answer
    else if ltb 1 count
    then multiple_parts
    else if not (parts_domain_valid parts)
    then malformed_parts
    else elim (find_map answer_escalation_id parts) [
      | none ↦ missing_escalation_event_id
      | some id ↦
          if has_sender_part parts then sender_present else valid id (answer_text_from_parts parts)
    ]
