-- ===== src/Resolution/Parts.antt =====
-- scheduler/src/resolution.rs: the parts of an event payload.
-- A payload column holds text. The model keeps what `serde_json::from_str` reads from it, `none`
-- where the text is no JSON.
use agentbeacon.Base.{
  ℕ, Bool, true, ◌&&◌, not, List, [], ◌∷◌, Option, none, some, String, ℤ, is_positive, is_empty,
  is_some_text, filter_some, any, count_where, if◌then◌else◌, ◌>>=◌,
}
use agentbeacon.Json.{Json, num, get, get_str, is_object, as_array, as_i64}

abbrev pub Payload : Type 0
Payload = Option Json

abbrev pub role_agent : String
role_agent = "ROLE_AGENT"

abbrev pub role_user : String
role_user = "ROLE_USER"

abbrev pub escalate_type : String
escalate_type = "escalate"

abbrev pub answer_type : String
answer_type = "question_answer"

abbrev pub dismiss_type : String
dismiss_type = "question_dismiss"

abbrev pub sender_type : String
sender_type = "sender"

-- The `data` member of a part is absent or an object.
unfoldable pub data_is_valid : Option Json → Bool
data_is_valid none = true
data_is_valid (some d) = is_object d

unfoldable pub parts_domain_valid : List Json → Bool
unfolding data_is_valid
parts_domain_valid [] = true
parts_domain_valid (p ∷ ps) = is_object p && data_is_valid (get "data" p) && parts_domain_valid ps

unfoldable pub parse_parts : Payload → Option (List Json)
unfolding parts_domain_valid
parse_parts payload = do
  value ← payload
  member ← get "parts" value
  parts ← as_array member
  if parts_domain_valid parts then some parts else none

unfoldable pub top_role : Payload → Option String
top_role payload = do value ← payload; get_str "role" value

unfoldable pub parse_role_and_parts : Payload → Option (Option String × List Json)
unfolding parse_parts top_role
parse_role_and_parts payload = do parts ← parse_parts payload; some (top_role payload, parts)

abbrev pub part_data : Json → Option Json
part_data part = get "data" part

unfoldable pub part_data_type : Json → Option String
part_data_type part = do d ← part_data part; get_str "type" d

-- A member that is a positive JSON integer within the range of `i64`.
unfoldable pub positive_i64 : Option Json → Option ℤ
positive_i64 (some (num n)) = filter_some is_positive (as_i64 n)
positive_i64 _ = none

unfoldable pub embedded_resolved_event_id : Json → Option ℤ
unfolding positive_i64
embedded_resolved_event_id d = positive_i64 (get "resolved_event_id" d)

unfoldable pub escalation_event_id : Json → Option ℤ
unfolding positive_i64
escalation_event_id d = positive_i64 (get "escalation_event_id" d)

unfoldable pub find_map {ℓ} : {A : Type ℓ} → (Json → Option A) → List Json → Option A
find_map f [] = none
find_map f (p ∷ ps) = let rest = find_map f ps in elim (f p) [ some a ↦ some a | none ↦ rest ]

unfoldable pub answer_text_from_parts : List Json → Option String
unfolding find_map
answer_text_from_parts parts = filter_some (λ s. not (is_empty s)) (find_map (get_str "text") parts)

unfoldable pub has_sender_part : List Json → Bool
unfolding any part_data_type
has_sender_part parts = any (λ p. is_some_text (part_data_type p) sender_type) parts

unfoldable pub answer_part_count : List Json → ℕ
unfolding count_where part_data_type
answer_part_count parts = count_where (λ p. is_some_text (part_data_type p) answer_type) parts
