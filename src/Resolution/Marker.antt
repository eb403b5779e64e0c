-- ===== src/Resolution/Marker.antt =====
-- scheduler/src/resolution.rs: the marker payloads that the scheduler writes.
use agentbeacon.Base.{Bool, true, Option, none, some, String, ℤ, if◌then◌else◌}
use agentbeacon.Json.{Json, Fields, int, bool, num, str, arr, obj, nil, cons, end, field}
use agentbeacon.Resolution.Parts.{answer_type, dismiss_type, role_user}

abbrev pub optional_id : String → Option ℤ → Fields → Fields
optional_id key none rest = rest
optional_id key (some id) rest = field key (num (int id)) rest

abbrev pub optional_text : String → Option String → Fields → Fields
optional_text key none rest = rest
optional_text key (some t) rest = field key (str t) rest

unfoldable pub marker_data : String → Option ℤ → ℤ → String → Option String → Bool → Json
marker_data batch_id escalation_event_id resolved_event_id resolved_at answer_text truncated = obj (
    field "type" (str answer_type) (
      field "batch_id" (str batch_id) (
        field "resolved_event_id" (num (int resolved_event_id)) (
          field "resolved_at" (str resolved_at) (
            optional_id "escalation_event_id" escalation_event_id (
              optional_text "answer_text" answer_text
                (if truncated then field "truncated" (bool true) end else end)))))))

unfoldable pub marker_payload : String → Option ℤ → ℤ → String → Option String → Bool → Json
unfolding marker_data
marker_payload batch_id escalation_event_id resolved_event_id resolved_at answer_text truncated =
    let d =
      marker_data batch_id escalation_event_id resolved_event_id resolved_at answer_text
        truncated in
    obj (field "parts" (arr (cons (obj (field "data" d end)) nil)) end)

unfoldable pub dismiss_payload : String → ℤ → Json
dismiss_payload batch_id escalation_event_id =
    let d = obj (
      field "type" (str dismiss_type) (
        field "batch_id" (str batch_id)
          (field "escalation_event_id" (num (int escalation_event_id)) end))) in
    obj
      (field "role" (str role_user) (field "parts" (arr (cons (obj (field "data" d end)) nil)) end))
