-- ===== src/Synchronisation/History.antt =====
-- The history under the transactions of the workers' synchronisation.
pub mod Procedures
pub mod Handler
use agentbeacon.Synchronisation.Requests.{TurnMessagePayload, TurnResult}
use agentbeacon.Transition.Ratchet.{SessionKept, ExecutionKept, history, History-event}
use agentbeacon.Tx.Keeps.{
  Keeps-pure, Keeps-to_option, Keeps-bind, Keeps-asks, Keeps-gets, Keeps-modify,
}
use agentbeacon.Json.{Json}
use agentbeacon.Synchronisation.Results.{acknowledge, announce, receive, receive_from, take_results}
use agentbeacon.Transition.Ratchet.Steps.{
  Kept, stepping, Kept-update_sessions, Kept-update_executions, resumed,
}
use agentbeacon.Tables.{EventType, Session, Execution}
use agentbeacon.Synchronisation.Turns.{
  announce_turn, insert_error, insert_message, insert_messages, process_turn_result_in_tx,
  resume_for_turn, tell_of_turn, tell_parent_of_turn, tell_root, insert_numbered,
}
use agentbeacon.Synchronisation.Acks.{
  ack_row, clear_command, process_command_ack_in_tx, acknowledged,
}
use agentbeacon.Base.{Bool, String, Option, ℕ, List, some, arith, ℤ, false, none, true, ◌∷◌, []}
use agentbeacon.Statements.{touch_last_activity, verify_session_owner}
use agentbeacon.Statements.Sync.{
  append_message, find_command, find_reconcilable, find_sessions_for_worker,
  find_unassigned_with_work, insert_with_dedup, update_agent_session_id,
}

append_message-Kept :
    (x s : String) (t : EventType) (p : Json) (n : ℤ) → Kept (append_message x s t p n)
unfolding append_message
append_message-Kept x s t p n = Keeps-bind history _ _ (Keeps-asks history _) λ now.
    Keeps-bind history _ _ (Keeps-asks history _) λ written.
      Keeps-bind history _ _ (Keeps-gets history _) λ id.
        Keeps-bind history _ _ (Keeps-modify history _ (λ d. History-event d _))
          (λ u. Keeps-pure history _)

verify_session_owner-Kept : (x : String) (s : Option String) → Kept (verify_session_owner x s)
unfolding verify_session_owner
verify_session_owner-Kept x none = Keeps-pure history tt
verify_session_owner-Kept x (some s) = search stepping depth 8

insert_with_dedup-Kept :
    (x s : String) (t : EventType) (p : Json) (n : ℤ) → Kept (insert_with_dedup x s t p n)
unfolding insert_with_dedup
insert_with_dedup-Kept x s t p n =
    search (stepping, verify_session_owner-Kept, append_message-Kept) depth 12

pub find_sessions_for_worker-Kept : (id : String) → Kept (find_sessions_for_worker id)
unfolding find_sessions_for_worker
find_sessions_for_worker-Kept id = search stepping depth 8

pub find_unassigned-Kept : Kept find_unassigned_with_work
unfolding find_unassigned_with_work
find_unassigned-Kept = search stepping depth 8

pub find_reconcilable-Kept : Kept find_reconcilable
unfolding find_reconcilable
find_reconcilable-Kept = search stepping depth 8

pub find_command-Kept : (token : String) → Kept (find_command token)
unfolding find_command
find_command-Kept token = search stepping depth 8

pub update_agent_session_id-Kept : (id a w : String) → Kept (update_agent_session_id id a w)
unfolding update_agent_session_id
update_agent_session_id-Kept id a w = search (stepping, Kept-update_sessions, named) depth 12
  where
    named :
        (now : ℕ) (s : Session)
        → SessionKept s (record s { agent_session_id = some a; updated_at = now })
    named now s = ground arith

acked : (b : Bool) (now : ℕ) (s : Session) → SessionKept s (acknowledged b now s)
acked false now s = ground arith
acked true now s = ground arith

clear_command-Kept : (s : Session) (token : String) → Kept (clear_command s token)
unfolding clear_command
clear_command-Kept s token = search (stepping, Kept-update_sessions, acked) depth 12

ack_row-Kept : (w token : String) (s : Option Session) → Kept (ack_row w token s)
unfolding ack_row
ack_row-Kept w token none = Keeps-pure history _
ack_row-Kept w token (some s) = search (stepping, clear_command-Kept)

process_command_ack_in_tx-Kept : (w token : String) → Kept (process_command_ack_in_tx w token)
unfolding process_command_ack_in_tx
process_command_ack_in_tx-Kept w token = search (stepping, find_command-Kept, ack_row-Kept)

insert_numbered-Kept :
    (x : String) (s : Session) (p : Json) (n : Option ℤ) → Kept (insert_numbered x s p n)
unfolding insert_numbered
insert_numbered-Kept x s p none = search stepping depth 8
insert_numbered-Kept x s p (some n) = search (stepping, insert_with_dedup-Kept) depth 8

insert_message-Kept :
    (x : String) (s : Session) (m : TurnMessagePayload) → Kept (insert_message x s m)
unfolding insert_message
insert_message-Kept x s m = insert_numbered-Kept x s m.payload m.msg_seq

insert_messages-Kept :
    (x : String) (s : Session) (ms : List TurnMessagePayload) → Kept (insert_messages x s ms)
unfolding insert_messages
insert_messages-Kept x s [] = Keeps-pure history tt
insert_messages-Kept x s (m ∷ ms) =
    Keeps-bind history _ _ (insert_message-Kept x s m) (λ u. insert_messages-Kept x s ms)

insert_error-Kept : (x : String) (s : Session) (e k : Option String) → Kept (insert_error x s e k)
unfolding insert_error
insert_error-Kept x s none k = Keeps-pure history tt
insert_error-Kept x s (some e) k = search stepping depth 8

process_turn_result_in_tx-Kept :
    (x : String) (s : Session) (r : TurnResult) → Kept (process_turn_result_in_tx x s r)
unfolding process_turn_result_in_tx
process_turn_result_in_tx-Kept x s r =
    search (stepping, insert_messages-Kept, insert_error-Kept) depth 8

resume_for_turn-Kept : (x p : String) → Kept (resume_for_turn x p)
unfolding resume_for_turn
resume_for_turn-Kept x p = search (stepping, Kept-update_sessions, resumed) depth 12

tell_of_turn-Kept :
    (x : String) (s : Session) (p : String) (t : Session) → Kept (tell_of_turn x s p t)
unfolding tell_of_turn
tell_of_turn-Kept x s p t = search (stepping, resume_for_turn-Kept) depth 12

touch-Kept : (x : String) → Kept (touch_last_activity x)
unfolding touch_last_activity
touch-Kept x = search (stepping, Kept-update_executions, touched) depth 12
  where
    touched : (now : ℕ) (x : Execution) → ExecutionKept x (record x { last_activity_at = now })
    touched now x = ground arith

tell_root-Kept : (x : String) (s : Session) → Kept (tell_root x s)
unfolding tell_root
tell_root-Kept x s = search (stepping, touch-Kept) depth 8

tell_parent_of_turn-Kept :
    (x : String) (s : Session) (p : String) (t : Option Session)
    → Kept (tell_parent_of_turn x s p t)
unfolding tell_parent_of_turn
tell_parent_of_turn-Kept x s p none = Keeps-pure history tt
tell_parent_of_turn-Kept x s p (some t) = search (stepping, tell_of_turn-Kept)

announce_turn-Kept :
    (x : String) (c s : Session) (p : Option Session) → Kept (announce_turn x c s p)
unfolding announce_turn
announce_turn-Kept x c s none = tell_root-Kept x s
announce_turn-Kept x c s (some p) =
    search (stepping, Keeps-to_option, tell_parent_of_turn-Kept) depth 8

module _ (w x : String) where
  receive_from-Kept :
      (s : Session) (r : TurnResult) (t : Option Session) → Kept (receive_from w x s r t)
  unfolding receive_from
  receive_from-Kept s r none = Keeps-pure history _
  receive_from-Kept s r (some t) = search (stepping, process_turn_result_in_tx-Kept) depth 8

  receive-Kept : (r : Option TurnResult) (s : Option Session) → Kept (receive w x r s)
  unfolding receive
  receive-Kept none s = Keeps-pure history _
  receive-Kept (some r) none = Keeps-pure history _
  receive-Kept (some r) (some s) = search (stepping, Keeps-to_option, receive_from-Kept) depth 8

  announce-Kept : (b : Bool) (s c p : Option Session) → Kept (announce w x b s c p)
  unfolding announce
  announce-Kept true (some s) (some c) p = search (stepping, announce_turn-Kept)
  announce-Kept false s c p = Keeps-pure history _
  announce-Kept true none c p = Keeps-pure history _
  announce-Kept true (some s) none p = Keeps-pure history _

  acknowledge-Kept : (t : Option String) → Kept (acknowledge w x t)
  unfolding acknowledge
  acknowledge-Kept none = Keeps-pure history _
  acknowledge-Kept (some t) = search (stepping, process_command_ack_in_tx-Kept)

  pub take_results-Kept :
      (b : Bool) (r : Option TurnResult) (s p : Option Session) (t : Option String)
      → Kept (take_results w x b r s p t)
  unfolding take_results
  take_results-Kept b r s p t =
      search (stepping, receive-Kept, announce-Kept, acknowledge-Kept) depth 12
