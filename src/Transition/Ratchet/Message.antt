-- ===== src/Transition/Ratchet/Message.antt =====
-- The history under a message.
use agentbeacon.Base.{none, some, false, true}
use agentbeacon.Base.{◌≡◌, true, arith}
use agentbeacon.Resolution.Candidates.{ResolutionCandidate}
use agentbeacon.Tx.Keeps.{Keeps-pure, keeping, Keeps-throw}
use agentbeacon.Tables.{Escalation, InsertedEvent}
use agentbeacon.Transition.Message.{
  test_failpoint, find_marker_for_escalation_in_tx, refuse_resolved, check_resolution,
  resume_stopped, write_marker, write_delivered, touch_if, deliver, send_message, ResolutionMarker,
  SendMessageArgs,
}
use agentbeacon.Transition.Ratchet.{
  history, ExecutionKept, Execution, Bool, Option, Session, String, ℕ,
}
use agentbeacon.Statements.Keep.{reading}
use agentbeacon.Transition.Ratchet.Steps.{
  Kept, stepping, Kept-update_sessions, Kept-update_executions, resumed,
}
use agentbeacon.Statements.{touch_last_activity, execution_has_id}

test_failpoint-Kept : (site : String) → Kept (test_failpoint site)
unfolding test_failpoint
test_failpoint-Kept site = search keeping

find_marker-Kept : (x : Escalation) → Kept (find_marker_for_escalation_in_tx x)
unfolding find_marker_for_escalation_in_tx
find_marker-Kept x = search reading depth 8

refuse_resolved-Kept : (c : Option ResolutionCandidate) → Kept (refuse_resolved c)
unfolding refuse_resolved
refuse_resolved-Kept none = Keeps-pure history _
refuse_resolved-Kept (some c) = Keeps-throw history _

check_resolution-Kept : (x : String) (m : Option ResolutionMarker) → Kept (check_resolution x m)
unfolding check_resolution
check_resolution-Kept x none = Keeps-pure history _
check_resolution-Kept x (some m) = search (keeping, find_marker-Kept, refuse_resolved-Kept) depth 8

pub resume_stopped-Kept : (s : Session) (id : String) → Kept (resume_stopped s id)
unfolding resume_stopped
resume_stopped-Kept s id = search (stepping, Kept-update_sessions, resumed) depth 12

pub write_marker-Kept :
    (x : String) (row : InsertedEvent) (m : Option ResolutionMarker) → Kept (write_marker x row m)
unfolding write_marker
write_marker-Kept x row none = Keeps-pure history _
write_marker-Kept x row (some m) = search (stepping, test_failpoint-Kept) depth 12

pub write_delivered-Kept : (s : Session) (b : Bool) → Kept (write_delivered s b)
unfolding write_delivered
write_delivered-Kept s false = Keeps-pure history _
write_delivered-Kept s true = search (stepping, test_failpoint-Kept) depth 12

touched :
    (id : String) (now : ℕ) (x : Execution)
    → execution_has_id id x ≡ true
    → ExecutionKept x (record x { last_activity_at = now })
touched id now x h = ground arith

touch-Kept : (x : String) → Kept (touch_last_activity x)
unfolding touch_last_activity
touch-Kept x = search (stepping, Kept-update_executions, touched) depth 12

pub touch_if-Kept : (b : Bool) (x : String) → Kept (touch_if b x)
unfolding touch_if
touch_if-Kept false x = Keeps-pure history _
touch_if-Kept true x = search (keeping, touch-Kept)

deliver-Kept : (s t : Session) (m : SendMessageArgs) → Kept (deliver s t m)
unfolding deliver
deliver-Kept s t m =
    search (stepping, resume_stopped-Kept, write_marker-Kept, write_delivered-Kept, touch_if-Kept)
      depth 16

pub send_message-Kept : (s : Session) (m : SendMessageArgs) → Kept (send_message s m)
unfolding send_message
send_message-Kept s m = search (reading, check_resolution-Kept, deliver-Kept) depth 16
