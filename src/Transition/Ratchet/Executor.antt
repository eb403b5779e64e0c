-- ===== src/Transition/Ratchet/Executor.antt =====
-- The history under a worker's report, a detected crash and a recovery.
use agentbeacon.Base.{◌+◌, none}
use agentbeacon.Tables.{crashed, idle, running, unassigned}
use agentbeacon.Tx.Keeps.{Keeps-pure}
use agentbeacon.Tables.{ExState, crashed, unassigned}
use agentbeacon.Transition.Executor.{
  announce_loss, announce_state, write_report, set_executor_state, reported, cleared_command,
  CrashMeta,
}
use agentbeacon.Transition.Recovery.{detect_crash, announce_recovery, retry_recovery}
use agentbeacon.Transition.Ratchet.{history, SessionKept, Session, ℕ, Option, String, arith, none}
use agentbeacon.Statements.Keep.{reading}
use agentbeacon.Transition.Ratchet.Steps.{Kept, stepping, Kept-update_sessions}

announce_loss-Kept : (x : ExState) (c s : Session) → Kept (announce_loss x c s)
unfolding announce_loss
announce_loss-Kept crashed c s = search stepping depth 8
announce_loss-Kept idle c s = Keeps-pure history _
announce_loss-Kept running c s = Keeps-pure history _
announce_loss-Kept unassigned c s = Keeps-pure history _

announce_state-Kept :
    (x y : ExState) (s : Session) (m : Option CrashMeta) → Kept (announce_state x y s m)
unfolding announce_state
announce_state-Kept crashed y s m = search stepping depth 8
announce_state-Kept idle y s m = search stepping depth 8
announce_state-Kept running y s m = search stepping depth 8
announce_state-Kept unassigned y s m = Keeps-pure history _

reported_row :
    (x : ExState) (c : Session) (now : ℕ) (s : Session) → SessionKept s (reported x c now s)
unfolding reported
reported_row crashed c now s = ground arith
reported_row idle c now s = ground arith
reported_row running c now s = ground arith
reported_row unassigned c now s = ground arith

write_report-Kept :
    (s : Session) (x : ExState) (w : String) (m : Option CrashMeta) → Kept (write_report s x w m)
unfolding write_report
write_report-Kept s x w m =
    search (stepping, announce_loss-Kept, announce_state-Kept, Kept-update_sessions, reported_row)
      depth 16

pub set_executor_state-Kept :
    (s : Session) (x : ExState) (w : String) (m : Option CrashMeta)
    → Kept (set_executor_state s x w m)
unfolding set_executor_state
set_executor_state-Kept s x w m = search (reading, write_report-Kept) depth 12

lost :
    (now : ℕ) (s : Session)
    → SessionKept s (record (cleared_command s) {
      executor_state = crashed;
      worker_id = none;
      updated_at = now;
    })
lost now s = ground arith

pub detect_crash-Kept : (s : Session) → Kept (detect_crash s)
unfolding detect_crash
detect_crash-Kept s = search (stepping, Kept-update_sessions, lost) depth 16

announce_recovery-Kept : (u s : Session) → Kept (announce_recovery u s)
unfolding announce_recovery
announce_recovery-Kept u s = search stepping depth 8

retried :
    (now : ℕ) (s : Session)
    → SessionKept s (record s {
      executor_state = unassigned;
      recovery_attempts = s.recovery_attempts + 1;
      updated_at = now;
    })
retried now s = ground arith

pub retry_recovery-Kept : (s : Session) → Kept (retry_recovery s)
unfolding retry_recovery
retry_recovery-Kept s =
    search (stepping, Kept-update_sessions, retried, announce_recovery-Kept) depth 16
