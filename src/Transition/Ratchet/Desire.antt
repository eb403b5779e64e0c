-- ===== src/Transition/Ratchet/Desire.antt =====
-- The history under a change of the desired state.
use agentbeacon.Transition.Desire.Reads
use agentbeacon.Transition.Ratchet.{history, SessionKept}
use agentbeacon.Statements.{session_has_id}
use agentbeacon.Base.{
  none, String, Bool, Option, ℕ, ◌&&◌, ◌≡◌, false, not, true, arith, ◌||◌, is_none, some,
}
use agentbeacon.Tables.{
  Outcome, Session, Desired, is_terminate, is_run, is_crashed, run, stop, terminate,
}
use agentbeacon.Transition.Desire.{
  notify_parent, set_run, set_stop, set_desired, set_terminate, terminate_failed, write_desired,
  write_outcome, end_session,
}
use agentbeacon.Tx.Keeps.{Keeps-pure, keeping}
use agentbeacon.Statements.Keep.{reading}
use agentbeacon.Transition.Ratchet.Steps.{
  Kept, stepping, Kept-update_sessions, write_execution_terminal_in_tx-Kept,
  write_parent_notification_in_tx-Kept,
}

pub notify_parent-Kept : (s : Session) (p : Option String) (t : String) → Kept (notify_parent s p t)
unfolding notify_parent
notify_parent-Kept s none t = Keeps-pure history _
notify_parent-Kept s (some p) t = write_parent_notification_in_tx-Kept s p t

pub write_outcome-Kept : (s : Session) (o : Option Outcome) → Kept (write_outcome s o)
unfolding write_outcome
write_outcome-Kept s none = Keeps-pure history _
write_outcome-Kept s (some o) = search (reading, write_execution_terminal_in_tx-Kept) depth 8

terminated :
    (o : Outcome) (by : String) (now : ℕ) (s : Session)
    → is_terminate s.desired ≡ false
    → SessionKept s (record s {
      desired = terminate;
      outcome = some o;
      desired_by = some by;
      desired_at = some now;
      updated_at = now;
      completed_at = some now;
    })
terminated o by now s h = ground arith

module _ (test : Session → Bool)
    (live : (s : Session) → test s ≡ true → is_terminate s.desired ≡ false) where
  end_session-Kept :
      (s : Session) (label : String) (o : Outcome) (by : String)
      → Kept (end_session s label test o by)
  unfolding end_session
  end_session-Kept s label o by = search (stepping, Kept-update_sessions, ended_row) depth 12
    where
      ended_row :
          (now : ℕ) (t : Session)
          → test t ≡ true
          → SessionKept t (record t {
            desired = terminate;
            outcome = some o;
            desired_by = some by;
            desired_at = some now;
            updated_at = now;
            completed_at = some now;
          })
      ended_row now t h = terminated o by now t (live t h)

not_terminated :
    (id : String) (s : Session)
    → (session_has_id id s && not (is_terminate s.desired)) ≡ true
    → is_terminate s.desired ≡ false
not_terminated id s h = ground arith

set_terminate-Kept : (s : Session) (by : String) (p : Option String) → Kept (set_terminate s by p)
unfolding set_terminate
set_terminate-Kept s by p =
    search
      (
        stepping,
        Reads.execution_outcome-Reads history,
        end_session-Kept _ (not_terminated s.id),
        notify_parent-Kept,
        write_outcome-Kept,
      )
      depth 16

stopped :
    (id by : String) (now : ℕ) (s : Session)
    → (session_has_id id s && is_run s.desired) ≡ true
    → SessionKept s
        (record s { desired = stop; desired_by = some by; desired_at = some now; updated_at = now })
stopped id by now s h = ground arith

set_stop-Kept : (s : Session) (by : String) (p : Option String) → Kept (set_stop s by p)
unfolding set_stop
set_stop-Kept s by p = search (stepping, Kept-update_sessions, stopped, notify_parent-Kept) depth 16

started :
    (id by : String) (now : ℕ) (s : Session)
    → (session_has_id id s && not (is_terminate s.desired)) ≡ true
    → SessionKept s
        (record s { desired = run; desired_by = some by; desired_at = some now; updated_at = now })
started id by now s h = ground arith

set_run-Kept : (s : Session) (by : String) → Kept (set_run s by)
unfolding set_run
set_run-Kept s by = search (stepping, Kept-update_sessions, started) depth 12

write_desired-Kept :
    (s : Session) (d : Desired) (by : String) (p : Option String) → Kept (write_desired s d by p)
unfolding write_desired
write_desired-Kept s terminate by p = set_terminate-Kept s by p
write_desired-Kept s stop by p = set_stop-Kept s by p
write_desired-Kept s run by p = set_run-Kept s by

pub set_desired-Kept : (s : Session) (d : Desired) (by : String) → Kept (set_desired s d by)
unfolding set_desired
set_desired-Kept s d by =
    search (keeping, Reads.parent_for_notify-Reads history, write_desired-Kept) depth 8

pub terminate_failed-Kept : (s : Session) (by : String) (r : Bool) → Kept (terminate_failed s by r)
unfolding terminate_failed
terminate_failed-Kept s by r =
    search (stepping, end_session-Kept _ live, write_outcome-Kept) depth 16
  where
    live :
        (t : Session)
        → (session_has_id s.id t
            && not (is_terminate t.desired)
            && (not r || is_run t.desired && is_crashed t.executor_state && is_none t.outcome))
          ≡ true
        → is_terminate t.desired ≡ false
    live t h = ground arith
