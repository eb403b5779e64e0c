-- ===== src/Transition/Ratchet/Steps.antt =====
-- Every action of the state machine keeps the history.
use agentbeacon.Transition.Notify.{
  resume_parent, enqueue_notification, write_parent_notification_in_tx,
}
use agentbeacon.Json.{Json}
use agentbeacon.Transition.Terminal.{write_execution_terminal_in_tx}
use agentbeacon.Base.{◌≡◌, true, ℕ, ◌&&◌, is_none, some, arith}
use agentbeacon.Statements.{
  delete_by_session, insert_task, insert_event, update_executions, update_sessions,
  execution_has_id, session_has_id,
}
use agentbeacon.Tables.{EventType, Outcome, is_stop, run, terminate}
use agentbeacon.Tx.{Tx}
use agentbeacon.Tx.Keeps.{Keeps}
use agentbeacon.Statements.Keep
use agentbeacon.Statements.Keep.{reading}
use agentbeacon.Transition.Ratchet.{
  history, History-queue, History-event, History-sessions, History-executions, String, Execution,
  Option, Session, Task, Bool, ExecutionKept, SessionKept,
}

abbrev pub Kept : {E A : Type 0} → Tx E A → Type 0
Kept m = Keeps history m

pub Kept-insert_event :
    (x : String) (s : Option String) (t : EventType) (p : Json) → Kept (insert_event x s t p)
Kept-insert_event = Keep.Keeps-insert_event history History-event

pub Kept-insert_task : (label : String) (t : Task) → Kept (insert_task label t)
Kept-insert_task = Keep.Keeps-insert_task history History-queue

pub Kept-delete_by_session : (id : String) → Kept (delete_by_session id)
Kept-delete_by_session = Keep.Keeps-delete_by_session history History-queue

pub Kept-update_sessions :
    (label : String) (test : Session → Bool) (f : Session → Session)
    → ((s : Session) → test s ≡ true → SessionKept s (f s))
    → Kept (update_sessions label test f)
Kept-update_sessions label test f h =
    Keep.Keeps-update_sessions history label test f (History-sessions test f h)

pub Kept-update_executions :
    (label : String) (test : Execution → Bool) (f : Execution → Execution)
    → ((x : Execution) → test x ≡ true → ExecutionKept x (f x))
    → Kept (update_executions label test f)
Kept-update_executions label test f h =
    Keep.Keeps-update_executions history label test f (History-executions test f h)

pub ruleset stepping = (reading, Kept-insert_event, Kept-insert_task, Kept-delete_by_session)

pub ended :
    (id : String) (o : Outcome) (now : ℕ) (x : Execution)
    → (execution_has_id id x && is_none x.outcome) ≡ true
    → ExecutionKept x (record x {
      desired = terminate;
      outcome = some o;
      updated_at = now;
      completed_at = some now;
      last_activity_at = now;
    })
ended id o now x h = ground arith

pub write_execution_terminal_in_tx-Kept :
    (x : String) (o : Outcome) → Kept (write_execution_terminal_in_tx x o)
unfolding write_execution_terminal_in_tx
write_execution_terminal_in_tx-Kept x o = search (stepping, Kept-update_executions, ended) depth 12

pub resumed :
    (id by : String) (now : ℕ) (s : Session)
    → (session_has_id id s && is_stop s.desired) ≡ true
    → SessionKept s
        (record s { desired = run; desired_by = some by; desired_at = some now; updated_at = now })
resumed id by now s h = ground arith

resume_parent-Kept : (x p by : String) → Kept (resume_parent x p by)
unfolding resume_parent
resume_parent-Kept x p by = search (stepping, Kept-update_sessions, resumed) depth 12

enqueue_notification-Kept : (s : Session) (p t : String) → Kept (enqueue_notification s p t)
unfolding enqueue_notification
enqueue_notification-Kept s p t = search stepping depth 12

pub write_parent_notification_in_tx-Kept :
    (s : Session) (p t : String) → Kept (write_parent_notification_in_tx s p t)
unfolding write_parent_notification_in_tx
write_parent_notification_in_tx-Kept s p t =
    search (stepping, resume_parent-Kept, enqueue_notification-Kept) depth 12
