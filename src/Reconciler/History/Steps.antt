-- ===== src/Reconciler/History/Steps.antt =====
-- The history under the reconciler's transactions that never meet a contradictory row.
use agentbeacon.Statements.Keep.{reading}
use agentbeacon.Transition.Ratchet.{SessionKept, history, ExecutionKept, History-queue}
use agentbeacon.Json.{Json}
use agentbeacon.Reconciler.History.{leave_alone}
use agentbeacon.Statements.{touch_last_activity}
use agentbeacon.Tx.Keeps.{Keeps-modify, Keeps, Keeps-pure, Keeps-to_option, unchanged, keeping}
use agentbeacon.Tables.{Agent, CommandType, EventType, Session, Execution, Task}
use agentbeacon.Reconciler.Finalize.{
  enqueue_crash, finalize, finalize_row, notify_parent_of_crash_in_tx, release_worker,
  resume_for_crash, tell_of_crash, tell_parent, tell_parent_if_live, crash_reason,
}
use agentbeacon.Base.{Option, String, ℕ, Bool, none, some, true, arith}
use agentbeacon.Transition.Ratchet.Steps.{
  Kept, stepping, Kept-update_sessions, resumed, Kept-update_executions,
}
use agentbeacon.Reconciler.Commands.{
  Composer, feed_task, issue_cancel, issue_feed_turn, issue_stop_turn, roll_back, touch_root,
  compose_assignment, give_up, issue_assign, servers_of, with_command, with_worker, send_assignment,
}
use agentbeacon.Statements.Work.{
  get_agent, get_children, get_session_if_any, insert_locked, pop_turn, without_oldest,
}

pub get_agent-Unchanged : (id : String) → Keeps unchanged (get_agent id)
unfolding get_agent
get_agent-Unchanged id = search reading depth 8

pub Kept-get_agent : (id : String) → Kept (get_agent id)
unfolding get_agent
Kept-get_agent id = search stepping depth 8

pub Kept-get_session_if_any : (id : String) → Kept (get_session_if_any id)
unfolding get_session_if_any
Kept-get_session_if_any id = search stepping depth 8

pub Kept-get_children : (id : String) → Kept (get_children id)
unfolding get_children
Kept-get_children id = search stepping depth 8

pub Kept-insert_locked :
    (x : String) (s : Option String) (t : EventType) (p : Json) → Kept (insert_locked x s t p)
unfolding insert_locked
Kept-insert_locked x s t p = search stepping depth 8

pub Kept-pop_turn : (id : String) → Kept (pop_turn id)
unfolding pop_turn
Kept-pop_turn id =
    search
      (stepping, Keeps-modify history _ (λ d. History-queue d (without_oldest id d.task_queue)))
      depth 12

pub Kept-touch_root : (b : Bool) (s : Session) → Kept (touch_root b s)
unfolding touch_root touch_last_activity
Kept-touch_root b s = search (stepping, Kept-update_executions, touched) depth 12
  where
    touched : (now : ℕ) (x : Execution) → ExecutionKept x (record x { last_activity_at = now })
    touched now x = ground arith

pub Kept-give_up : Kept give_up
Kept-give_up = search stepping

pub Kept-roll_back : Kept roll_back
unfolding roll_back
Kept-roll_back = search stepping depth 8

pub ruleset working = (
  stepping, Kept-get_agent, Kept-get_session_if_any, Kept-get_children, Kept-insert_locked,
  Kept-pop_turn, Kept-touch_root, Kept-roll_back, Kept-give_up, Kept-update_sessions,
)

commanded :
    (token : String) (type : CommandType) (b : Bool) (now : ℕ) (s : Session)
    → SessionKept s (with_command token type b now s)
commanded token type b now s = ground arith

commanded_worker :
    (w : Option String) (token : String) (type : CommandType) (b : Bool) (now : ℕ) (s : Session)
    → SessionKept s (with_worker w (with_command token type b now s))
commanded_worker none token type b now s = ground arith
commanded_worker (some w) token type b now s = ground arith

pub Kept-issue_stop_turn : (s : Session) (token : String) → Kept (issue_stop_turn s token)
unfolding issue_stop_turn
Kept-issue_stop_turn s token = search (working, commanded) depth 16

pub Kept-issue_cancel : (s : Session) (token : String) → Kept (issue_cancel s token)
unfolding issue_cancel
Kept-issue_cancel s token = search (working, commanded) depth 16

Kept-feed_task : (s : Session) (token : String) (t : Option Task) → Kept (feed_task s token t)
unfolding feed_task
Kept-feed_task s token none = Kept-roll_back
Kept-feed_task s token (some t) = search (working, commanded) depth 16

pub Kept-issue_feed_turn : (s : Session) (token : String) → Kept (issue_feed_turn s token)
unfolding issue_feed_turn
Kept-issue_feed_turn s token = search (working, Kept-feed_task) depth 16

-- The parts of an assignment that other modules put together only read.
pub record ReadsOnly (c : Composer) : Type 0 where
  pub driver_info : (a : Agent) (s : Session) → Keeps unchanged (c.driver_info a s)
  pub agent_config :
      (s : Session) (a : Agent) (x : Execution) → Keeps unchanged (c.agent_config s a x)
  pub mcp_servers : (id : String) → Keeps unchanged (c.mcp_servers id)
  pub next_msg_seq : (id : String) → Keeps unchanged (c.next_msg_seq id)

module _ (c : Composer) (r : ReadsOnly c) where
  open r use {driver_info, agent_config, mcp_servers, next_msg_seq}

  servers_of-Unchanged : (p : Option String) → Keeps unchanged (servers_of c p)
  unfolding servers_of
  servers_of-Unchanged none = Keeps-pure unchanged _
  servers_of-Unchanged (some id) = mcp_servers id

  pub compose_assignment-Unchanged :
      (s : Session) (b : Bool) (a : Agent) (j : Json) (x : Execution) (t : Option Task)
      → Keeps unchanged (compose_assignment c s b a j x t)
  unfolding compose_assignment
  compose_assignment-Unchanged s b a j x t =
      search (keeping, agent_config, next_msg_seq, servers_of-Unchanged, Keeps-to_option) depth 12

  Kept-driver_info : (a : Agent) (s : Session) → Kept (c.driver_info a s)
  Kept-driver_info a s = leave_alone history _ (driver_info a s)

  Kept-compose_assignment :
      (s : Session) (b : Bool) (a : Agent) (j : Json) (x : Execution) (t : Option Task)
      → Kept (compose_assignment c s b a j x t)
  Kept-compose_assignment s b a j x t =
      leave_alone history _ (compose_assignment-Unchanged s b a j x t)

  Kept-send_assignment :
      (s : Session) (b : Bool) (w : Option String) (token : String) (g : Agent) (j : Json)
      (x : Execution) (t : Option Task)
      → Kept (send_assignment c s b w token g j x t)
  unfolding send_assignment
  Kept-send_assignment s b w token g j x t =
      search (working, commanded_worker, Kept-compose_assignment) depth 16

  pub Kept-issue_assign :
      (s : Session) (b : Bool) (w : Option String) (token : String)
      → Kept (issue_assign c s b w token)
  unfolding issue_assign
  Kept-issue_assign s b w token = search (working, Kept-driver_info, Kept-send_assignment) depth 16

told :
    (now : ℕ) (s : Session) → SessionKept s (record s { parent_notified = true; updated_at = now })
told now s = ground arith

Kept-resume_for_crash : (x p : String) → Kept (resume_for_crash x p)
unfolding resume_for_crash
Kept-resume_for_crash x p = search (working, resumed) depth 12

Kept-enqueue_crash : (s : Session) (by p : String) → Kept (enqueue_crash s by p)
unfolding enqueue_crash
Kept-enqueue_crash s by p = search working depth 12

Kept-tell_parent : (s : Session) (by p : String) (t : Session) → Kept (tell_parent s by p t)
unfolding tell_parent
Kept-tell_parent s by p t =
    search (working, told, Kept-resume_for_crash, Kept-enqueue_crash) depth 16

Kept-tell_parent_if_live :
    (s : Session) (by p : String) (t : Option Session) → Kept (tell_parent_if_live s by p t)
unfolding tell_parent_if_live
Kept-tell_parent_if_live s by p none = Keeps-pure history _
Kept-tell_parent_if_live s by p (some t) = search (working, Kept-tell_parent)

Kept-tell_of_crash : (s : Session) (by p : Option String) → Kept (tell_of_crash s by p)
unfolding tell_of_crash
Kept-tell_of_crash s none p = Keeps-pure history _
Kept-tell_of_crash s (some by) none = Keeps-pure history _
Kept-tell_of_crash s (some by) (some p) = search (working, Kept-tell_parent_if_live) depth 12

Kept-notify : (s : Session) → Kept (notify_parent_of_crash_in_tx s)
unfolding notify_parent_of_crash_in_tx
Kept-notify s = Kept-tell_of_crash s (crash_reason s) s.parent_session_id

freed : (now : ℕ) (s : Session) → SessionKept s (record s { worker_id = none; updated_at = now })
freed now s = ground arith

Kept-release_worker : (s : Session) → Kept (release_worker s)
unfolding release_worker
Kept-release_worker s = search (working, freed) depth 12

Kept-finalize_row : (s : Option Session) → Kept (finalize_row s)
unfolding finalize_row
Kept-finalize_row none = Keeps-pure history _
Kept-finalize_row (some s) = search (working, Kept-notify, Kept-release_worker) depth 12

pub Kept-finalize : (s : Session) → Kept (finalize s)
unfolding finalize
Kept-finalize s = search (working, Kept-finalize_row) depth 12
