-- ===== src/Reconciler/Commands.antt =====
-- scheduler/src/services/reconciler.rs: the commands that are issued to workers.
-- A command to a worker, as the scheduler sends it.
use agentbeacon.Statements.Work.{pop_turn, get_agent}
use agentbeacon.Procedures.{Stopped, rolled_back}
use agentbeacon.Json.{Json}
use agentbeacon.Statements.{
  attempt, begin_execution_tx, touch_last_activity, update_sessions, session_has_id, get_execution,
}
use agentbeacon.Tx.{Tx, throw, SchedulerError, map_err, pure, ◌>>=◌, ◌>>◌, asks, to_option}
use agentbeacon.Tables.{
  Agent, Execution, Session, CommandType, Task, is_terminate, is_stop, is_run, is_running,
  is_unassigned, is_idle,
}
use agentbeacon.Base.{
  Option, String, Bool, false, if◌then◌else◌, ℕ, some, ◌&&◌, ◌||◌, is_none, is_some, is_some_text,
  none, not, true, unwrap_or, ◌==◌,
}

pub record Assignment : Type 0 where
  pub session_id : String
  pub execution_id : String
  pub payload : Option Json
  pub resume : Bool
  pub cwd : Option String
  pub driver : Json
  pub agent_config : Json
  pub agent_session_id : Option String
  pub project_id : Option String
  pub mcp_servers : Option Json
  pub next_msg_seq : ℕ

pub data CommandAction : Type 0 where
  assign : Assignment → CommandAction
  feed_turn : String → Json → CommandAction
  stop_turn cancel : String → CommandAction

pub data ReconcilerAction : Type 0 where
  no_action pending_command repaired mutated : ReconcilerAction
  send_command : String → CommandAction → ReconcilerAction

-- What other modules put together for an assignment: the driver and the sandbox, the briefing and
-- the configuration, the MCP servers of a project, and the number of the next message.
pub record Composer : Type 0 where
  pub driver_info : Agent → Session → Tx SchedulerError Json
  pub agent_config : Session → Agent → Execution → Tx SchedulerError Json
  pub mcp_servers : String → Tx SchedulerError (Option Json)
  pub next_msg_seq : String → Tx SchedulerError ℕ

abbrev pub Issue : Type 0
Issue = Tx Stopped ReconcilerAction

abbrev pub lift : {A : Type 0} → Tx SchedulerError A → Tx Stopped A
lift m = map_err Stopped.failed m

abbrev pub give_up : Issue
give_up = throw rolled_back

-- A rollback whose own failure is an error.
unfoldable pub roll_back : Issue
unfolding attempt
roll_back = do lift (attempt "rollback failed"); give_up

abbrev pub with_command : String → CommandType → Bool → ℕ → Session → Session
with_command token command_type has_payload now s = record s {
  command_token = some token;
  command_type = some command_type;
  command_at = some now;
  command_has_payload = has_payload;
  updated_at = now;
}

abbrev pub with_worker : Option String → Session → Session
with_worker none s = s
with_worker (some id) s = record s { worker_id = some id }

abbrev pub may_assign : String → Session → Bool
may_assign id s =
    session_has_id id s
    && is_none s.command_token
    && is_run s.desired
    && is_unassigned s.executor_state

abbrev pub held_by : Option String → Session → Bool
held_by none s = false
held_by (some worker_id) s = is_some_text s.worker_id worker_id

abbrev pub may_feed : String → Option String → Session → Bool
may_feed id worker_id s =
    session_has_id id s
    && is_none s.command_token
    && is_run s.desired
    && held_by worker_id s
    && (is_running s.executor_state || is_idle s.executor_state)

abbrev pub may_stop : String → Option String → Session → Bool
may_stop id worker_id s = session_has_id id s && held_by worker_id s && is_stop s.desired

abbrev pub may_cancel : String → Option String → Session → Bool
may_cancel id worker_id s = session_has_id id s && held_by worker_id s && is_terminate s.desired

unfoldable pub has_ended : Execution → Bool
has_ended x = is_terminate x.desired || is_some x.outcome

unfoldable pub payload_of : Option Task → Option Json
payload_of none = none
payload_of (some t) = some t.task_payload

unfoldable pub touch_root : Bool → Session → Tx SchedulerError (Unit {0})
unfolding touch_last_activity
touch_root has_payload session =
    if has_payload && is_none session.parent_session_id
    then touch_last_activity session.execution_id
    else pure tt

unfoldable pub servers_of : Composer → Option String → Tx SchedulerError (Option Json)
servers_of c none = pure none
servers_of c (some project_id) = c.mcp_servers project_id

-- The message of an assignment, put together once the row is written.
unfoldable pub compose_assignment :
    Composer
    → Session
    → Bool
    → Agent
    → Json
    → Execution
    → Option Task
    → Tx SchedulerError Assignment
unfolding servers_of payload_of
compose_assignment c session resume agent driver tx_exec task = do
  agent_config ← c.agent_config session agent tx_exec
  next_msg_seq ← to_option (c.next_msg_seq session.id)
  mcp_servers ← servers_of c tx_exec.project_id
  pure (record {
    session_id = session.id;
    execution_id = session.execution_id;
    payload = payload_of task;
    resume = resume;
    cwd = session.cwd;
    driver = driver;
    agent_config = agent_config;
    agent_session_id = session.agent_session_id;
    project_id = tx_exec.project_id;
    mcp_servers = mcp_servers;
    next_msg_seq = unwrap_or next_msg_seq 0;
  })

-- The writing of the row, and the message.
unfoldable pub send_assignment :
    Composer
    → Session
    → Bool
    → Option String
    → String
    → Agent
    → Json
    → Execution
    → Option Task
    → Issue
unfolding update_sessions roll_back touch_root
send_assignment c session resume worker_id token agent driver tx_exec task = do
  now ← asks (λ e. e.now)
  rows ← lift (
      update_sessions "issue assign failed" (may_assign session.id)
        (λ s. with_worker worker_id (with_command token CommandType.assign (is_some task) now s)))
  if rows == 0 then roll_back else do
    lift (touch_root (is_some task) session)
    assignment ← lift (compose_assignment c session resume agent driver tx_exec task)
    lift (attempt "commit failed")
    pure (send_command token (CommandAction.assign assignment))

unfoldable pub issue_assign : Composer → Session → Bool → Option String → String → Issue
unfolding begin_execution_tx pop_turn send_assignment has_ended
issue_assign c session resume worker_id token = do
  lift (begin_execution_tx session.execution_id)
  agent ← lift (get_agent session.agent_id)
  driver ← lift (c.driver_info agent session)
  tx_exec ← lift (get_execution session.execution_id)
  if has_ended tx_exec then give_up else do
    task ← lift (pop_turn session.id)
    if not resume && is_none task
        then give_up
        else send_assignment c session resume worker_id token agent driver tx_exec task

-- Feed the turn that was taken from the queue.
unfoldable pub feed_task : Session → String → Option Task → Issue
unfolding update_sessions roll_back touch_root
feed_task session token none = roll_back
feed_task session token (some task) = do
  now ← asks (λ e. e.now)
  rows ← lift (
      update_sessions "issue feed_turn failed" (may_feed session.id session.worker_id)
        (with_command token CommandType.feed_turn true now))
  if rows == 0 then roll_back else do
    lift (touch_root true session)
    lift (attempt "commit failed")
    pure (send_command token (CommandAction.feed_turn session.id task.task_payload))

unfoldable pub issue_feed_turn : Session → String → Issue
unfolding begin_execution_tx pop_turn feed_task has_ended
issue_feed_turn session token = do
  lift (begin_execution_tx session.execution_id)
  tx_exec ← lift (get_execution session.execution_id)
  if has_ended tx_exec
      then give_up
      else do task ← lift (pop_turn session.id); feed_task session token task

unfoldable pub issue_stop_turn : Session → String → Issue
unfolding begin_execution_tx update_sessions
issue_stop_turn session token = do
  lift (begin_execution_tx session.execution_id)
  now ← asks (λ e. e.now)
  rows ← lift (
      update_sessions "issue stop_turn failed" (may_stop session.id session.worker_id)
        (with_command token CommandType.stop_turn false now))
  if rows == 0 then give_up else do
    lift (attempt "commit stop_turn tx")
    pure (send_command token (CommandAction.stop_turn session.id))

unfoldable pub issue_cancel : Session → String → Issue
unfolding begin_execution_tx update_sessions
issue_cancel session token = do
  lift (begin_execution_tx session.execution_id)
  now ← asks (λ e. e.now)
  rows ← lift (
      update_sessions "issue cancel failed" (may_cancel session.id session.worker_id)
        (with_command token CommandType.cancel false now))
  if rows == 0 then give_up else do
    lift (attempt "commit cancel tx")
    pure (send_command token (CommandAction.cancel session.id))
