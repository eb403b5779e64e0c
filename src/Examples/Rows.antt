-- ===== src/Examples/Rows.antt =====
-- A small database: one execution, a root session and its child, and a question of the root.
use agentbeacon.Base.{none, some, [], ◌∷◌, true, false, pos, String, Option}
use agentbeacon.Json.{str, obj, field, end}
use agentbeacon.Tables.{
  Session, Execution, Agent, Task, Escalation, Db, Env, run, idle, crashed, Desired, ExState,
}
use agentbeacon.Tx.{Result, ok, err}
use agentbeacon.Transition.Message.{SendMessageArgs}

abbrev pub session_row : String → Option String → Desired → ExState → Session
session_row id parent desired state = record {
  id = id;
  execution_id = "x1";
  parent_session_id = parent;
  agent_id = "agent";
  agent_session_id = some "a1";
  cwd = none;
  recovery_attempts = 1;
  desired = desired;
  executor_state = state;
  outcome = none;
  desired_by = none;
  desired_at = none;
  command_token = none;
  command_type = none;
  command_at = none;
  command_has_payload = false;
  worker_id = some "w1";
  parent_notified = false;
  updated_at = 1;
  completed_at = none;
}

abbrev pub root : Session
root = session_row "root" none run idle

abbrev pub child : Session
child = session_row "child" (some "root") run idle

abbrev pub broken : Session
broken = session_row "broken" (some "root") run crashed

abbrev pub waiting_turn : Task
waiting_turn = record {
  execution_id = "x1";
  session_id = "child";
  task_payload = str "go on";
  source = none;
}

abbrev pub agent : Agent
agent = record {
  id = "agent";
  agent_type = "claude_sdk";
  driver_id = none;
  config = "{}";
  deleted_at = none;
}

abbrev pub execution : Execution
execution = record {
  id = "x1";
  project_id = none;
  desired = run;
  outcome = none;
  updated_at = 1;
  last_activity_at = 1;
  completed_at = none;
}

abbrev pub database_rows : Db
database_rows = record {
  sessions = root ∷ child ∷ broken ∷ [];
  executions = execution ∷ [];
  agents = agent ∷ [];
  task_queue = waiting_turn ∷ [];
  events = [];
  next_event_id = pos 5;
}

abbrev pub calm : Env
calm = record {
  fails = λ label. false;
  now = 100;
  rfc3339 = λ t. "2026-01-01T00:00:00Z";
  fail_at = none;
}

abbrev pub question : Escalation
question = record {
  id = pos 3;
  execution_id = "x1";
  session_id = "root";
  created_at = 2;
  «data» = record { batch_id = "b1"; importance = "blocking"; questions = str "which?" ∷ [] };
}

abbrev pub answer_args : SendMessageArgs
answer_args = record {
  payload = obj (field "message" (str "yes") end);
  resolution = some (record { escalation = question; answer_text = some "yes" });
  emit_message_delivered = true;
  from_user = true;
}

-- The database that a transaction leaves, the given one where it fails.
abbrev pub state_of : {E A : Type 0} → Db → Result E (A × Db) → Db
state_of d (ok (a, d')) = d'
state_of d (err x) = d
