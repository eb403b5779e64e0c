-- ===== src/Tables.antt =====
-- scheduler/src/db: the rows of the tables that the scheduler's state machine reads and writes.
-- Ids and tokens are texts, times are numbers of the database's clock. A column that no modelled
-- statement reads is left out. Rows stand in the order in which they were inserted.
use agentbeacon.Base.{ℕ, Bool, true, false, List, Option, String, ℤ}
use agentbeacon.Json.{Json}
use agentbeacon.Resolution.Parts.{Payload}
use agentbeacon.Resolution.Candidates.{EscalationData}

-- `sessions.desired` and `executions.desired`, by the tables' CHECK constraints.
pub data Desired : Type 0 where
  run stop terminate : Desired

pub data ExState : Type 0 where
  unassigned running idle crashed : ExState

pub data Outcome : Type 0 where
  completed canceled failed : Outcome

pub data CommandType : Type 0 where
  assign feed_turn stop_turn cancel : CommandType

abbrev pub is_run : Desired → Bool
is_run run = true
is_run _ = false

abbrev pub is_stop : Desired → Bool
is_stop stop = true
is_stop _ = false

abbrev pub is_terminate : Desired → Bool
is_terminate terminate = true
is_terminate _ = false

abbrev pub same_desired : Desired → Desired → Bool
same_desired run d = is_run d
same_desired stop d = is_stop d
same_desired terminate d = is_terminate d

abbrev pub is_unassigned : ExState → Bool
is_unassigned unassigned = true
is_unassigned _ = false

abbrev pub is_running : ExState → Bool
is_running running = true
is_running _ = false

abbrev pub is_idle : ExState → Bool
is_idle idle = true
is_idle _ = false

abbrev pub is_crashed : ExState → Bool
is_crashed crashed = true
is_crashed _ = false

abbrev pub is_failed : Option Outcome → Bool
is_failed (Option.some failed) = true
is_failed _ = false

-- `Desired::as_str`, `ExState::as_str`, and the texts of an outcome.
abbrev pub desired_text : Desired → String
desired_text run = "run"
desired_text stop = "stop"
desired_text terminate = "terminate"

abbrev pub ex_state_text : ExState → String
ex_state_text unassigned = "unassigned"
ex_state_text running = "running"
ex_state_text idle = "idle"
ex_state_text crashed = "crashed"

abbrev pub outcome_text : Outcome → String
outcome_text completed = "completed"
outcome_text canceled = "canceled"
outcome_text failed = "failed"

pub record Session : Type 0 where
  pub id : String
  pub execution_id : String
  pub parent_session_id : Option String
  pub agent_id : String
  pub agent_session_id : Option String
  pub cwd : Option String
  pub recovery_attempts : ℕ
  pub desired : Desired
  pub executor_state : ExState
  pub outcome : Option Outcome
  pub desired_by : Option String
  pub desired_at : Option ℕ
  pub command_token : Option String
  pub command_type : Option CommandType
  pub command_at : Option ℕ
  pub command_has_payload : Bool
  pub worker_id : Option String
  pub parent_notified : Bool
  pub updated_at : ℕ
  pub completed_at : Option ℕ

pub record Execution : Type 0 where
  pub id : String
  pub project_id : Option String
  pub desired : Desired
  pub outcome : Option Outcome
  pub updated_at : ℕ
  pub last_activity_at : ℕ
  pub completed_at : Option ℕ

pub record Agent : Type 0 where
  pub id : String
  pub agent_type : String
  pub driver_id : Option String
  pub config : String
  pub deleted_at : Option ℕ

-- A row of `task_queue`; the oldest stands first.
pub record Task : Type 0 where
  pub execution_id : String
  pub session_id : String
  pub task_payload : Json
  pub source : Option String

pub data EventType : Type 0 where
  message state_change platform : EventType

pub record Event : Type 0 where
  pub id : ℤ
  pub execution_id : String
  pub session_id : Option String
  pub event_type : EventType
  pub payload : Payload
  pub msg_seq : Option ℤ
  pub created_at : ℕ

pub record InsertedEvent : Type 0 where
  pub id : ℤ
  pub created_at : String

pub record Escalation : Type 0 where
  pub id : ℤ
  pub execution_id : String
  pub session_id : String
  pub created_at : ℕ
  pub «data» : EscalationData

-- The database. `next_event_id` is what the id sequence of `events` gives next: nothing makes sure
-- that it is positive.
pub record Db : Type 0 where
  pub sessions : List Session
  pub executions : List Execution
  pub agents : List Agent
  pub task_queue : List Task
  pub events : List Event
  pub next_event_id : ℤ

-- What a transaction meets from outside: the statements that fail (a lost connection, a full disk),
-- the time of its statements, how a time is written, and the failpoint set for a test.
pub record Env : Type 0 where
  pub fails : String → Bool
  pub now : ℕ
  pub rfc3339 : ℕ → String
  pub fail_at : Option String
