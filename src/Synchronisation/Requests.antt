-- ===== src/Synchronisation/Requests.antt =====
-- scheduler/src/api/handlers/worker_sync.rs: the requests of a worker, and what the handlers know of
-- the server.
use agentbeacon.Json.{Json}
use agentbeacon.Procedures.{◌>>=◌, attempted, done, raise}
use agentbeacon.Tables.{Session}
use agentbeacon.Reconciler.Cascade.{Job, Fault, scheduler, diverged}
use agentbeacon.Tx.{Result, SchedulerError, ok, err}
use agentbeacon.Reconciler.Commands.{Composer, CommandAction}
use agentbeacon.Base.{Option, String, List, ℕ, ℤ, Bool, is_some_text, some, none}

pub record ExecutorReport : Type 0 where
  pub session_id : String
  pub executor_state : String
  pub agent_session_id : Option String

pub record TurnMessagePayload : Type 0 where
  pub msg_seq : Option ℤ
  pub payload : Json

pub record TurnResult : Type 0 where
  pub session_id : String
  pub messages : List TurnMessagePayload
  pub error : Option String
  pub error_kind : Option String
  pub stderr : Option String

pub record WorkerSyncRequest : Type 0 where
  pub worker_id : String
  pub executor_report : Option ExecutorReport
  pub turn_result : Option TurnResult
  pub command_ack : Option String

pub data WorkerSyncResponse : Type 0 where
  no_action : WorkerSyncResponse
  command : String → CommandAction → WorkerSyncResponse

-- The settings of the server, and code of other modules: the parts of an assignment, the fuel of a
-- cascade, and which errors of a transaction are deadlocks or failed serialisations. The times are
-- of the clock, in microseconds.
pub record Server : Type 0 where
  pub composer : Composer
  pub fuel : ℕ
  pub started_at : ℕ
  pub heartbeat_timeout : ℕ
  pub long_poll_timeout_secs : ℕ
  pub retryable : SchedulerError → Bool

abbrev pub holds : String → Session → Bool
holds worker_id s = is_some_text s.worker_id worker_id

module _ {A : Type 0} where
  abbrev pub caught_result : Result Fault A → Job (Option A)
  caught_result (ok a) = done (some a)
  caught_result (err (scheduler x)) = done none
  caught_result (err diverged) = raise diverged

  -- `if let Ok(…)`: an error of the scheduler is passed over.
  unfoldable pub caught : Job A → Job (Option A)
  caught p = do result ← attempted {E = Fault} p; caught_result result
