-- ===== src/Synchronisation/Acks.antt =====
-- scheduler/src/api/handlers/worker_sync.rs: `process_command_ack_in_tx`.
pub mod Effects
use agentbeacon.Synchronisation.Requests.{holds}
use agentbeacon.Statements.Sync.{find_command, has_token}
use agentbeacon.Statements.{update_sessions, session_has_id}
use agentbeacon.Tables.{ExState, Session, CommandType}
use agentbeacon.Base.{
  Bool, Option, String, ℕ, none, ◌&&◌, false, is_some, some, true, if◌then◌else◌, ◌==◌,
}
use agentbeacon.Tx.{◌>>=◌, Tx, SchedulerError, asks, pure}

pub data AckResult : Type 0 where
  applied : Bool → AckResult
  stale_worker stale_token : AckResult

abbrev pub without_command : ℕ → Session → Session
without_command now s = record s {
  command_token = none;
  command_type = none;
  command_at = none;
  command_has_payload = false;
  updated_at = now;
}

-- A worker that has cancelled a session with an outcome is done with it.
abbrev pub settled_state : ExState → ExState
settled_state ExState.idle = ExState.idle
settled_state _ = ExState.crashed

abbrev pub acknowledged : Bool → ℕ → Session → Session
acknowledged false now s = without_command now s
acknowledged true now s = record (without_command now s) {
  worker_id = none;
  executor_state = settled_state s.executor_state;
}

abbrev is_cancel : Option CommandType → Bool
is_cancel (some CommandType.cancel) = true
is_cancel _ = false

abbrev pub is_terminal_cancel : Session → Bool
is_terminal_cancel s = is_cancel s.command_type && is_some s.outcome

unfoldable pub clear_command : Session → String → Tx SchedulerError AckResult
unfolding update_sessions
clear_command s ack_token = do
  now ← asks (λ e. e.now)
  rows ←
      update_sessions "clear command fields failed"
        (λ r. session_has_id s.id r && has_token ack_token r)
        (acknowledged (is_terminal_cancel s) now)
  if rows == 0 then pure stale_token else pure (applied (is_terminal_cancel s))

unfoldable pub ack_row : String → String → Option Session → Tx SchedulerError AckResult
unfolding clear_command
ack_row worker_id ack_token none = pure stale_token
ack_row worker_id ack_token (some s) =
    if holds worker_id s then clear_command s ack_token else pure stale_worker

unfoldable pub process_command_ack_in_tx : String → String → Tx SchedulerError AckResult
unfolding find_command ack_row
process_command_ack_in_tx worker_id ack_token = do
  found ← find_command ack_token
  ack_row worker_id ack_token found
