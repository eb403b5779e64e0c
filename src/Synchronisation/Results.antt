-- ===== src/Synchronisation/Results.antt =====
-- scheduler/src/api/handlers/worker_sync.rs: the transaction of `worker_sync` that takes the result
-- of a turn and the acknowledgement of a command, and its repetition after a deadlock.
use agentbeacon.Procedures.{attempted, done, raise, transact}
use agentbeacon.Reconciler.Cascade.{Job, query, Fault, scheduler}
use agentbeacon.Synchronisation.Requests.{TurnResult, holds}
use agentbeacon.Synchronisation.Acks.{AckResult, process_command_ack_in_tx}
use agentbeacon.Statements.{begin_execution_tx, get_session, attempt}
use agentbeacon.Synchronisation.Turns.{announce_turn, process_turn_result_in_tx}
use agentbeacon.Tables.{Session, is_run}
use agentbeacon.Base.{
  Option, String, Bool, some, ℕ, if◌then◌else◌, true, false, none, suc, ◌||◌, ◌&&◌, is_none, zero,
}
use agentbeacon.Procedures
use agentbeacon.Tx.{◌>>=◌, ◌>>◌, SchedulerError, Tx, Result, pure, ok, to_option, err}

-- What the transaction tells the handler.
pub record Outcomes : Type 0 where
  pub turn_result_session : Option Session
  pub was_terminal_cancel : Bool
  pub ack_stale_worker : Bool
  pub turn_result_stale_worker : Bool
  pub skip_reconciler : Bool

-- The session of the result as it was read before the transaction, and as it is read in it.
pub record Received : Type 0 where
  pub session : Option Session
  pub child : Option Session
  pub stale : Bool

module _ (worker_id execution_id : String) where
  unfoldable pub receive_from : Session → TurnResult → Option Session → Tx SchedulerError Received
  unfolding process_turn_result_in_tx
  receive_from session result none = pure (record { session = none; child = none; stale = false })
  receive_from session result (some s) =
      if holds worker_id s
      then (do
        process_turn_result_in_tx execution_id s result
        pure (record { session = some session; child = some s; stale = false }))
      else pure (record { session = none; child = none; stale = true })

  unfoldable pub receive : Option TurnResult → Option Session → Tx SchedulerError Received
  unfolding receive_from get_session
  receive none session = pure (record { session = session; child = none; stale = false })
  receive (some result) none = pure (record { session = none; child = none; stale = false })
  receive (some result) (some session) = do
    found ← to_option (get_session result.session_id)
    receive_from session result found

  -- The notice goes out if the session still should run.
  unfoldable pub announce :
      Bool → Option Session → Option Session → Option Session → Tx SchedulerError (Unit {0})
  unfolding announce_turn
  announce true (some session) (some child) notify_parent =
      if is_run child.desired && is_none child.outcome
      then announce_turn execution_id child session notify_parent
      else pure tt
  announce _ _ _ _ = pure tt

  unfoldable pub acknowledge : Option String → Tx SchedulerError (Option AckResult)
  unfolding process_command_ack_in_tx
  acknowledge none = pure none
  acknowledge (some ack_token) = do
    result ← process_command_ack_in_tx worker_id ack_token
    pure (some result)

  abbrev is_stale : Option AckResult → Bool
  is_stale (some AckResult.stale_worker) = true
  is_stale _ = false

  abbrev cancelled : Option AckResult → Bool
  cancelled (some (AckResult.applied terminal_cancel)) = terminal_cancel
  cancelled _ = false

  unfoldable pub take_results :
      Bool
      → Option TurnResult
      → Option Session
      → Option Session
      → Option String
      → Tx SchedulerError Outcomes
  unfolding begin_execution_tx receive announce acknowledge attempt
  take_results should_notify turn_result session notify_parent command_ack = do
    begin_execution_tx execution_id
    received ← receive turn_result session
    announce should_notify received.session received.child notify_parent
    ack ← acknowledge command_ack
    attempt "commit tx failed"
    pure (record {
      turn_result_session = received.session;
      was_terminal_cancel = cancelled ack;
      ack_stale_worker = is_stale ack;
      turn_result_stale_worker = received.stale;
      skip_reconciler = received.stale || is_stale ack;
    })

module _ (retryable : SchedulerError → Bool) where
  -- The transaction again, up to so many times. `after` is what a failure leads to.
  abbrev pub retry_result : {A : Type 0} → Job A → Result SchedulerError A → Job A
  retry_result after (ok a) = done a
  retry_result after (err x) = if retryable x then after else raise (scheduler x)

  unfoldable pub with_retries : {A : Type 0} → ℕ → Tx SchedulerError A → Job A
  with_retries zero m = query m
  with_retries (suc n) m =
      Procedures.◌>>=◌ (attempted {F = Fault} (transact m))
        λ result. retry_result (with_retries n m) result
