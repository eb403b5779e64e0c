-- ===== src/Synchronisation/Intake.antt =====
-- scheduler/src/api/handlers/worker_sync.rs: the stage of `worker_sync` between the executor's report
-- and the reconciler.
-- Job Proc
use agentbeacon.Synchronisation.Turns.{has_messages, is_going_on}
use agentbeacon.Procedures.{done, broadcast, ◌>>=◌, ◌>>◌, kill_worker}
use agentbeacon.Reconciler.Cascade.{Job, query}
use agentbeacon.Synchronisation.Results.{with_retries, Outcomes, take_results}
use agentbeacon.Statements.Sync.{find_command}
use agentbeacon.Statements.{get_execution, get_session}
use agentbeacon.Tables.{Session, is_run}
use agentbeacon.Synchronisation.Requests.{
  Server, WorkerSyncRequest, caught, ExecutorReport, TurnResult, holds,
}
use agentbeacon.Base.{
  Bool, Option, String, is_some, some, ◌||◌, false, if◌then◌else◌, none, str_eq, is_none, pos, ◌&&◌,
  true,
}

abbrev says_idle : Option ExecutorReport → Option TurnResult → Bool
says_idle (some report) (some result) =
    str_eq report.executor_state "idle"
    && str_eq report.session_id result.session_id
    && has_messages result
says_idle _ _ = false

abbrev pub should_notify : WorkerSyncRequest → Bool
should_notify req = says_idle req.executor_report req.turn_result

-- The session of the result, where the worker holds it; and whether it is another worker's.
unfoldable pub owned_session : String → Option Session → Job (Option Session × Bool)
owned_session worker_id none = done (none, false)
owned_session worker_id (some session) =
    if holds worker_id session
    then done (some session, false)
    else (do kill_worker worker_id; done (none, true))

unfoldable pub result_session : String → Option TurnResult → Job (Option Session × Bool)
unfolding caught get_session owned_session
result_session worker_id none = done (none, false)
result_session worker_id (some result) = do
  found ← caught (query (get_session result.session_id))
  owned_session worker_id found

unfoldable pub live_parent : Session → Option Session → Job (Option Session)
unfolding caught get_execution
live_parent session none = done none
live_parent session (some parent) =
    if is_none parent.outcome
    then (do
      execution ← caught (query (get_execution session.execution_id))
      done (if is_going_on execution then some parent else none))
    else done none

unfoldable pub parent_by_id : Session → Option String → Job (Option Session)
unfolding caught get_session live_parent
parent_by_id session none = done none
parent_by_id session (some parent_id) = do
  parent ← caught (query (get_session parent_id))
  live_parent session parent

unfoldable pub parent_to_notify : Bool → Option Session → Job (Option Session)
unfolding parent_by_id
parent_to_notify true (some session) =
    if is_none session.outcome && is_run session.desired
    then parent_by_id session session.parent_session_id
    else done none
parent_to_notify _ _ = done none

abbrev execution_of : Option (Option Session) → Option String
execution_of (some (some s)) = some s.execution_id
execution_of _ = none

-- The execution that the transaction locks: the session's, or else that of the command.
unfoldable pub execution_to_lock : Option Session → Option String → Job (Option String)
unfolding caught find_command
execution_to_lock (some session) ack = done (some session.execution_id)
execution_to_lock none none = done none
execution_to_lock none (some ack_token) = do
  found ← caught (query (find_command ack_token))
  done (execution_of found)

abbrev no_outcomes : Option Session → Outcomes
no_outcomes session = record {
  turn_result_session = session;
  was_terminal_cancel = false;
  ack_stale_worker = false;
  turn_result_stale_worker = false;
  skip_reconciler = false;
}

module _ (server : Server) (req : WorkerSyncRequest) where
  unfoldable pub run_results : Option Session → Option Session → Option String → Job Outcomes
  unfolding with_retries take_results
  run_results session parent none = done (no_outcomes session)
  run_results session parent (some execution_id) = with_retries server.retryable 3 (
      take_results req.worker_id execution_id (should_notify req) req.turn_result session parent
        req.command_ack)

  unfoldable pub announce_result : Option Session → Job (Unit {0})
  announce_result none = done tt
  announce_result (some session) = broadcast session.execution_id (pos 0)

  -- With the session that another worker holds, if any, as a reason to skip the reconciler.
  unfoldable pub take_result : Job Outcomes
  unfolding result_session parent_to_notify execution_to_lock run_results announce_result
  take_result = do
    owned ← result_session req.worker_id req.turn_result
    parent ← parent_to_notify (should_notify req) owned.0
    execution_id ← execution_to_lock owned.0 req.command_ack
    outcomes ← run_results owned.0 parent execution_id
    (if outcomes.ack_stale_worker || outcomes.turn_result_stale_worker
        then kill_worker req.worker_id
        else done tt)
    announce_result outcomes.turn_result_session
    done (record outcomes { skip_reconciler = owned.1 || outcomes.skip_reconciler })

  abbrev pub needs_result_tx : Bool
  needs_result_tx = is_some req.turn_result || is_some req.command_ack

  unfoldable pub take_result_if_any : Job Outcomes
  unfolding take_result
  take_result_if_any = if needs_result_tx then take_result else done (no_outcomes none)
