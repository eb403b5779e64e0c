-- ===== src/Synchronisation/Handler.antt =====
-- scheduler/src/api/handlers/worker_sync.rs: `process_executor_report` and `worker_sync`.
-- Job Proc
use agentbeacon.Transition.Actions.{Action}
use agentbeacon.Tx.{database}
use agentbeacon.Procedures.{done, ◌>>=◌, ◌>>◌, map_raise, kill_worker}
use agentbeacon.Transition.Executor.{CrashMeta}
use agentbeacon.Tables.{Session, ExState, is_terminate, ex_state_text}
use agentbeacon.Synchronisation.Requests.{ExecutorReport, caught, TurnResult, holds}
use agentbeacon.Statements.{get_session}
use agentbeacon.Reconciler.Cascade.{run_transition, Job, fails, query, scheduler}
use agentbeacon.Statements.Sync.{update_agent_session_id}
use agentbeacon.Base.{
  Bool, String, true, Option, false, str_eq, is_some, none, if◌then◌else◌, some, ◌&&◌, not, ◌||◌,
}

abbrev pub parse_state : String → Option ExState
parse_state text =
    if str_eq text "running"
    then some ExState.running
    else if str_eq text "idle"
    then some ExState.idle
    else if str_eq text "crashed"
    then some ExState.crashed
    else none

-- What the stage of the executor's report came to.
pub record Reported : Type 0 where
  pub skip_reconciler : Bool
  pub executor_report_succeeded : Bool
  pub session_scoped_reconcile : Option String

abbrev pub skipping : Reported
skipping = record {
  skip_reconciler = true;
  executor_report_succeeded = false;
  session_scoped_reconcile = none;
}

unfoldable pub remember_agent_session : Session → Option String → String → Job (Unit {0})
unfolding update_agent_session_id
remember_agent_session session none worker_id = done tt
remember_agent_session session (some id) worker_id =
    query (update_agent_session_id session.id id worker_id)

unfoldable pub apply_report :
    Session → String → ExecutorReport → Option CrashMeta → Option ExState → Job Bool
unfolding remember_agent_session run_transition
apply_report session worker_id report crash_meta none = fails "unknown executor_state"
apply_report session worker_id report crash_meta (some state) = do
  remember_agent_session session report.agent_session_id worker_id
  map_raise (λ _. scheduler (database "transition failed"))
      (run_transition session.execution_id session.id
        (Action.set_executor_state state worker_id crash_meta))
  done true

unfoldable pub process_executor_report : String → ExecutorReport → Option CrashMeta → Job Bool
unfolding get_session apply_report
process_executor_report worker_id report crash_meta = do
  session ← query (get_session report.session_id)
  if holds worker_id session
      then apply_report session worker_id report crash_meta (parse_state report.executor_state)
      else (do kill_worker worker_id; done false)

abbrev is_crash : ExecutorReport → Bool
is_crash report = str_eq report.executor_state "crashed"

abbrev crash_meta_of : ExecutorReport → Option TurnResult → Option CrashMeta
crash_meta_of report none = none
crash_meta_of report (some result) =
    if is_crash report && str_eq result.session_id report.session_id
    then some
        (record { error = result.error; error_kind = result.error_kind; stderr = result.stderr })
    else none

-- The session does not stand as the report that failed says.
abbrev disagrees : String → ExecutorReport → Session → Bool
disagrees worker_id report s =
    (is_some s.outcome && not (is_terminate s.desired))
    || not (str_eq (ex_state_text s.executor_state) report.executor_state)
    || not (holds worker_id s)

unfoldable pub after_failed_report : String → ExecutorReport → Option Session → Job Reported
after_failed_report worker_id report none = done skipping
after_failed_report worker_id report (some session) =
    if disagrees worker_id report session
    then (do (if holds worker_id session then done tt else kill_worker worker_id); done skipping)
    else done (record {
      skip_reconciler = false;
      executor_report_succeeded = false;
      session_scoped_reconcile = some report.session_id;
    })

unfoldable pub after_report : String → ExecutorReport → Option Bool → Job Reported
unfolding caught get_session after_failed_report
after_report worker_id report (some applied) = done (record {
  skip_reconciler = not applied || is_crash report;
  executor_report_succeeded = applied;
  session_scoped_reconcile = none;
})
after_report worker_id report none = if is_crash report then done skipping else do
  session ← caught (query (get_session report.session_id))
  after_failed_report worker_id report session

unfoldable pub take_report : String → Option ExecutorReport → Option TurnResult → Job Reported
unfolding caught process_executor_report after_report
take_report worker_id none turn_result = done (record {
  skip_reconciler = false;
  executor_report_succeeded = false;
  session_scoped_reconcile = none;
})
take_report worker_id (some report) turn_result = do
  applied ← caught (process_executor_report worker_id report (crash_meta_of report turn_result))
  after_report worker_id report applied
