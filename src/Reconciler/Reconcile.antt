-- ===== src/Reconciler/Reconcile.antt =====
-- scheduler/src/services/reconciler.rs: `reconcile`, one step towards the desired state of a session.
-- The rows `session` and `execution` and the number `pending_turns` were read before.
use agentbeacon.Transition.Actions.{Action}
use agentbeacon.Json.{obj, field, str, end}
use agentbeacon.Statements.{get_execution, get_session}
use agentbeacon.Reconciler.Repair.{
  is_unfinished, repair_root, is_undecided, repair_child, clear_crashed_command, repair_desired,
  repair_execution,
}
use agentbeacon.Procedures.{
  done, transact, attempted, kill_worker, map_raise, new_id, ◌>>=◌, ◌>>◌, read_clock,
  transact_or_roll_back,
}
use agentbeacon.Reconciler.Finalize.{finalize}
use agentbeacon.Statements.Work.{get_agent, insert_locked, get_children}
use agentbeacon.Tx.{Result, Rejected, SchedulerError, database, ok, err, missing}
use agentbeacon.Tables.{
  Desired, Session, CommandType, ExState, Execution, Agent, is_crashed, is_run, is_terminate,
  platform,
}
use agentbeacon.Reconciler.Cascade.{
  cascade_children, ignored, run_terminate_failed, run_transition, terminate_and_cascade, Job,
  query, is_live, scheduler, cascade_action, is_ratchet, fails,
}
use agentbeacon.Reconciler.Commands.{
  Composer, Issue, ReconcilerAction, issue_cancel, issue_stop_turn, mutated, pending_command,
  issue_feed_turn, no_action, issue_assign,
}
use agentbeacon.Base.{
  Bool, Option, String, ℕ, List, str_eq, false, if◌then◌else◌, some, ◌&&◌, ◌||◌, leb, ltb, none,
  ◌∷◌, is_none, is_some, true, ◌-◌, ◌/◌, [],
}

abbrev pub max_recovery_attempts : ℕ
max_recovery_attempts = 2

-- Times are in microseconds.
abbrev micros_per_second : ℕ
micros_per_second = 1000000

abbrev pub issue : Issue → Job ReconcilerAction
issue m = map_raise scheduler (transact_or_roll_back no_action m)

abbrev pub with_id : (String → Issue) → Job ReconcilerAction
with_id f = do token ← new_id; issue (f token)

unfoldable pub terminate_loop : String → List Session → Job (Unit {0})
unfolding run_transition ignored
terminate_loop execution_id [] = done tt
terminate_loop execution_id (child ∷ rest) = do
  (if is_live child
      then ignored {E = Rejected} (run_transition execution_id child.id cascade_action)
      else done tt)
  terminate_loop execution_id rest

unfoldable pub terminate_children : Session → Job (Unit {0})
unfolding terminate_loop
terminate_children session =
    if is_terminate session.desired
    then (do
      children ← query (get_children session.id)
      terminate_loop session.execution_id children)
    else done tt

abbrev pub timeout_secs : Option CommandType → ℕ
timeout_secs (some CommandType.assign) = 60
timeout_secs (some CommandType.feed_turn) = 5
timeout_secs (some CommandType.stop_turn) = 15
timeout_secs (some CommandType.cancel) = 15
timeout_secs none = 60

unfoldable pub command_expired : Option CommandType → Option ℕ → Job Bool
command_expired command_type none = done false
command_expired command_type (some command_at) = do
  now ← read_clock
  done (ltb (timeout_secs command_type) ((now - command_at) / micros_per_second))

unfoldable pub kill : Option String → Bool → Job (Unit {0})
kill none supervised = done tt
kill (some worker_id) supervised = if supervised then kill_worker worker_id else done tt

unfoldable pub say : Session → String → Job (Unit {0})
unfolding ignored
say session text = ignored {E = SchedulerError} (
    transact (
      insert_locked session.execution_id (some session.id) platform
        (obj (field "message" (str text) end))))

-- A command that no worker acknowledged in time.
unfoldable pub expire_command : Session → Bool → Job ReconcilerAction
unfolding kill say run_transition ignored
expire_command session supervised = do
  (if session.command_has_payload
      then say session "Agent recovered from a crash. A message may have been lost."
      else done tt)
  kill session.worker_id supervised
  ignored {E = Rejected} (run_transition session.execution_id session.id Action.detect_crash)
  done mutated

-- The command that the desired state wants instead of the one that is out.
abbrev pub needed_command : Desired → ExState → Option CommandType → Option CommandType
needed_command Desired.terminate state out = some CommandType.cancel
needed_command Desired.stop ExState.running out = some CommandType.stop_turn
needed_command Desired.stop state (some CommandType.assign) = some CommandType.stop_turn
needed_command Desired.stop state (some CommandType.feed_turn) = some CommandType.stop_turn
needed_command _ state out = none

abbrev pub priority : Option CommandType → ℕ
priority (some CommandType.cancel) = 3
priority (some CommandType.stop_turn) = 2
priority _ = 1

unfoldable pub outranks : Option CommandType → Option CommandType → Bool
outranks none out = false
outranks (some needed) out = ltb (priority out) (priority (some needed))

unfoldable pub issue_needed : Session → Option CommandType → Job ReconcilerAction
issue_needed session (some CommandType.stop_turn) = with_id (issue_stop_turn session)
issue_needed session (some CommandType.cancel) = with_id (issue_cancel session)
issue_needed session _ = done pending_command

unfoldable pub pending : Session → Bool → Job ReconcilerAction
unfolding outranks issue_needed
pending session command_ok =
    let needed = needed_command session.desired session.executor_state session.command_type in
    if command_ok && outranks needed session.command_type
    then issue_needed session needed
    else done pending_command

-- A session with a command out.
unfoldable pub await_command : Session → Bool → Bool → Job ReconcilerAction
unfolding command_expired expire_command pending
await_command session command_ok supervised =
    if is_crashed session.executor_state then issue (clear_crashed_command session) else (do
      expired ← command_expired session.command_type session.command_at
      if expired then expire_command session supervised else pending session command_ok)

abbrev says_deleted : Result SchedulerError Agent → Bool
says_deleted (ok agent) = is_some agent.deleted_at
says_deleted (err (missing what)) = true
says_deleted (err _) = false

unfoldable pub is_agent_deleted : String → Job Bool
unfolding get_agent
is_agent_deleted agent_id = do
  found ← attempted {E = SchedulerError} (transact (get_agent agent_id))
  done (says_deleted found)

abbrev is_resumable : String → Bool
is_resumable agent_type =
    str_eq agent_type "claude_sdk"
    || str_eq agent_type "copilot_sdk"
    || str_eq agent_type "codex_sdk"

unfoldable pub recoverable : Session → ℕ → Job Bool
unfolding get_agent
recoverable session pending_turns =
    if leb max_recovery_attempts session.recovery_attempts then done false else (do
      execution ← query (get_execution session.execution_id)
      if is_some execution.outcome then done false else do
        agent ← query (get_agent session.agent_id)
        done (
            if is_some agent.deleted_at
            then false
            else if is_some session.agent_session_id
            then is_resumable agent.agent_type && is_some session.cwd
            else ltb 0 pending_turns))

unfoldable pub retry : Session → Job ReconcilerAction
unfolding run_transition
retry session = do
  map_raise (λ _. scheduler (database "retry recovery failed"))
      (run_transition session.execution_id session.id Action.retry_recovery)
  done mutated

-- A crashed session is given up: the rest after its termination as failed.
unfoldable pub after_failed : ℕ → Session → Result Rejected (Unit {0}) → Job ReconcilerAction
unfolding say cascade_children
after_failed fuel session (ok a) = do
  say session "Agent session failed permanently. Work or messages may have been lost."
  fresh ← query (get_session session.id)
  cascade_children fuel fresh
  done mutated
after_failed fuel session (err x) =
    if is_ratchet x then done no_action else fails "terminate failed failed"

unfoldable pub fail_session : ℕ → Session → Job ReconcilerAction
unfolding run_terminate_failed after_failed
fail_session fuel session = do
  result ←
      attempted {E = Rejected}
        (run_terminate_failed session.execution_id session.id "system:crash_unrecoverable" true)
  after_failed fuel session result

unfoldable pub agent_gone : ℕ → Session → Job ReconcilerAction
unfolding terminate_and_cascade
agent_gone fuel session = do terminate_and_cascade fuel session "system:agent_deleted"; done mutated

unfoldable pub finalize_now : Session → Job ReconcilerAction
unfolding finalize
finalize_now session = do query (finalize session); done mutated

unfoldable pub cancel_if : Bool → Session → Job ReconcilerAction
cancel_if command_ok session = if command_ok then with_id (issue_cancel session) else done no_action

module _ (c : Composer) (fuel : ℕ) (session : Session) (pending_turns : ℕ) (execution : Execution)
    (command_ok : Bool) (worker_id : Option String) where
  -- A command may be sent for an execution that runs.
  abbrev may_send : Bool
  may_send = command_ok && is_run execution.desired && is_none execution.outcome

  unfoldable pub feed_if_pending : Job ReconcilerAction
  feed_if_pending =
      if ltb 0 pending_turns && may_send then with_id (issue_feed_turn session) else done no_action

  unfoldable pub assign_if_needed : Job ReconcilerAction
  unfolding is_agent_deleted agent_gone
  assign_if_needed = do
    deleted ← is_agent_deleted session.agent_id
    if deleted
        then agent_gone fuel session
        else if (ltb 0 pending_turns || is_some session.agent_session_id) && may_send
        then with_id (issue_assign c session (is_some session.agent_session_id) worker_id)
        else done no_action

  unfoldable pub recover : Job ReconcilerAction
  unfolding is_agent_deleted agent_gone recoverable retry fail_session
  recover = do
    deleted ← is_agent_deleted session.agent_id
    if deleted then agent_gone fuel session else do
      again ← recoverable session pending_turns
      if again then retry session else fail_session fuel session

  -- The table of the desired and the executor's state.
  unfoldable pub advance : Desired → ExState → Job ReconcilerAction
  unfolding assign_if_needed feed_if_pending recover cancel_if finalize_now
  advance Desired.run ExState.unassigned = assign_if_needed
  advance Desired.run ExState.running = feed_if_pending
  advance Desired.run ExState.idle = feed_if_pending
  advance Desired.run ExState.crashed = recover
  advance Desired.stop ExState.running =
      if command_ok then with_id (issue_stop_turn session) else done no_action
  advance Desired.stop ExState.idle = done no_action
  advance Desired.stop ExState.unassigned = done no_action
  advance Desired.stop ExState.crashed = done no_action
  advance Desired.terminate ExState.running = cancel_if command_ok session
  advance Desired.terminate ExState.idle =
      if is_some session.worker_id then cancel_if command_ok session else finalize_now session
  advance Desired.terminate ExState.unassigned = finalize_now session
  advance Desired.terminate ExState.crashed = finalize_now session

  unfoldable pub repair_unfinished : Job ReconcilerAction
  unfolding repair_root repair_child
  repair_unfinished =
      if is_none session.parent_session_id
      then issue (repair_root session execution)
      else query (repair_child session)

  unfoldable pub reconcile : Bool → Job ReconcilerAction
  unfolding is_unfinished is_undecided repair_unfinished repair_desired repair_execution
      terminate_children await_command advance
  reconcile supervised =
      if is_unfinished session
      then repair_unfinished
      else if is_undecided session
      then query (repair_desired session)
      else if is_none session.parent_session_id
          && is_some session.outcome
          && is_none execution.outcome
      then issue (repair_execution session)
      else (do
        terminate_children session
        if is_some session.command_token
            then await_command session command_ok supervised
            else advance session.desired session.executor_state)
