-- ===== src/Transition/Activity.antt =====
-- scheduler/src/services/transition.rs: whether a session is at rest, and what the end of its root
-- makes of an execution.
pub mod Derived
use agentbeacon.Base.{
  ℕ, Bool, true, false, not, ◌&&◌, ◌||◌, List, [], ◌∷◌, Option, none, some, String, str_eq, is_none,
  is_some, ltb, ◌==◌, filter_where, any, if◌then◌else◌,
}
use agentbeacon.Tables.{
  Session, ExState, Outcome, unassigned, running, idle, crashed, completed, canceled, failed,
  is_stop, is_unassigned, is_running, is_idle, is_crashed, is_failed,
}
use agentbeacon.Tx.{SchedulerError, Tx, pure, gets, ◌>>=◌, ◌>>◌}
use agentbeacon.Statements.{attempt, fetch_one, find_session, count_pending_turns}

unfoldable pub state_is_quiescent : ExState → Session → Bool
state_is_quiescent idle s = true
state_is_quiescent unassigned s = is_none s.agent_session_id
state_is_quiescent crashed s = is_stop s.desired
state_is_quiescent running s = false

unfoldable pub is_quiescent : Session → ℕ → Bool
unfolding state_is_quiescent
is_quiescent s pending =
    if ltb 0 pending || is_some s.command_token
    then false
    else state_is_quiescent s.executor_state s

unfoldable pub is_active : Session → ℕ → Bool
is_active s pending = is_running s.executor_state || ltb 0 pending || is_some s.command_token

-- The test for rest as `derive_execution_outcome` writes it.
unfoldable pub slice_is_quiescent : Session → ℕ → Bool
slice_is_quiescent s pending =
    (is_idle s.executor_state
      || is_unassigned s.executor_state && is_none s.agent_session_id && is_none s.command_token
      || is_crashed s.executor_state && is_stop s.desired)
    && pending == 0
    && is_none s.command_token

unfoldable pub root_has_failed : Session → Bool
root_has_failed s = is_none s.parent_session_id && is_failed s.outcome

-- The second loop: a session that is active.
unfoldable pub some_active : List Session → Tx SchedulerError Bool
unfolding is_active
some_active [] = pure false
some_active (s ∷ ss) = do
  pending ← count_pending_turns s.id
  if is_active s pending then pure true else some_active ss

-- The third loop: a session with no outcome that is not at rest.
unfoldable pub some_unsettled : List Session → Tx SchedulerError Bool
unfolding slice_is_quiescent
some_unsettled [] = pure false
some_unsettled (s ∷ ss) =
    if is_none s.outcome
    then (do
      pending ← count_pending_turns s.id
      if slice_is_quiescent s pending then some_unsettled ss else pure true)
    else some_unsettled ss

unfoldable pub parent_outcome : String → Tx SchedulerError (Option Outcome)
unfolding attempt fetch_one
parent_outcome parent_id = do
  attempt "read parent outcome"
  found ← gets (λ d. find_session parent_id d.sessions)
  parent ← fetch_one "parent" found
  pure parent.outcome

-- Whether the parent of a failed session, not told of it yet, has no outcome.
unfoldable pub parent_awaits : Option String → Tx SchedulerError Bool
unfolding parent_outcome
parent_awaits none = pure false
parent_awaits (some parent_id) = do outcome ← parent_outcome parent_id; pure (is_none outcome)

-- The fourth loop: a failure that a parent is still to be told of.
unfoldable pub some_unreported : List Session → Tx SchedulerError Bool
unfolding parent_awaits
some_unreported [] = pure false
some_unreported (s ∷ ss) =
    if is_failed s.outcome && not s.parent_notified
    then (do
      awaits ← parent_awaits s.parent_session_id
      if awaits then pure true else some_unreported ss)
    else some_unreported ss

unfoldable pub sessions_of : String → List Session → List Session
unfolding filter_where
sessions_of execution_id ss = filter_where (λ s. str_eq s.execution_id execution_id) ss

unfoldable pub derive_execution_outcome : String → Tx SchedulerError Outcome
unfolding root_has_failed any sessions_of
derive_execution_outcome execution_id = do
  attempt "list sessions for derivation"
  sessions ← gets (λ d. sessions_of execution_id d.sessions)
  if any root_has_failed sessions then pure failed else do
    active ← some_active sessions
    if active then pure canceled else do
      unsettled ← some_unsettled sessions
      if unsettled then pure canceled else do
        unreported ← some_unreported sessions
        pure (if unreported then canceled else completed)
