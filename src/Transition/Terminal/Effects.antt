-- ===== src/Transition/Terminal/Effects.antt =====
-- When an execution is ended, and what that writes.
use agentbeacon.Base.{
  none, some, true, count_where, String, Bool, Option, ℕ, ◌&&◌, is_none, ltb, not, ◌≡◌, ap, arith,
  if◌then◌else◌, ◌||◌, ◌∙◌, sym,
}
use agentbeacon.Tables.{
  terminate, failed, Outcome, Session, Env, Execution, Db, is_terminate, is_run, is_crashed,
}
use agentbeacon.Transition.Terminal.{
  write_execution_terminal, write_execution_terminal_in_tx, find_root, root_is_terminal,
}
use agentbeacon.Transition.Desire.{terminate_failed, write_outcome}
use agentbeacon.Transition.Desire.Ends.{ended_row, end_session-Ok}
use agentbeacon.Statements.{
  attempt, fetch_one, begin_execution_tx, update_executions, insert_event, verify_session_owner,
  append_event, update_where, execution_has_id, session_has_id,
}
use agentbeacon.Statements.Inverse.{begin_execution_tx-Ok, attempt-Ok}
use agentbeacon.Tx.{◌>>=◌}
use agentbeacon.Tx.Inverse.{Ok, bind-Ok, map_err-Ok, guard-Ok}

-- The executions that an end takes: the one of this id, while it has no outcome.
abbrev pub is_open : String → Execution → Bool
is_open id x = execution_has_id id x && is_none x.outcome

abbrev pub ended_execution : Outcome → ℕ → Execution → Execution
ended_execution o now x = record x {
  desired = terminate;
  outcome = some o;
  updated_at = now;
  completed_at = some now;
  last_activity_at = now;
}

in_tx-Ok :
    (x : String) (o : Outcome) (e : Env) (d d' : Db) (wrote : Bool)
    → Ok (write_execution_terminal_in_tx x o) e d wrote d'
    → (wrote ≡ ltb 0 (count_where (is_open x) d.executions))
      × (d'.sessions ≡ d.sessions)
      × (d'.executions ≡ update_where (is_open x) (ended_execution o e.now) d.executions)
unfolding write_execution_terminal_in_tx update_executions insert_event verify_session_owner
    append_event attempt ◌>>=◌
in_tx-Ok x o e d d' wrote h = ground arith

-- An execution is ended only if its first root session has an outcome. Then it is written exactly if
-- it has no outcome yet, and the result says whether it was; else nothing changes. No session does.
pub execution_ends :
    (x : String) (o : Outcome) (e : Env) (d d' : Db) (wrote : Bool)
    → Ok (write_execution_terminal x o) e d wrote d'
    → (wrote ≡ (root_is_terminal (find_root x d) && ltb 0 (count_where (is_open x) d.executions)))
      × (d'.sessions ≡ d.sessions)
      × (d'.executions ≡ (
          if root_is_terminal (find_root x d)
          then update_where (is_open x) (ended_execution o e.now) d.executions
          else d.executions))
unfolding write_execution_terminal write_execution_terminal_in_tx begin_execution_tx fetch_one
    update_executions insert_event verify_session_owner append_event attempt ◌>>=◌
execution_ends x o e d d' wrote h = ground arith

-- The rows that a termination as failed takes.
abbrev pub may_fail : String → Bool → Session → Bool
may_fail id require_crashed s =
    session_has_id id s
    && not (is_terminate s.desired)
    && (not require_crashed || is_run s.desired && is_crashed s.executor_state && is_none s.outcome)

write_outcome-Ok :
    (s : Session) (o : Option Outcome) (e : Env) (d d' : Db) (u : Unit {0})
    → Ok (write_outcome s o) e d u d'
    → d'.sessions ≡ d.sessions
unfolding write_outcome write_execution_terminal_in_tx update_executions insert_event
    verify_session_owner append_event attempt ◌>>=◌
write_outcome-Ok s none e d d' u h = ground arith
write_outcome-Ok s (some o) e d d' u h = ground arith

-- A termination as failed that is accepted finds a row under this id that is not terminated, and
-- that, where a crash is required, should run, is crashed and has no outcome. Exactly such rows
-- become terminated as failed, by this actor at this time.
pub failed_ends :
    (s : Session) (by : String) (require_crashed : Bool) (e : Env) (d d' : Db)
    → Ok (terminate_failed s by require_crashed) e d tt d'
    → (ltb 0 (count_where (may_fail s.id require_crashed) d.sessions) ≡ true)
      × (d'.sessions
          ≡ update_where (may_fail s.id require_crashed) (ended_row failed by e.now) d.sessions)
unfolding terminate_failed
failed_ends s by r e d d' h =
    let r1 = guard-Ok (is_terminate s.desired) _ _ tt e d d' h in
    let b2 = bind-Ok _ _ tt e d d' r1.1 in
    let r2 = begin_execution_tx-Ok e d b2.1 _ b2.0 (map_err-Ok _ _ b2.0 e d b2.1 b2.2) in
    let b3 = bind-Ok _ _ tt e b2.1 d' b2.3 in
    let r3 = end_session-Ok s _ _ _ _ e b2.1 b3.1 b3.0 b3.2 in
    let b4 = bind-Ok _ _ tt e b3.1 d' b3.3 in
    let r4 = write_outcome-Ok s _ e b3.1 b4.1 b4.0 b4.2 in
    let r5 = attempt-Ok e b4.1 d' _ tt (map_err-Ok _ _ tt e b4.1 d' b4.3) in
    (
      ap (λ (x : Db). ltb 0 (count_where (may_fail s.id r) x.sessions)) r2 ∙ r3.0,
      ap (λ (x : Db). x.sessions) (sym r5)
          ∙ r4
          ∙ r3.1
          ∙ ap (λ (x : Db). update_where (may_fail s.id r) (ended_row failed by e.now) x.sessions)
              (sym r2),
    )
