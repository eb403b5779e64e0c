-- ===== src/Transition/Recovery/Effects.antt =====
-- What a detected crash and a recovery do to the session's row.
use agentbeacon.Base.{
  count_where, none, true, ◌+◌, String, Bool, ltb, ◌&&◌, is_some, ◌≡◌, arith, is_none, ◌||◌,
}
use agentbeacon.Tables.{crashed, unassigned, Session, Env, Db, is_crashed, is_run}
use agentbeacon.Transition.Recovery.{
  detect_crash, retry_recovery, announce_recovery, cleared_command,
}
use agentbeacon.Statements.{
  attempt, fetch_one, get_session, begin_execution_tx, update_sessions, insert_event,
  verify_session_owner, append_event, update_where, session_has_id,
}
use agentbeacon.Tx.{◌>>=◌}
use agentbeacon.Tx.Inverse.{Ok}

-- The rows that a recovery takes.
abbrev pub may_retry : String → Session → Bool
may_retry id s =
    session_has_id id s && is_crashed s.executor_state && is_none s.outcome && is_run s.desired

-- The rows that a crash is detected for.
abbrev pub may_crash : String → Session → Bool
may_crash id s = session_has_id id s && (is_some s.worker_id || is_some s.command_token)

-- A recovery that is accepted finds a row with this id that is crashed, should run and has no
-- outcome; exactly such rows become unassigned with one more attempt, and no turn is lost.
pub recovery_counts :
    (s : Session) (e : Env) (d d' : Db)
    → Ok (retry_recovery s) e d tt d'
    → (ltb 0 (count_where (may_retry s.id) d.sessions) ≡ true)
      × (d'.sessions
          ≡ update_where
              (may_retry s.id)
              (λ t. record t {
                executor_state = unassigned;
                recovery_attempts = t.recovery_attempts + 1;
                updated_at = e.now;
              })
              d.sessions)
      × (d'.task_queue ≡ d.task_queue)
unfolding retry_recovery announce_recovery begin_execution_tx update_sessions insert_event
    verify_session_owner append_event get_session attempt fetch_one ◌>>=◌
recovery_counts s e d d' h = ground arith

-- A crash that is detected finds a row with this id that a worker holds or that has a command out;
-- exactly such rows become crashed, with no worker and no command, and no turn is lost.
pub crash_releases :
    (s : Session) (e : Env) (d d' : Db)
    → Ok (detect_crash s) e d tt d'
    → (ltb 0 (count_where (may_crash s.id) d.sessions) ≡ true)
      × (d'.sessions
          ≡ update_where
              (may_crash s.id)
              (λ t. record (cleared_command t) {
                executor_state = crashed;
                worker_id = none;
                updated_at = e.now;
              })
              d.sessions)
      × (d'.task_queue ≡ d.task_queue)
unfolding detect_crash begin_execution_tx update_sessions insert_event verify_session_owner
    append_event get_session attempt fetch_one ◌>>=◌
crash_releases s e d d' h = ground arith
