-- ===== src/Transition/Executor/Owner.antt =====
-- Who may report of an executor.
use agentbeacon.Statements.Inverse.{
  begin_execution_tx-Ok, get_session-Ok, update_sessions-Ok, attempt-Ok,
}
use agentbeacon.Tables.{Env, Db}
use agentbeacon.Base.{some, true, Option, String, ◌≡◌, arith, ltb, is_some, ◌==◌, ◌&&◌, is_none}
use agentbeacon.Base.{count_where}
use agentbeacon.Tables.{crashed, idle, running, unassigned}
use agentbeacon.Transition.Executor.{
  set_executor_state, write_report, announce_loss, announce_state, reported, may_report, CrashMeta,
  ExState, Session,
}
use agentbeacon.Statements.{
  insert_event, verify_session_owner, append_event, attempt, find_session, update_where,
}
use agentbeacon.Tx.{◌>>=◌}
use agentbeacon.Tx.Inverse.{Ok, bind-Ok, map_err-Ok, asks-Ok, guard-Ok}

announce_loss-Ok :
    (x : ExState) (c s : Session) (e : Env) (d d' : Db) (u : Unit {0})
    → Ok (announce_loss x c s) e d u d'
    → (d'.sessions ≡ d.sessions) × (d'.task_queue ≡ d.task_queue)
unfolding announce_loss insert_event verify_session_owner append_event attempt ◌>>=◌
announce_loss-Ok crashed c s e d d' u h = ground arith
announce_loss-Ok idle c s e d d' u h = ground arith
announce_loss-Ok running c s e d d' u h = ground arith
announce_loss-Ok unassigned c s e d d' u h = ground arith

announce_state-Ok :
    (x y : ExState) (m : Option CrashMeta) (s : Session) (e : Env) (d d' : Db) (u : Unit {0})
    → Ok (announce_state x y s m) e d u d'
    → (d'.sessions ≡ d.sessions) × (d'.task_queue ≡ d.task_queue)
unfolding announce_state insert_event verify_session_owner append_event attempt ◌>>=◌
announce_state-Ok crashed y m s e d d' u h = ground arith
announce_state-Ok idle y m s e d d' u h = ground arith
announce_state-Ok running y m s e d d' u h = ground arith
announce_state-Ok unassigned y m s e d d' u h = ground arith

write_report-Ok :
    (s : Session) (x : ExState) (w : String) (m : Option CrashMeta) (e : Env) (d d' : Db)
    (u : Unit {0})
    → Ok (write_report s x w m) e d u d'
    → (t : Session) × (find_session s.id d.sessions ≡ some t)
      × (ltb 0 (count_where (may_report s.id w) d.sessions) ≡ true)
      × (d'.sessions ≡ update_where (may_report s.id w) (reported x t e.now) d.sessions)
      × (d'.task_queue ≡ d.task_queue)
unfolding write_report
write_report-Ok s x w m e d d' u h =
    let b1 = bind-Ok _ _ u e d d' h in
    let r1 = begin_execution_tx-Ok e d b1.1 _ b1.0 (map_err-Ok _ _ b1.0 e d b1.1 b1.2) in
    let b2 = bind-Ok _ _ u e b1.1 d' b1.3 in
    let r2 = get_session-Ok e b1.1 b2.1 _ b2.0 (map_err-Ok _ _ b2.0 e b1.1 b2.1 b2.2) in
    let b3 = bind-Ok _ _ u e b2.1 d' b2.3 in
    let r3 = announce_loss-Ok x b2.0 s e b2.1 b3.1 b3.0 b3.2 in
    let b4 = bind-Ok _ _ u e b3.1 d' b3.3 in
    let r4 = asks-Ok _ b4.0 e b3.1 b4.1 b4.2 in
    let b5 = bind-Ok _ _ u e b4.1 d' b4.3 in
    let r5 = update_sessions-Ok e b4.1 b5.1 _ _ _ b5.0 (map_err-Ok _ _ b5.0 e b4.1 b5.1 b5.2) in
    let r6 = guard-Ok (b5.0 == 0) _ _ u e b5.1 d' b5.3 in
    let b7 = bind-Ok _ _ u e b5.1 d' r6.1 in
    let r7 = announce_state-Ok x b2.0.executor_state m s e b5.1 b7.1 b7.0 b7.2 in
    let r8 = attempt-Ok e b7.1 d' _ u (map_err-Ok _ _ u e b7.1 d' b7.3) in
    (b2.0, ground arith, ground arith, ground arith, ground arith)

-- A report that is accepted comes from the worker that holds the session, and the session has no
-- outcome or a command out: some row has this id, this worker, and one of these. Exactly the rows
-- that do become what the report makes of them, with the row that the transaction read; the queue
-- of turns does not change.
pub report_by_owner :
    (s : Session) (x : ExState) (w : String) (m : Option CrashMeta) (e : Env) (d d' : Db)
    → Ok (set_executor_state s x w m) e d tt d'
    → (t : Session) × (find_session s.id d.sessions ≡ some t)
      × (ltb 0 (count_where (may_report s.id w) d.sessions) ≡ true)
      × (d'.sessions ≡ update_where (may_report s.id w) (reported x t e.now) d.sessions)
      × (d'.task_queue ≡ d.task_queue)
unfolding set_executor_state
report_by_owner s x w m e d d' h =
    write_report-Ok s x w m e d d' tt
      (guard-Ok (is_some s.outcome && is_none s.command_token) _ _ tt e d d' h).1
