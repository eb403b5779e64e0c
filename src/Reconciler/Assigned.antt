-- ===== src/Reconciler/Assigned.antt =====
-- The command that assigns a session to a worker.
-- What an assignment did, given that its parts are only read.
use agentbeacon.Reconciler.Delivery.{pop_turn-Ok}
use agentbeacon.Procedures.{Stopped, rolled_back}
use agentbeacon.Statements.Inverse.{
  begin_execution_tx-Ok, attempt-Ok, get_execution-Ok, update_sessions-Ok,
}
use agentbeacon.Reconciler.History.Steps.{
  ReadsOnly, compose_assignment-Unchanged, get_agent-Unchanged,
}
use agentbeacon.Statements.Work.{oldest_turn, get_agent, pop_turn}
use agentbeacon.Tx.Inverse.{Ok, bind-Ok, pure-Ok, map_err-Ok, asks-Ok, guard-Ok, if-Ok}
use agentbeacon.Json.{Json}
use agentbeacon.Tx.{◌>>=◌, to_option, ◌>>◌, pure, asks}
use agentbeacon.Statements.{
  touch_last_activity, update_executions, attempt, update_where, begin_execution_tx, get_execution,
  update_sessions,
}
use agentbeacon.Tables.{Session, Agent, Db, Env, Execution, Task, CommandType}
use agentbeacon.Base.{
  ℕ, ◌==◌, Bool, ◌≡◌, Option, false, String, ltb, true, arith, not, ◌&&◌, ap, is_none, count_where,
  sym, is_some, ◌∙◌, inl, inr, subst,
}
use agentbeacon.Reconciler.Commands.{
  Composer, compose_assignment, touch_root, ReconcilerAction, Assignment, payload_of, send_command,
  CommandAction, servers_of, may_assign, with_worker, with_command, Issue, issue_assign, lift,
  roll_back, send_assignment, has_ended,
}

pub record Assigned (c : Composer) (s : Session) (resume : Bool) (w : Option String)
    (token : String) (now : ℕ) (d d' : Db) (r : ReconcilerAction) : Type 0 where
  pub task : Option Task
  pub assignment : Assignment
  pub sent : r ≡ send_command token (CommandAction.assign assignment)
  pub for_session : assignment.session_id ≡ s.id
  pub payload : assignment.payload ≡ payload_of task
  pub popped : oldest_turn s.id d.task_queue ≡ task
  pub has_work : (not resume && is_none task) ≡ false
  pub found : ltb 0 (count_where (may_assign s.id) d.sessions) ≡ true
  pub written :
      d'.sessions
      ≡ update_where
          (may_assign s.id)
          (λ t. with_worker w (with_command token CommandType.assign (is_some task) now t))
          d.sessions

touch_root-Ok :
    (b : Bool) (s : Session) (u : Unit {0}) (e : Env) (d d' : Db)
    → Ok (touch_root b s) e d u d'
    → d'.sessions ≡ d.sessions
unfolding touch_root touch_last_activity update_executions attempt ◌>>=◌
touch_root-Ok b s u e d d' h = ground arith

compose-Ok :
    (c : Composer) (s : Session) (b : Bool) (g : Agent) (j : Json) (x : Execution) (t : Option Task)
    (e : Env) (d d' : Db) (a : Assignment)
    → Ok (compose_assignment c s b g j x t) e d a d'
    → (a.session_id ≡ s.id) × (a.payload ≡ payload_of t)
unfolding compose_assignment
compose-Ok c s b g j x t e d d' a h =
    let b1 = bind-Ok (c.agent_config s g x) _ a e d d' h in
    let b2 = bind-Ok (to_option (c.next_msg_seq s.id)) _ a e b1.1 d' b1.3 in
    let b3 = bind-Ok (servers_of c x.project_id) _ a e b2.1 d' b2.3 in
    let p = pure-Ok _ a e b3.1 d' b3.3 in
    (ap (λ (y : Assignment). y.session_id) (sym p.0), ap (λ (y : Assignment). y.payload) (sym p.0))

pop_turn-sessions :
    (id : String) (e : Env) (d d' : Db) (t : Option Task)
    → Ok (pop_turn id) e d t d'
    → d'.sessions ≡ d.sessions
unfolding pop_turn attempt ◌>>=◌
pop_turn-sessions id e d d' t h = ground arith

roll_back-Ok : (e : Env) (d d' : Db) (a : ReconcilerAction) → ¬ Ok roll_back e d a d'
unfolding roll_back attempt ◌>>=◌
roll_back-Ok e d d' a h = ground arith

positive : (n : ℕ) → (n == 0) ≡ false → ltb 0 n ≡ true
positive n h = ground arith

module _ (c : Composer) (r : ReadsOnly c) (s : Session) (resume : Bool) (w : Option String)
    (token : String) (e : Env) where
  -- The message after the row is written.
  send : Agent → Json → Execution → Option Task → Issue
  send agent driver tx_exec task = do
    lift (touch_root (is_some task) s)
    assignment ← lift (compose_assignment c s resume agent driver tx_exec task)
    lift (attempt "commit failed")
    pure (send_command token (CommandAction.assign assignment))

  record Sent (t : Option Task) (d d' : Db) (a : ReconcilerAction) : Type 0 where
    assignment : Assignment
    sent : a ≡ send_command token (CommandAction.assign assignment)
    for_session : assignment.session_id ≡ s.id
    payload : assignment.payload ≡ payload_of t
    sessions : d'.sessions ≡ d.sessions

  send-Sent :
      (g : Agent) (j : Json) (x : Execution) (t : Option Task) (d d' : Db) (a : ReconcilerAction)
      → Ok (send g j x t) e d a d'
      → Sent t d d' a
  unfolding send
  send-Sent g j x t d d' a h =
      let b1 = bind-Ok (lift (touch_root (is_some t) s)) _ a e d d' h in
      let e1 =
        touch_root-Ok (is_some t) s b1.0 e d b1.1
          (map_err-Ok Stopped.failed _ b1.0 e d b1.1 b1.2) in
      let b2 = bind-Ok (lift (compose_assignment c s resume g j x t)) _ a e b1.1 d' b1.3 in
      let m2 = map_err-Ok Stopped.failed _ b2.0 e b1.1 b2.1 b2.2 in
      let k2 = compose-Ok c s resume g j x t e b1.1 b2.1 b2.0 m2 in
      let e2 = (compose_assignment-Unchanged c r s resume g j x t).at e b1.1 b2.1 b2.0 m2 in
      let b3 = bind-Ok (lift (attempt "commit failed")) _ a e b2.1 d' b2.3 in
      let e3 =
        attempt-Ok e b2.1 b3.1 "commit failed" b3.0
          (map_err-Ok Stopped.failed _ b3.0 e b2.1 b3.1 b3.2) in
      let p = pure-Ok _ a e b3.1 d' b3.3 in
      record {
        assignment = b2.0;
        sent = sym p.0;
        for_session = k2.0;
        payload = k2.1;
        sessions = ap (λ (y : Db). y.sessions) (sym (e2 ∙ e3 ∙ p.1)) ∙ e1;
      }

  send_assignment-Assigned :
      (g : Agent) (j : Json) (x : Execution) (t : Option Task) (d0 d d' : Db) (a : ReconcilerAction)
      → d.sessions ≡ d0.sessions
      → oldest_turn s.id d0.task_queue ≡ t
      → (not resume && is_none t) ≡ false
      → Ok (send_assignment c s resume w token g j x t) e d a d'
      → Assigned c s resume w token e.now d0 d' a
  unfolding send_assignment send
  send_assignment-Assigned g j x t d0 d d' a rows popped work h =
      let b1 = bind-Ok (asks (λ (y : Env). y.now)) _ a e d d' h in
      let e1 = asks-Ok (λ (y : Env). y.now) b1.0 e d b1.1 b1.2 in
      let mark = λ (now : ℕ) (y : Session).
        with_worker w (with_command token CommandType.assign (is_some t) now y) in
      let b2 =
        bind-Ok (lift (update_sessions "issue assign failed" (may_assign s.id) (mark b1.0))) _ a e
          b1.1 d' b1.3 in
      let k2 =
        update_sessions-Ok e b1.1 b2.1 "issue assign failed" (may_assign s.id) (mark b1.0) b2.0
          (map_err-Ok Stopped.failed _ b2.0 e b1.1 b2.1 b2.2) in
      let same = ap (λ (y : Db). y.sessions) (sym e1.1) ∙ rows in
      elim (if-Ok (b2.0 == 0) roll_back _ a e b2.1 d' b2.3) [
        | inl nothing ↦ absurd (roll_back-Ok e b2.1 d' a nothing.1)
        | inr some_row ↦
            let k3 = send-Sent g j x t b2.1 d' a some_row.1 in
            record {
              task = t;
              assignment = k3.assignment;
              sent = k3.sent;
              for_session = k3.for_session;
              payload = k3.payload;
              popped = popped;
              has_work = work;
              found =
                  subst (λ ss. ltb 0 (count_where (may_assign s.id) ss) ≡ true) same
                    (subst (λ n. ltb 0 n ≡ true) (sym k2.0) (positive b2.0 some_row.0));
              written =
                  subst (λ ss. d'.sessions ≡ update_where (may_assign s.id) (mark e.now) ss) same
                    (subst
                      (λ now. d'.sessions ≡ update_where (may_assign s.id) (mark now) b1.1.sessions)
                      (sym e1.0) (k3.sessions ∙ ap (λ (y : Db). y.sessions) (sym k2.1)));
            }
      ]

  -- A session that is assigned to a worker has a row that should run, is unassigned and has no
  -- command; exactly such rows get the command, and the worker if there is one. The turn that is sent
  -- with it is the oldest of the session in the queue, and there is one unless the session resumes.
  pub issue_assign-Assigned :
      (d d' : Db) (a : ReconcilerAction)
      → Ok (issue_assign c s resume w token) e d a d'
      → Assigned c s resume w token e.now d d' a
  unfolding issue_assign
  issue_assign-Assigned d d' a h =
      let b1 = bind-Ok (lift (begin_execution_tx s.execution_id)) _ a e d d' h in
      let e1 =
        begin_execution_tx-Ok e d b1.1 s.execution_id b1.0
          (map_err-Ok Stopped.failed _ b1.0 e d b1.1 b1.2) in
      let b2 = bind-Ok (lift (get_agent s.agent_id)) _ a e b1.1 d' b1.3 in
      let e2 =
        (get_agent-Unchanged s.agent_id).at e b1.1 b2.1 b2.0
          (map_err-Ok Stopped.failed _ b2.0 e b1.1 b2.1 b2.2) in
      let b3 = bind-Ok (lift (c.driver_info b2.0 s)) _ a e b2.1 d' b2.3 in
      let e3 =
        (r.driver_info b2.0 s).at e b2.1 b3.1 b3.0
          (map_err-Ok Stopped.failed _ b3.0 e b2.1 b3.1 b3.2) in
      let b4 = bind-Ok (lift (get_execution s.execution_id)) _ a e b3.1 d' b3.3 in
      let e4 =
        get_execution-Ok e b3.1 b4.1 s.execution_id b4.0
          (map_err-Ok Stopped.failed _ b4.0 e b3.1 b4.1 b4.2) in
      let live = guard-Ok (has_ended b4.0) rolled_back _ a e b4.1 d' b4.3 in
      let b5 = bind-Ok (lift (pop_turn s.id)) _ a e b4.1 d' live.1 in
      let m5 = map_err-Ok Stopped.failed _ b5.0 e b4.1 b5.1 b5.2 in
      let work = guard-Ok (not resume && is_none b5.0) rolled_back _ a e b5.1 d' b5.3 in
      let read = e1 ∙ e2 ∙ e3 ∙ e4.1 in
      subst (λ (y : Db). Assigned c s resume w token e.now y d' a) (sym read)
        (send_assignment-Assigned b2.0 b3.0 b4.0 b5.0 b4.1 b5.1 d' a
          (pop_turn-sessions s.id e b4.1 b5.1 b5.0 m5) (pop_turn-Ok s.id e b4.1 b5.1 b5.0 m5).0
          work.0 work.1)
