-- ===== src/Reconciler/Delivery.antt =====
-- The command that feeds a turn, against the queue as a first-in-first-out list.
use agentbeacon.Statements.Inverse.{begin_execution_tx-Ok, get_execution-Ok}
use agentbeacon.Procedures.{Stopped, rolled_back}
use agentbeacon.Tx.{◌>>=◌}
use mathlib.Core.Option.{some-injective}
use agentbeacon.Tx.Inverse.{Ok, bind-Ok, map_err-Ok, guard-Ok}
use agentbeacon.Statements.{
  pending_turns, task_is_of, update_where, attempt, update_sessions, touch_last_activity,
  update_executions, begin_execution_tx, get_execution,
}
use agentbeacon.Reconciler.Commands.{
  issue_feed_turn, ReconcilerAction, send_command, CommandAction, may_feed, with_command, feed_task,
  roll_back, touch_root, lift, has_ended,
}
use agentbeacon.Tables.{Session, Env, Db, Task, CommandType}
use agentbeacon.Statements.Work.{oldest_turn, without_oldest, pop_turn}
use agentbeacon.Base.{
  String, List, find, ℕ, ◌≡◌, count_where, ◌++◌, some, ◌∷◌, Bool-cases, ltb, inl, true, sym,
  if_true, ◌∙◌, Option, [], none, arith, is_some, str_eq_iff, subst, ap, inr, if_false, refl,
}

-- The oldest turn of a session, with what stands before it and after it.
pub record Oldest (id : String) (ts : List Task) (t : Task) (rest : List Task) : Type 0 where
  pub before : List Task
  pub after : List Task
  pub turn : t.session_id ≡ id
  pub first : pending_turns id before ≡ 0
  pub queue : ts ≡ before ++ t ∷ after
  pub left : rest ≡ before ++ after

oldest_turn-Oldest :
    (id : String) (ts : List Task) (t : Task)
    → oldest_turn id ts ≡ some t
    → Oldest id ts t (without_oldest id ts)
unfolding oldest_turn find without_oldest pending_turns count_where
oldest_turn-Oldest id [] t h = absurd (cc)
oldest_turn-Oldest id (x ∷ xs) t h = elim (Bool-cases (task_is_of id x)) [
  | inl hit ↦
      let e = some-injective x t (sym (if_true _ (some x) (find (task_is_of id) xs) hit) ∙ h) in
      subst (Oldest id (x ∷ xs) t) (sym (if_true _ xs (x ∷ without_oldest id xs) hit)) (record {
        before = [];
        after = xs;
        turn = (str_eq_iff t.session_id id).0 (subst (λ (y : Task). task_is_of id y ≡ true) e hit);
        first = refl;
        queue = ap (λ (y : Task). y ∷ xs) e;
        left = refl;
      })
  | inr miss ↦
      let r =
        oldest_turn-Oldest id xs t (sym (if_false _ (some x) (find (task_is_of id) xs) miss) ∙ h) in
      subst (Oldest id (x ∷ xs) t) (sym (if_false _ xs (x ∷ without_oldest id xs) miss)) (record {
        before = x ∷ r.before;
        after = r.after;
        turn = r.turn;
        first = if_false _ _ _ miss ∙ r.first;
        queue = ap (λ (ys : List Task). x ∷ ys) r.queue;
        left = ap (λ (ys : List Task). x ∷ ys) r.left;
      })
]

pub pop_turn-Ok :
    (id : String) (e : Env) (d d' : Db) (t : Option Task)
    → Ok (pop_turn id) e d t d'
    → (oldest_turn id d.task_queue ≡ t)
      × (is_some t ≡ true → record d { task_queue = without_oldest id d.task_queue } ≡ d')
unfolding pop_turn attempt ◌>>=◌
pop_turn-Ok id e d d' t h = ground arith

feed_task-Fed :
    (s : Session) (token : String) (e : Env) (d d' : Db) (t : Task) (r : ReconcilerAction)
    → Ok (feed_task s token (some t)) e d r d'
    → (r ≡ send_command token (CommandAction.feed_turn s.id t.task_payload))
      × (d'.task_queue ≡ d.task_queue)
      × (ltb 0 (count_where (may_feed s.id s.worker_id) d.sessions) ≡ true)
      × (d'.sessions
          ≡ update_where
              (may_feed s.id s.worker_id)
              (with_command token CommandType.feed_turn true e.now)
              d.sessions)
unfolding feed_task update_sessions attempt roll_back touch_root touch_last_activity
    update_executions ◌>>=◌
feed_task-Fed s token e d d' t r h = ground arith

feed_task-none :
    (s : Session) (token : String) (e : Env) (d d' : Db) (r : ReconcilerAction)
    → ¬ Ok (feed_task s token none) e d r d'
unfolding feed_task roll_back attempt ◌>>=◌
feed_task-none s token e d d' r h = ground arith

-- A turn that is fed.
pub record Fed (s : Session) (token : String) (now : ℕ) (d d' : Db) (r : ReconcilerAction)
    : Type 0 where
  pub task : Task
  pub sent : r ≡ send_command token (CommandAction.feed_turn s.id task.task_payload)
  pub oldest : Oldest s.id d.task_queue task d'.task_queue
  pub found : ltb 0 (count_where (may_feed s.id s.worker_id) d.sessions) ≡ true
  pub written :
      d'.sessions
      ≡ update_where
          (may_feed s.id s.worker_id)
          (with_command token CommandType.feed_turn true now)
          d.sessions

feed_task-pop_turn-Fed :
    (s : Session) (token : String) (e : Env) (d d1 d' : Db) (r : ReconcilerAction) (t : Option Task)
    → Ok (pop_turn s.id) e d t d1
    → Ok (feed_task s token t) e d1 r d'
    → Fed s token e.now d d' r
feed_task-pop_turn-Fed s token e d d1 d' r none p h = absurd (feed_task-none s token e d1 d' r h)
feed_task-pop_turn-Fed s token e d d1 d' r (some t) p h =
    let popped = pop_turn-Ok s.id e d d1 (some t) p in
    let fed = feed_task-Fed s token e d1 d' t r h in
    let queue = ap (λ (y : Db). y.task_queue) (popped.1 refl) in
    let rows = ap (λ (y : Db). y.sessions) (popped.1 refl) in
    record {
      task = t;
      sent = fed.0;
      oldest =
          subst (Oldest s.id d.task_queue t) (queue ∙ sym fed.1)
            (oldest_turn-Oldest s.id d.task_queue t popped.0);
      found =
          subst (λ ss. ltb 0 (count_where (may_feed s.id s.worker_id) ss) ≡ true) (sym rows) fed.2;
      written =
          subst
            (λ ss.
              d'.sessions
              ≡ update_where (may_feed s.id s.worker_id)
                  (with_command token CommandType.feed_turn true e.now) ss)
            (sym rows) fed.3;
    }

-- A turn that is fed to a worker is the oldest of its session in the queue, the queue loses it and
-- nothing else and keeps its order, and the command that is sent carries its payload. It is sent only
-- where a row of the session should run, is held by the worker, runs or is idle, and has no command;
-- exactly such rows get this command, with this token.
pub issue_feed_turn-Fed :
    (s : Session) (token : String) (e : Env) (d d' : Db) (r : ReconcilerAction)
    → Ok (issue_feed_turn s token) e d r d'
    → Fed s token e.now d d' r
unfolding issue_feed_turn
issue_feed_turn-Fed s token e d d' r h =
    let b1 = bind-Ok (lift (begin_execution_tx s.execution_id)) _ r e d d' h in
    let e1 =
      begin_execution_tx-Ok e d b1.1 s.execution_id b1.0
        (map_err-Ok Stopped.failed _ b1.0 e d b1.1 b1.2) in
    let b2 = bind-Ok (lift (get_execution s.execution_id)) _ r e b1.1 d' b1.3 in
    let e2 =
      get_execution-Ok e b1.1 b2.1 s.execution_id b2.0
        (map_err-Ok Stopped.failed _ b2.0 e b1.1 b2.1 b2.2) in
    let live = guard-Ok (has_ended b2.0) rolled_back _ r e b2.1 d' b2.3 in
    let b3 = bind-Ok (lift (pop_turn s.id)) _ r e b2.1 d' live.1 in
    subst (λ (y : Db). Fed s token e.now y d' r) (sym (e1 ∙ e2.1))
      (feed_task-pop_turn-Fed s token e b2.1 b3.1 d' r b3.0
        (map_err-Ok Stopped.failed _ b3.0 e b2.1 b3.1 b3.2) b3.3)
