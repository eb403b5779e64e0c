-- ===== src/Reconciler/Sends/Issues.antt =====
-- Each command that is issued stands in a row of the session that it is for.
use agentbeacon.Reconciler.Assigned.{issue_assign-Assigned}
use agentbeacon.Reconciler.History.Steps.{ReadsOnly}
use agentbeacon.Tx.Inverse.{Ok}
use agentbeacon.Tx.{◌>>=◌}
use agentbeacon.Reconciler.Delivery.{issue_feed_turn-Fed}
use agentbeacon.Reconciler.Sends.{
  Carries, SentTo, written, session_of, command_type_of, Db, update_where, CommandType,
}
use agentbeacon.Procedures.Yields.{Leaves}
use agentbeacon.Statements.{begin_execution_tx, update_sessions, attempt, session_has_id, fetch_one}
use agentbeacon.Tables.{Session, Env}
use agentbeacon.Reconciler.Commands.{
  issue_cancel, issue_stop_turn, CommandAction, issue_feed_turn, with_worker, may_cancel, may_stop,
  may_feed, with_command, ReconcilerAction, send_command, Assignment, Composer, may_assign,
  issue_assign,
}
use agentbeacon.Base.{
  Bool, Option, String, ℕ, ◌≡◌, true, arith, some, false, none, str_eq_iff, ltb, count_where, refl,
  subst, sym, is_some,
}

carried :
    (token : String) (action : CommandAction) (has_payload : Bool) (now : ℕ) (s : Session)
    → session_has_id (session_of action) s ≡ true
    → Carries token action (with_command token (command_type_of action) has_payload now s)
carried token action b now s h = record {
  id = (str_eq_iff s.id (session_of action)).0 h;
  command_token = refl;
  command_type = refl;
}

carried_worker :
    (w : Option String) (token : String) (action : CommandAction) (s : Session)
    → Carries token action s
    → Carries token action (with_worker w s)
carried_worker none token action s h = h
carried_worker (some w) token action s h = record {
  id = h.id;
  command_token = h.command_token;
  command_type = h.command_type;
}

may_stop-id :
    (id : String) (w : Option String) (t : Session)
    → may_stop id w t ≡ true
    → session_has_id id t ≡ true
may_stop-id id w t h = ground arith

may_cancel-id :
    (id : String) (w : Option String) (t : Session)
    → may_cancel id w t ≡ true
    → session_has_id id t ≡ true
may_cancel-id id w t h = ground arith

may_feed-id :
    (id : String) (w : Option String) (t : Session)
    → may_feed id w t ≡ true
    → session_has_id id t ≡ true
may_feed-id id w t h = ground arith

may_assign-id : (id : String) (t : Session) → may_assign id t ≡ true → session_has_id id t ≡ true
may_assign-id id t h = ground arith

issue_stop_turn-Ok :
    (s : Session) (token : String) (e : Env) (d d' : Db) (r : ReconcilerAction)
    → Ok (issue_stop_turn s token) e d r d'
    → (r ≡ send_command token (CommandAction.stop_turn s.id))
      × (ltb 0 (count_where (may_stop s.id s.worker_id) d.sessions) ≡ true)
      × (d'.sessions
          ≡ update_where
              (may_stop s.id s.worker_id)
              (with_command token CommandType.stop_turn false e.now)
              d.sessions)
unfolding issue_stop_turn begin_execution_tx update_sessions attempt fetch_one ◌>>=◌
issue_stop_turn-Ok s token e d d' r h = ground arith

pub issue_stop_turn-Leaves :
    (s : Session) (token : String) → Leaves (SentTo s.id) (issue_stop_turn s token)
issue_stop_turn-Leaves s token = record {
  at = λ e d d' r h.
      let k = issue_stop_turn-Ok s token e d d' r h in
      written s.id token (CommandAction.stop_turn s.id) (may_stop s.id s.worker_id) _ d d' r k.0
        refl k.1 k.2
        (λ t hit.
          carried token (CommandAction.stop_turn s.id) false e.now t
            (may_stop-id s.id s.worker_id t hit));
}

issue_cancel-Ok :
    (s : Session) (token : String) (e : Env) (d d' : Db) (r : ReconcilerAction)
    → Ok (issue_cancel s token) e d r d'
    → (r ≡ send_command token (CommandAction.cancel s.id))
      × (ltb 0 (count_where (may_cancel s.id s.worker_id) d.sessions) ≡ true)
      × (d'.sessions
          ≡ update_where
              (may_cancel s.id s.worker_id)
              (with_command token CommandType.cancel false e.now)
              d.sessions)
unfolding issue_cancel begin_execution_tx update_sessions attempt fetch_one ◌>>=◌
issue_cancel-Ok s token e d d' r h = ground arith

pub issue_cancel-Leaves :
    (s : Session) (token : String) → Leaves (SentTo s.id) (issue_cancel s token)
issue_cancel-Leaves s token = record {
  at = λ e d d' r h.
      let k = issue_cancel-Ok s token e d d' r h in
      written s.id token (CommandAction.cancel s.id) (may_cancel s.id s.worker_id) _ d d' r k.0 refl
        k.1 k.2
        (λ t hit.
          carried token (CommandAction.cancel s.id) false e.now t
            (may_cancel-id s.id s.worker_id t hit));
}

pub issue_feed_turn-Leaves :
    (s : Session) (token : String) → Leaves (SentTo s.id) (issue_feed_turn s token)
issue_feed_turn-Leaves s token = record {
  at = λ e d d' r h.
      let k = issue_feed_turn-Fed s token e d d' r h in
      written s.id token (CommandAction.feed_turn s.id k.task.task_payload)
        (may_feed s.id s.worker_id) _ d d' r k.sent refl k.found k.written
        (λ t hit.
          carried token (CommandAction.feed_turn s.id k.task.task_payload) true e.now t
            (may_feed-id s.id s.worker_id t hit));
}

subject :
    (token : String) (a : Assignment) (id : String)
    → a.session_id ≡ id
    → (b : Bool) (now : ℕ) (w : Option String) (t : Session) → may_assign id t ≡ true
    → Carries token
        (CommandAction.assign a)
        (with_worker w (with_command token CommandType.assign b now t))
subject token a id e b now w t h = carried_worker w token (CommandAction.assign a) _ (
    carried token (CommandAction.assign a) b now t
      (subst (λ (i : String). session_has_id i t ≡ true) (sym e) (may_assign-id id t h)))

pub issue_assign-Leaves :
    (c : Composer) (r : ReadsOnly c) (s : Session) (b : Bool) (w : Option String) (token : String)
    → Leaves (SentTo s.id) (issue_assign c s b w token)
issue_assign-Leaves c r s b w token = record {
  at = λ e d d' a h.
      let k = issue_assign-Assigned c r s b w token e d d' a h in
      written s.id token (CommandAction.assign k.assignment) (may_assign s.id) _ d d' a k.sent
        k.for_session k.found k.written
        (subject token k.assignment s.id k.for_session (is_some k.task) e.now w);
}
