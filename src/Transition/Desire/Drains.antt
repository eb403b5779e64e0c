-- ===== src/Transition/Desire/Drains.antt =====
-- What a stop leaves of the turns that wait for the session.
use agentbeacon.Statements.Keep
use agentbeacon.Statements.Inverse.{
  insert_task-Ok, begin_execution_tx-Ok, get_session-Ok, delete_by_session-Ok, attempt-Ok,
}
use agentbeacon.Json.{Json}
use agentbeacon.Statements.Keep.{reading}
use agentbeacon.Tx.Keeps.{Keeps, Preorder, Keeps-pure}
use agentbeacon.Base.{
  none, some, true, false, refl, ◌++◌, ◌∷◌, [], ◌⊎◌, inl, inr, count_where, filter_where, String,
  List, not, ◌≡◌, arith, Bool, Option, str_eq, ap, is_some_text, ◌∙◌, sym, ◌==◌,
}
use agentbeacon.Tables.{
  run, stop, Session, Env, Task, Db, EventType, Desired, is_stop, is_terminate,
}
use agentbeacon.Transition.Notify.{
  write_parent_notification_in_tx, enqueue_notification, resume_parent,
}
use agentbeacon.Transition.Desire.{set_stop, notify_parent}
use agentbeacon.Tx.Inverse.{Ok, bind-Ok, map_err-Ok, guard-Ok, if-Ok, pure-Ok}
use agentbeacon.Statements.{
  update_sessions, insert_event, insert_task, pending_turns, task_is_of, find_session,
}

pending_turns-filter :
    (id : String) (ts : List Task)
    → pending_turns id (filter_where (λ t. not (task_is_of id t)) ts) ≡ 0
unfolding pending_turns count_where filter_where
pending_turns-filter id [] = refl
pending_turns-filter id (t ∷ ts) = let rest = pending_turns-filter id ts in ground arith

pending_turns-append :
    (id : String) (ts : List Task) (t : Task)
    → task_is_of id t ≡ false
    → pending_turns id (ts ++ t ∷ []) ≡ pending_turns id ts
unfolding pending_turns count_where
pending_turns-append id [] t h = ground arith
pending_turns-append id (s ∷ ts) t h = let rest = pending_turns-append id ts t h in ground arith

-- The turns that wait for a session stay as many as they are.
abbrev turns : String → Preorder
turns id = record {
  Le = λ a b. pending_turns id b.task_queue ≡ pending_turns id a.task_queue;
  le_refl = λ d. refl;
  le_trans = λ a b c h k. k ∙ h;
}

module _ (id : String) where
  other_task :
      (label : String) (t : Task) → task_is_of id t ≡ false → Keeps (turns id) (insert_task label t)
  other_task label t other = record {
    at = λ e d d' u h.
        ap (λ (x : Db). pending_turns id x.task_queue) (sym (insert_task-Ok e d d' label t u h))
        ∙ pending_turns-append id d.task_queue t other;
  }

  same_turns_event :
      (x : String) (s : Option String) (t : EventType) (p : Json)
      → Keeps (turns id) (insert_event x s t p)
  same_turns_event = Keep.Keeps-insert_event (turns id) (λ d e. refl)

  same_turns_sessions :
      (label : String) (test : Session → Bool) (f : Session → Session)
      → Keeps (turns id) (update_sessions label test f)
  same_turns_sessions label test f = Keep.Keeps-update_sessions (turns id) label test f (λ d. refl)

  resume_parent-turns : (x p by : String) → Keeps (turns id) (resume_parent x p by)
  unfolding resume_parent
  resume_parent-turns x p by = search (reading, same_turns_event, same_turns_sessions) depth 12

  enqueue_notification-turns :
      (s : Session) (p t : String)
      → str_eq p id ≡ false
      → Keeps (turns id) (enqueue_notification s p t)
  unfolding enqueue_notification
  enqueue_notification-turns s p t other =
      search (reading, same_turns_event, other_task, other) depth 12

  notify_parent-turns :
      (s : Session) (p : Option String) (t : String)
      → is_some_text p id ≡ false
      → Keeps (turns id) (notify_parent s p t)
  unfolding notify_parent write_parent_notification_in_tx
  notify_parent-turns s none t other = Keeps-pure (turns id) _
  notify_parent-turns s (some p) t other =
      search (reading, resume_parent-turns, enqueue_notification-turns, other) depth 16

-- What a stop does: nothing to a session that is stopped, and else no turn is left to wait for it.
abbrev pub Drained : Session → String → Db → Db → Type 0
Drained t id d d' =
    ((t.desired ≡ stop) × (d' ≡ d)) ⊎ ((t.desired ≡ run) × (pending_turns id d'.task_queue ≡ 0))

-- A stop that is accepted finds the session under its id already stopped and changes nothing, or
-- finds it set to run, and then no turn is left waiting for it. The parent that is told is another
-- session.
pub stop_drains :
    (s : Session) (by : String) (p : Option String) (e : Env) (d d' : Db)
    → is_some_text p s.id ≡ false
    → Ok (set_stop s by p) e d tt d'
    → (t : Session) × (find_session s.id d.sessions ≡ some t) × Drained t s.id d d'
unfolding set_stop
stop_drains s by p e d d' other h =
    let b1 = bind-Ok _ _ tt e d d' h in
    let r1 = begin_execution_tx-Ok e d b1.1 _ b1.0 (map_err-Ok _ _ b1.0 e d b1.1 b1.2) in
    let b2 = bind-Ok _ _ tt e b1.1 d' b1.3 in
    let r2 = get_session-Ok e b1.1 b2.1 _ b2.0 (map_err-Ok _ _ b2.0 e b1.1 b2.1 b2.2) in
    let r3 = guard-Ok (is_terminate b2.0.desired) _ _ tt e b2.1 d' b2.3 in
    let found : find_session s.id d.sessions ≡ some b2.0 =
      ap (λ (x : Db). find_session s.id x.sessions) r1 ∙ r2.0 in
    (
      b2.0,
      found,
      elim (if-Ok (is_stop b2.0.desired) _ _ tt e b2.1 d' r3.1) [
        | inl stopped ↦ inl (
          is_stop-inv b2.0.desired stopped.0,
          sym (r1 ∙ r2.1 ∙ (pure-Ok tt tt e b2.1 d' stopped.1).1),
        )
        | inr rest ↦
            let b4 = bind-Ok _ _ tt e b2.1 d' rest.1 in
            let b5 = bind-Ok _ _ tt e b4.1 d' b4.3 in
            let r6 = guard-Ok (b5.0 == 0) _ _ tt e b5.1 d' b5.3 in
            let b6 = bind-Ok _ _ tt e b5.1 d' r6.1 in
            let r7 =
              delete_by_session-Ok e b5.1 b6.1 s.id b6.0 (map_err-Ok _ _ b6.0 e b5.1 b6.1 b6.2) in
            let b7 = bind-Ok _ _ tt e b6.1 d' b6.3 in
            let r8 =
              (same_turns_event s.id _ _ _ _).at e b6.1 b7.1 b7.0
                (map_err-Ok _ _ b7.0 e b6.1 b7.1 b7.2) in
            let b8 = bind-Ok _ _ tt e b7.1 d' b7.3 in
            let r9 = (notify_parent-turns s.id s p _ other).at e b7.1 b8.1 b8.0 b8.2 in
            let r10 = attempt-Ok e b8.1 d' _ tt (map_err-Ok _ _ tt e b8.1 d' b8.3) in
            inr (
              neither b2.0.desired r3.0 rest.0,
              ap (λ (x : Db). pending_turns s.id x.task_queue) (sym r10)
                  ∙ r9
                  ∙ r8
                  ∙ ap (λ (x : Db). pending_turns s.id x.task_queue) (sym r7)
                  ∙ pending_turns-filter s.id b5.1.task_queue,
            )
      ],
    )
  where
    is_stop-inv : (x : Desired) → is_stop x ≡ true → x ≡ stop
    is_stop-inv x k = ground arith

    neither : (x : Desired) → is_terminate x ≡ false → is_stop x ≡ false → x ≡ run
    neither x k l = ground arith
