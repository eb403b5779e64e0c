-- ===== src/Reconciler/History/Cascade.antt =====
-- The history under the actions and the cascade of the reconciler.
-- Job
use agentbeacon.Statements.Keep.{Keeps-get_session}
use agentbeacon.Transition.Ratchet.Desire.{set_desired-Kept, terminate_failed-Kept}
use agentbeacon.Transition.Ratchet.Actions.{apply-Kept, look_up-Kept}
use agentbeacon.Statements.{get_session}
use agentbeacon.Transition.Apply.{look_up}
use agentbeacon.Reconciler.History.{guarded, guard, history}
use agentbeacon.Reconciler.History.Steps.{Kept-get_children}
use agentbeacon.Tables.{Session, Desired}
use agentbeacon.Transition.Actions.{Action}
use agentbeacon.Tx.Keeps.{Keeps}
use agentbeacon.Transition.Ratchet.Steps.{Kept}
use agentbeacon.Procedures.Follows.{
  Follows, Follows-bind, following, Follows-done, Follows-raise, Follows-transact,
  Follows-attempted, Follows-map_raise, Follows-transact_or_roll_back,
}
use agentbeacon.Reconciler.Reconcile.{issue}
use agentbeacon.Reconciler.Cascade.{
  accept_cascade, accept_terminate, cascade_children, cascade_loop, cascade_to, ignored, is_settled,
  run_terminate, run_terminate_failed, run_transition, terminate_and_cascade, Job, query, diverged,
  scheduler,
}
use agentbeacon.Base.{String, Bool, List, ℕ, ◌∷◌, [], suc, zero}
use agentbeacon.Reconciler.Commands.{Issue, no_action}
use agentbeacon.Tx.{Tx, Rejected, Result, SchedulerError, ok, err}
use agentbeacon.Procedures.{Proc, transact}

abbrev pub KeptJob : {E A : Type 0} → Proc E A → Type 0
KeptJob p = Follows guarded p

pub transaction : {E A : Type 0} (m : Tx E A) → Kept m → KeptJob (transact m)
transaction m k = Follows-transact guarded m (guard m k)

pub query-Guarded : {A : Type 0} (m : Tx SchedulerError A) → Keeps guarded m → KeptJob (query m)
query-Guarded m k = Follows-map_raise guarded scheduler _ (Follows-transact guarded m k)

pub query-Kept : {A : Type 0} (m : Tx SchedulerError A) → Kept m → KeptJob (query m)
query-Kept m k = query-Guarded m (guard m k)

pub issue-Guarded : (m : Issue) → Keeps guarded m → KeptJob (issue m)
issue-Guarded m k =
    Follows-map_raise guarded scheduler _ (Follows-transact_or_roll_back guarded no_action m k)

pub issue-Kept : (m : Issue) → Kept m → KeptJob (issue m)
issue-Kept m k = issue-Guarded m (guard m k)

look_up_job : (x s : String) → KeptJob (transact (look_up x s))
look_up_job x s = transaction _ (look_up-Kept x s)

pub run_transition-Kept : (x s : String) (a : Action) → KeptJob (run_transition x s a)
unfolding run_transition
run_transition-Kept x s a =
    Follows-bind guarded _ _ (look_up_job x s) (λ r. transaction _ (apply-Kept x r a))

run_terminate-Kept : (x s by : String) → KeptJob (run_terminate x s by)
unfolding run_terminate
run_terminate-Kept x s by =
    Follows-bind guarded _ _ (look_up_job x s)
      (λ r. transaction _ (set_desired-Kept r Desired.terminate by))

pub run_terminate_failed-Kept :
    (x s by : String) (b : Bool) → KeptJob (run_terminate_failed x s by b)
unfolding run_terminate_failed
run_terminate_failed-Kept x s by b =
    Follows-bind guarded _ _ (look_up_job x s) (λ r. transaction _ (terminate_failed-Kept r by b))

pub ignored-Kept : {E A : Type 0} (p : Proc E A) → KeptJob p → KeptJob (ignored p)
unfolding ignored
ignored-Kept p k = search (following)

pub get_session-Kept : (id : String) → Kept (get_session id)
get_session-Kept id = Keeps-get_session history id

is_settled-Kept : (x : Rejected) (id : String) → KeptJob (is_settled x id)
unfolding is_settled
is_settled-Kept x id = search (following, transaction, get_session-Kept) depth 8

accept_cascade-Kept :
    {A : Type 0} (id : String) (r : Result Rejected A) → KeptJob (accept_cascade id r)
unfolding accept_cascade
accept_cascade-Kept id (ok a) = Follows-done guarded tt
accept_cascade-Kept id (err x) = search (following, is_settled-Kept) depth 8

pub cascade_to-Kept : (x : String) (s : Session) → KeptJob (cascade_to x s)
unfolding cascade_to
cascade_to-Kept x s = search (following, run_transition-Kept, accept_cascade-Kept) depth 8

cascade_loop-Kept :
    (f : Session → Job (Unit {0})) (x : String) (cs : List Session)
    → ((s : Session) → KeptJob (f s))
    → KeptJob (cascade_loop f x cs)
unfolding cascade_loop
cascade_loop-Kept f x [] k = Follows-done guarded tt
cascade_loop-Kept f x (c ∷ cs) k = Follows-bind guarded _ _ (cascade_to-Kept x c) λ u.
    Follows-bind guarded _ _ (query-Kept _ (get_session-Kept c.id))
      λ fresh. Follows-bind guarded _ _ (k fresh) (λ v. cascade_loop-Kept f x cs k)

pub cascade_children-Kept : (fuel : ℕ) (s : Session) → KeptJob (cascade_children fuel s)
unfolding cascade_children
cascade_children-Kept zero s = Follows-raise guarded diverged
cascade_children-Kept (suc fuel) s =
    Follows-bind guarded _ _ (query-Kept _ (Kept-get_children s.id))
      λ cs. cascade_loop-Kept (cascade_children fuel) s.execution_id cs (cascade_children-Kept fuel)

accept_terminate-Kept : (r : Result Rejected (Unit {0})) → KeptJob (accept_terminate r)
unfolding accept_terminate
accept_terminate-Kept (ok a) = Follows-done guarded tt
accept_terminate-Kept (err x) = search following

pub terminate_and_cascade-Kept :
    (fuel : ℕ) (s : Session) (by : String) → KeptJob (terminate_and_cascade fuel s by)
unfolding terminate_and_cascade
terminate_and_cascade-Kept fuel s by =
    Follows-bind guarded _ _ (Follows-attempted guarded _ (run_terminate-Kept _ _ by)) λ r.
      Follows-bind guarded _ _ (accept_terminate-Kept r) λ u.
        Follows-bind guarded _ _ (query-Kept _ (get_session-Kept s.id))
          (λ fresh. cascade_children-Kept fuel fresh)
