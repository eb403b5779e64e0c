-- ===== src/Transition/Ratchet.antt =====
-- What no transition undoes, as a relation between the database before and after: a terminated
-- session and an ended execution stay as they ended, and the log of events only grows.
pub mod Steps
pub mod Desire
pub mod Message
pub mod Executor
pub mod Actions
use agentbeacon.Statements.Rows.{update_where-Pointwise}
use agentbeacon.Statements.{update_where}
use agentbeacon.Base.{
  ℕ, Bool, true, false, ◌≡◌, refl, ◌∙◌, List, [], ◌∷◌, ◌++◌, Option, none, some, String, is_some,
  Pointwise, Pointwise-refl, Pointwise-trans, arith, succ_ℤ, ap, sym,
}
use agentbeacon.Tables.{
  Session, Execution, Desired, terminate, Outcome, Task, Event, is_terminate, Db,
}
use agentbeacon.Tx.Keeps.{Preorder}
use mathlib.Core.List.{append-nil, append_assoc}

-- The columns of a session that say the same thing do so.
pub record IsCoherent (s : Session) : Type 0 where
  pub outcome_when_terminated : is_terminate s.desired ≡ is_some s.outcome
  pub completed_when_outcome : is_some s.completed_at ≡ is_some s.outcome
  pub type_when_token : is_some s.command_type ≡ is_some s.command_token
  pub token_when_payload : s.command_has_payload ≡ true → is_some s.command_token ≡ true

-- What a session that is terminated keeps for good.
pub record IsFrozen (s t : Session) : Type 0 where
  pub desired : t.desired ≡ terminate
  pub outcome : t.outcome ≡ s.outcome
  pub desired_by : t.desired_by ≡ s.desired_by
  pub desired_at : t.desired_at ≡ s.desired_at
  pub completed_at : t.completed_at ≡ s.completed_at

pub record SessionKept (s t : Session) : Type 0 where
  pub id : t.id ≡ s.id
  pub execution_id : t.execution_id ≡ s.execution_id
  pub parent_session_id : t.parent_session_id ≡ s.parent_session_id
  pub frozen : s.desired ≡ terminate → IsFrozen s t
  pub coherent : IsCoherent s → IsCoherent t

pub record ExecutionKept (x y : Execution) : Type 0 where
  pub id : y.id ≡ x.id
  pub desired : is_some x.outcome ≡ true → y.desired ≡ x.desired
  pub outcome : is_some x.outcome ≡ true → y.outcome ≡ x.outcome
  pub completed_at : is_some x.outcome ≡ true → y.completed_at ≡ x.completed_at

pub SessionKept-refl : (s : Session) → SessionKept s s
SessionKept-refl s = record {
  id = refl;
  execution_id = refl;
  parent_session_id = refl;
  frozen = λ h. record {
    desired = h;
    outcome = refl;
    desired_by = refl;
    desired_at = refl;
    completed_at = refl;
  };
  coherent = λ c. c;
}

IsFrozen-trans : (s t u : Session) → IsFrozen s t → IsFrozen t u → IsFrozen s u
IsFrozen-trans s t u h k = record {
  desired = k.desired;
  outcome = k.outcome ∙ h.outcome;
  desired_by = k.desired_by ∙ h.desired_by;
  desired_at = k.desired_at ∙ h.desired_at;
  completed_at = k.completed_at ∙ h.completed_at;
}

SessionKept-trans : (s t u : Session) → SessionKept s t → SessionKept t u → SessionKept s u
SessionKept-trans s t u h k = record {
  id = k.id ∙ h.id;
  execution_id = k.execution_id ∙ h.execution_id;
  parent_session_id = k.parent_session_id ∙ h.parent_session_id;
  frozen = λ e. IsFrozen-trans s t u (h.frozen e) (k.frozen (h.frozen e).desired);
  coherent = λ c. k.coherent (h.coherent c);
}

pub ExecutionKept-refl : (x : Execution) → ExecutionKept x x
ExecutionKept-refl x = record {
  id = refl;
  desired = λ h. refl;
  outcome = λ h. refl;
  completed_at = λ h. refl;
}

ExecutionKept-trans :
    (x y z : Execution) → ExecutionKept x y → ExecutionKept y z → ExecutionKept x z
ExecutionKept-trans x y z h k = record {
  id = k.id ∙ h.id;
  desired = λ e. k.desired (still e) ∙ h.desired e;
  outcome = λ e. k.outcome (still e) ∙ h.outcome e;
  completed_at = λ e. k.completed_at (still e) ∙ h.completed_at e;
}
  where
    still : is_some x.outcome ≡ true → is_some y.outcome ≡ true
    still e = rw (h.outcome e) e

pub record History (d d' : Db) : Type 0 where
  pub sessions : Pointwise SessionKept d.sessions d'.sessions
  pub executions : Pointwise ExecutionKept d.executions d'.executions
  pub events : (new : List Event) × (d'.events ≡ d.events ++ new)

pub History-refl : (d : Db) → History d d
History-refl d = record {
  sessions = Pointwise-refl SessionKept SessionKept-refl d.sessions;
  executions = Pointwise-refl ExecutionKept ExecutionKept-refl d.executions;
  events = ([], sym (append-nil d.events));
}

pub History-trans : (a b c : Db) → History a b → History b c → History a c
History-trans a b c h k = record {
  sessions = Pointwise-trans SessionKept SessionKept-trans _ _ _ h.sessions k.sessions;
  executions = Pointwise-trans ExecutionKept ExecutionKept-trans _ _ _ h.executions k.executions;
  events = (
    h.events.0 ++ k.events.0,
    k.events.1
        ∙ ap (λ (es : List Event). es ++ k.events.0) h.events.1
        ∙ append_assoc a.events h.events.0 k.events.0,
  );
}

abbrev pub history : Preorder
history = record { Le = History; le_refl = History-refl; le_trans = History-trans }

-- The statements, as far as the relation is concerned.
pub History-queue : (d : Db) (q : List Task) → History d (record d { task_queue = q })
History-queue d q = record {
  sessions = (History-refl d).sessions;
  executions = (History-refl d).executions;
  events = (History-refl d).events;
}

pub History-event :
    (d : Db) (e : Event)
    → History d (record d { events = d.events ++ e ∷ []; next_event_id = succ_ℤ d.next_event_id })
History-event d e = record {
  sessions = (History-refl d).sessions;
  executions = (History-refl d).executions;
  events = (e ∷ [], refl);
}

pub History-sessions :
    (test : Session → Bool) (f : Session → Session)
    → ((s : Session) → test s ≡ true → SessionKept s (f s))
    → (d : Db) → History d (record d { sessions = update_where test f d.sessions })
History-sessions test f h d = record {
  sessions = update_where-Pointwise SessionKept SessionKept-refl test f h d.sessions;
  executions = (History-refl d).executions;
  events = (History-refl d).events;
}

pub History-executions :
    (test : Execution → Bool) (f : Execution → Execution)
    → ((x : Execution) → test x ≡ true → ExecutionKept x (f x))
    → (d : Db) → History d (record d { executions = update_where test f d.executions })
History-executions test f h d = record {
  sessions = (History-refl d).sessions;
  executions = update_where-Pointwise ExecutionKept ExecutionKept-refl test f h d.executions;
  events = (History-refl d).events;
}
