-- ===== src/Synchronisation/Sends.antt =====
-- The commands that a worker is answered with, against the rows of the sessions.
pub mod Rounds
pub mod Answer
-- Job Proc
-- No condition on what others do.
use agentbeacon.Reconciler.Sends.Procedures.{reconcile-Says}
use agentbeacon.Reconciler.Reconcile.{reconcile}
use agentbeacon.Procedures.{done, ◌>>=◌, World, Machine, attempted}
use agentbeacon.Procedures.Yields.{Yields}
use agentbeacon.Reconciler.History.Steps.{ReadsOnly}
use agentbeacon.Reconciler.Sends.{SentTo, Somewhere, Carries}
use agentbeacon.Procedures.Triples.{
  Triple, Triple-weaken, Triple-bind, Triple-done, Triple-if, Triple-raise, Triple-attempted,
}
use agentbeacon.Reconciler.Cascade.{Job, Fault, scheduler, diverged}
use agentbeacon.Tx.{Result, ok, err}
use agentbeacon.Synchronisation.Rounds.{
  ReconcilerResult, Sweep, sent, over, reconcile_for, reconcile_session,
}
use agentbeacon.Reconciler.Commands.{ReconcilerAction, CommandAction}
use agentbeacon.Synchronisation.Requests.{
  Server, WorkerSyncResponse, caught, command, no_action, caught_result,
}
use agentbeacon.Base.{
  Option, String, Bool, some, if◌then◌else◌, none, unwrap_or, ℕ, ◌≡◌, refl, true,
}
use agentbeacon.Tables.{Db, Session, Execution}
use agentbeacon.Tx.Keeps.{Preorder}

abbrev pub anything : Preorder
anything = record { Le = λ a b. Unit; le_refl = λ d. tt; le_trans = λ a b c h k. tt }

abbrev pub Always : Db → Type 0
Always d = Unit

-- An error asks nothing.
abbrev pub Good : {A : Type 0} → (A → Db → Type 0) → Result Fault A → Db → Type 0
Good Q (ok a) d = Q a d
Good Q (err x) d = Unit

abbrev pub Recorded : String → CommandAction → Db → Type 0
Recorded token action d = Somewhere (Carries token action) d.sessions

-- From the beginning, a procedure leaves `Q`.
abbrev pub Gives : {A : Type 0} → (A → Db → Type 0) → Job A → Type 0
Gives Q p = Triple anything Always p (Good Q)

module _ {A : Type 0} where
  pub Gives-anything : (Q : A → Db → Type 0) (p : Job A) → ((a : A) (d : Db) → Q a d) → Gives Q p
  Gives-anything Q p q = record { at = λ w s o h. by (p w s).0 (p w s).1.db }
    where
      by : (r : Result Fault A) (d : Db) → Good Q r d
      by (ok a) d = q a d
      by (err x) d = tt

  pub Yields-Gives : (Q : A → Db → Type 0) (p : Job A) → Yields Q p → Gives Q p
  Yields-Gives Q p y = record { at = λ w s o h. by w s (p w s).0 refl }
    where
      by : (w : World) (s : Machine) (r : Result Fault A) → (p w s).0 ≡ r → Good Q r (p w s).1.db
      by w s (ok a) e = y.at w s a e
      by w s (err x) e = tt

  pub Gives-from :
      (P : Db → Type 0) (Q : A → Db → Type 0) (p : Job A) → Gives Q p → Triple anything P p (Good Q)
  Gives-from P Q p g =
      Triple-weaken anything Always P p (Good Q) (Good Q) (λ d h. tt) (λ r d h. h) g

  pub Gives-done :
      (P : Db → Type 0) (Q : A → Db → Type 0) (a : A)
      → ((d : Db) → P d → Q a d)
      → Triple anything P (done a) (Good Q)
  Gives-done P Q a q = Triple-done anything P a (Good Q) q

  pub Gives-if :
      (Q : A → Db → Type 0) (b : Bool) (p q : Job A)
      → Gives Q p
      → Gives Q q
      → Gives Q (if b then p else q)
  Gives-if Q b p q g h = Triple-if anything Always b p q (Good Q) (λ e. g) (λ e. h)

module _ {A B : Type 0} where
  pub Gives-bind :
      (Q : A → Db → Type 0) (S : B → Db → Type 0) (p : Job A) (f : A → Job B)
      → Gives Q p
      → ((a : A) → Triple anything (Q a) (f a) (Good S))
      → Gives S (p >>= f)
  Gives-bind Q S p f g k = Triple-bind anything Always p f (Good Q) (Good S) g k (λ x d h. tt)

  -- Where what was given first does not matter.
  pub Gives-then :
      (S : B → Db → Type 0) (p : Job A) (f : A → Job B)
      → ((a : A) → Gives S (f a))
      → Gives S (p >>= f)
  Gives-then S p f k = Gives-bind (λ a d. Unit) S p f (Gives-anything (λ a d. Unit) p (λ a d. tt)) k

abbrev pub If : {A : Type 0} → (A → Db → Type 0) → Option A → Db → Type 0
If Q none d = Unit
If Q (some a) d = Q a d

pub Gives-caught :
    {A : Type 0} (Q : A → Db → Type 0) (p : Job A) → Gives Q p → Gives (If Q) (caught p)
unfolding caught
Gives-caught {A} Q p g =
    Gives-bind (λ r d. Good Q r d) (If Q) (attempted {F = Fault} p) caught_result
      (Triple-attempted anything Always p (Good Q) (Good (λ r d. Good Q r d)) (λ r d h. h) g) by
  where
    by : (r : Result Fault A) → Triple anything (Good Q r) (caught_result r) (Good (If Q))
    by (ok a) = Gives-done (Q a) (If Q) (some a) (λ d h. h)
    by (err (scheduler x)) = Gives-done Always (If Q) none (λ d h. tt)
    by (err diverged) = Triple-raise anything Always diverged (Good (If Q)) (λ d h. tt)

-- The answers of the reconciler.
abbrev pub OfAction : ReconcilerAction → Db → Type 0
OfAction (ReconcilerAction.send_command token action) d = Recorded token action d
OfAction _ d = Unit

abbrev pub OfSweep : Sweep → Db → Type 0
OfSweep (sent token action) d = Recorded token action d
OfSweep (over seen) d = Unit

abbrev pub OfResult : ReconcilerResult → Db → Type 0
OfResult (ReconcilerResult.command token action) d = Recorded token action d
OfResult _ d = Unit

abbrev pub OfClaim : Option (String × CommandAction) → Db → Type 0
OfClaim none d = Unit
OfClaim (some (token, action)) d = Recorded token action d

abbrev pub OfAnswer : WorkerSyncResponse → Db → Type 0
OfAnswer no_action d = Unit
OfAnswer (command token action) d = Recorded token action d

abbrev pub Tried : Option (Option ReconcilerAction) → Db → Type 0
Tried a d = If (If OfAction) a d

SentTo-OfAction : (id : String) (a : ReconcilerAction) (d : Db) → SentTo id a d → OfAction a d
SentTo-OfAction id (ReconcilerAction.send_command t a) d h = (h.sent t a refl).1
SentTo-OfAction id ReconcilerAction.no_action d h = tt
SentTo-OfAction id ReconcilerAction.pending_command d h = tt
SentTo-OfAction id ReconcilerAction.repaired d h = tt
SentTo-OfAction id ReconcilerAction.mutated d h = tt

module _ (server : Server) (reads : ReadsOnly server.composer) (w : String) where
  reconcile-Gives :
      (s : Session) (n : ℕ) (x : Execution) (b : Bool) (h : Option String)
      → Gives OfAction (reconcile server.composer server.fuel s n x b h true)
  reconcile-Gives s n x b h =
      Triple-weaken anything Always Always _ (Good (SentTo s.id)) (Good OfAction) (λ d k. k) by
        (Yields-Gives (SentTo s.id) _
          (reconcile-Says s server.composer reads server.fuel n x b h true))
    where
      by : (r : Result Fault ReconcilerAction) (d : Db) → Good (SentTo s.id) r d → Good OfAction r d
      by (ok a) d k = SentTo-OfAction s.id a d k
      by (err y) d k = tt

  reconcile_for-Gives :
      (b : Bool) (h : Option String) (s : Session) (n : ℕ) (x : Option Execution)
      → Gives Tried (reconcile_for server w b h s n x)
  unfolding reconcile_for
  reconcile_for-Gives b h s n none = Gives-done Always Tried none (λ d k. tt)
  reconcile_for-Gives b h s n (some x) =
      Gives-bind (If OfAction) Tried _ _ (Gives-caught OfAction _ (reconcile-Gives s n x b h))
        (λ a. Gives-done (If OfAction a) Tried (some a) (λ d k. k))

  pub reconcile_session-Gives :
      (b : Bool) (h : Option String) (s : Session) → Gives Tried (reconcile_session server w b h s)
  unfolding reconcile_session
  reconcile_session-Gives b h s =
      Gives-then Tried _ _
        λ n. Gives-then Tried _ _ (λ x. reconcile_for-Gives b h s (unwrap_or n 0) x)
