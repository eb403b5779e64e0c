-- ===== src/Reconciler/Descendants/Sets.antt =====
-- Sets of sessions that are terminated, given by their ids, and what a cascade adds to them.
-- Job
-- The sessions of `G` are terminated.
use agentbeacon.Tx.Inverse.{Ok}
use agentbeacon.Procedures.Follows.{Follows}
use agentbeacon.Reconciler.Cascade.{Job, Fault, diverged, query, scheduler}
use agentbeacon.Tx.{Result, Tx}
use agentbeacon.Procedures.Triples.{
  Stable, Triple, Triple-weaken, Triple-map_raise, Triple-transact,
}
use agentbeacon.Reconciler.Descendants.{
  IsEnded, SchedulerError, guarded, And, Fine, ok, Since-stable, err, IsEnded-stable, transact,
  no_divergence,
}
use agentbeacon.Tables.{Db, Env}
use agentbeacon.Base.{String, ◌≡◌, ◌⊎◌, inl, inr}

abbrev pub Ended : (String → Type 0) → Db → Type 0
Ended G d = (id : String) → G id → IsEnded id d

abbrev pub Or : (String → Type 0) → (String → Type 0) → String → Type 0
Or G H id = G id ⊎ H id

abbrev pub At : String → String → Type 0
At x id = x ≡ id

module _ (d0 : Db) where
  pub Ended-stable : (G : String → Type 0) → Stable guarded (And d0 (Ended G))
  Ended-stable G d d' g h =
      (Since-stable d0 d d' g h.0, λ id x. (IsEnded-stable d0 id d d' g (h.0, h.1 id x)).1)

  module _ {A : Type 0} where
    both :
        (G H : String → Type 0) (r : Result Fault A) (d : Db)
        → Fine d0 (Ended H) r d
        → And d0 (Ended G) d
        → Fine d0 (Ended (Or G H)) r d
    both G H (ok a) d h g = (h.0, λ id x. elim x [ inl y ↦ g.1 id y | inr y ↦ h.1 id y ])
    both G H (err x) d h g = h

    -- What is terminated stays so while more is.
    pub extend :
        (G H : String → Type 0) (p : Job A)
        → Follows guarded p
        → Triple guarded (And d0 (Ended G)) p (Fine d0 (Ended H))
        → Triple guarded (And d0 (Ended G)) p (Fine d0 (Ended (Or G H)))
    extend G H p f t = record {
      at = λ w s o h.
          both G H (p w s).0 (p w s).1.db (t.at w s o h) (Ended-stable G s.db _ (f.at w s o) h);
    }

    fewer :
        (G H : String → Type 0) (r : Result Fault A) (d : Db)
        → ((id : String) → H id → G id)
        → Fine d0 (Ended G) r d
        → Fine d0 (Ended H) r d
    fewer G H (ok a) d i h = (h.0, λ id x. h.1 id (i id x))
    fewer G H (err x) d i h = h

    pub narrow :
        (G H : String → Type 0) (P P' : Db → Type 0) (p : Job A)
        → ((id : String) → H id → G id)
        → ((d : Db) → P' d → P d)
        → Triple guarded P p (Fine d0 (Ended G))
        → Triple guarded P' p (Fine d0 (Ended H))
    narrow G H P P' p i k t = Triple-weaken guarded P P' p _ _ k (λ r d h. fewer G H r d i h) t

  -- What a query gives, and that no error of a query is a divergence.
  abbrev pub Given : {A : Type 0} → (A → Db → Type 0) → Result Fault A → Db → Type 0
  Given Q (ok a) d = Q a d
  Given Q (err x) d = ¬ (x ≡ diverged)

  abbrev Before : {A : Type 0} → (A → Db → Type 0) → Result SchedulerError A → Db → Type 0
  Before Q (ok a) d = Q a d
  Before Q (err x) d = Unit

  pub querying :
      {A : Type 0} (P : Db → Type 0) (m : Tx SchedulerError A) (Q : A → Db → Type 0)
      → Stable guarded P
      → ((e : Env) (d d' : Db) (a : A) → P d → Ok m e d a d' → Q a d')
      → Triple guarded P (query m) (Given Q)
  querying P m Q stable q =
      Triple-map_raise guarded P scheduler (transact m) (Before Q) (Given Q) (λ a d h. h)
        (λ x d h. no_divergence d0 x)
        (Triple-transact guarded P m (Before Q) stable q (λ e d x h. tt))
