-- ===== src/Procedures/Triples.antt =====
-- What holds of the result and the database after a procedure, errors included, from what holds of
-- the database before it. The transactions of others keep the relation `R`, and a condition that
-- they cannot break is stable.
use agentbeacon.Tx.Inverse.{Ok}
use agentbeacon.Procedures.Follows.{Follows}
use agentbeacon.Base.{Bool, ℕ, ◌≡◌, true, false, if◌then◌else◌, refl}
use agentbeacon.Tx.{Result, Tx}
use agentbeacon.Procedures.{
  Proc, attempted, done, map_raise, raise, transact, ◌>>=◌, Env, Machine, World, err, ok, map_error,
  proceed, settle,
}
use agentbeacon.Tables.{Db}
use agentbeacon.Tx.Keeps.{Preorder}

module _ (R : Preorder) where
  open R use {Le}

  abbrev pub Stable : (Db → Type 0) → Type 0
  Stable P = (d d' : Db) → Le d d' → P d → P d'

  pub record Triple {E A : Type 0} (P : Db → Type 0) (p : Proc E A) (Q : Result E A → Db → Type 0)
      : Type 0 where
    pub at :
        (w : World) (s : Machine)
        → ((n : ℕ) (d : Db) → Le d (w.others n d))
        → P s.db
        → Q (p w s).0 (p w s).1.db

  module _ {E A : Type 0} where
    pub Triple-done :
        (P : Db → Type 0) (a : A) (Q : Result E A → Db → Type 0)
        → ((d : Db) → P d → Q (ok a) d)
        → Triple P (done {E = E} a) Q
    unfolding done
    Triple-done P a Q q = record { at = λ w s o h. q s.db h }

    pub Triple-raise :
        (P : Db → Type 0) (x : E) (Q : Result E A → Db → Type 0)
        → ((d : Db) → P d → Q (err x) d)
        → Triple P (raise {A = A} x) Q
    unfolding raise
    Triple-raise P x Q q = record { at = λ w s o h. q s.db h }

    pub Triple-if :
        (P : Db → Type 0) (b : Bool) (p q : Proc E A) (Q : Result E A → Db → Type 0)
        → (b ≡ true → Triple P p Q)
        → (b ≡ false → Triple P q Q)
        → Triple P (if b then p else q) Q
    Triple-if P true p q Q h k = h refl
    Triple-if P false p q Q h k = k refl

    settle_triple :
        (m : Tx E A) (e : Env) (s : Machine) (d : Db) (Q : Result E A → Db → Type 0)
        (r : Result E (A × Db))
        → ((a : A) (d' : Db) → Ok m e d a d' → Q (ok a) d')
        → ((x : E) → m e d ≡ err x → Q (err x) d)
        → m e d ≡ r
        → Q (settle s d r).0 (settle s d r).1.db
    settle_triple m e s d Q (ok (a, d')) q x p = q a d' p
    settle_triple m e s d Q (err y) q x p = x y p

    pub Triple-transact :
        (P : Db → Type 0) (m : Tx E A) (Q : Result E A → Db → Type 0)
        → Stable P
        → ((e : Env) (d d' : Db) (a : A) → P d → Ok m e d a d' → Q (ok a) d')
        → ((e : Env) (d : Db) (x : E) → P d → Q (err x) d)
        → Triple P (transact m) Q
    unfolding transact
    Triple-transact P m Q stable q x = record {
      at = λ w s o h.
          let d = w.others s.step s.db in
          let e = w.env s.step in
          let k = stable s.db d (o s.step s.db) h in
          settle_triple m e s d Q (m e d) (λ a d' p. q e d d' a k p) (λ y p. x e d y k) refl;
    }

    -- A condition that nothing breaks.
    pub Triple-stable :
        (P : Db → Type 0) (p : Proc E A) → Stable P → Follows R p → Triple P p (λ r d. P d)
    Triple-stable P p stable f = record { at = λ w s o h. stable s.db _ (f.at w s o) h }

    pub Triple-frame :
        (P F : Db → Type 0) (p : Proc E A) (Q : Result E A → Db → Type 0)
        → Stable F
        → Follows R p
        → Triple P p Q
        → Triple (λ d. P d × F d) p (λ r d. Q r d × F d)
    Triple-frame P F p Q stable f t = record {
      at = λ w s o h. (t.at w s o h.0, stable s.db _ (f.at w s o) h.1);
    }

    pub Triple-weaken :
        (P P' : Db → Type 0) (p : Proc E A) (Q Q' : Result E A → Db → Type 0)
        → ((d : Db) → P' d → P d)
        → ((r : Result E A) (d : Db) → Q r d → Q' r d)
        → Triple P p Q
        → Triple P' p Q'
    Triple-weaken P P' p Q Q' before after t = record {
      at = λ w s o h. after (p w s).0 (p w s).1.db (t.at w s o (before s.db h));
    }

    -- A condition that is not about the database.
    pub Triple-given :
        (P : Db → Type 0) (H : Type 0) (p : Proc E A) (Q : Result E A → Db → Type 0)
        → (H → Triple P p Q)
        → Triple (λ d. P d × H) p Q
    Triple-given P H p Q t = record { at = λ w s o h. (t h.1).at w s o h.0 }

  module _ {E A B : Type 0} where
    proceed_triple :
        (f : A → Proc E B) (w : World) (r : Result E A × Machine) (Q : Result E A → Db → Type 0)
        (S : Result E B → Db → Type 0)
        → ((n : ℕ) (d : Db) → Le d (w.others n d))
        → ((a : A) → Triple (Q (ok a)) (f a) S)
        → ((x : E) (d : Db) → Q (err x) d → S (err x) d)
        → Q r.0 r.1.db
        → S (proceed r f w).0 (proceed r f w).1.db
    proceed_triple f w (ok a, s) Q S o k x h = (k a).at w s o h
    proceed_triple f w (err y, s) Q S o k x h = x y s.db h

    pub Triple-bind :
        (P : Db → Type 0) (p : Proc E A) (f : A → Proc E B) (Q : Result E A → Db → Type 0)
        (S : Result E B → Db → Type 0)
        → Triple P p Q
        → ((a : A) → Triple (Q (ok a)) (f a) S)
        → ((x : E) (d : Db) → Q (err x) d → S (err x) d)
        → Triple P (p >>= f) S
    unfolding ◌>>=◌
    Triple-bind P p f Q S t k x = record {
      at = λ w s o h. proceed_triple f w (p w s) Q S o k x (t.at w s o h);
    }

  module _ {E F A : Type 0} where
    pub Triple-attempted :
        (P : Db → Type 0) (p : Proc E A) (Q : Result E A → Db → Type 0)
        (S : Result F (Result E A) → Db → Type 0)
        → ((r : Result E A) (d : Db) → Q r d → S (ok r) d)
        → Triple P p Q
        → Triple P (attempted {F = F} p) S
    unfolding attempted
    Triple-attempted P p Q S q t = record {
      at = λ w s o h. q (p w s).0 (p w s).1.db (t.at w s o h);
    }

    mapped_triple :
        (f : E → F) (r : Result E A × Machine) (Q : Result E A → Db → Type 0)
        (S : Result F A → Db → Type 0)
        → ((a : A) (d : Db) → Q (ok a) d → S (ok a) d)
        → ((x : E) (d : Db) → Q (err x) d → S (err (f x)) d)
        → Q r.0 r.1.db
        → S (map_error f r).0 (map_error f r).1.db
    mapped_triple f (ok a, s) Q S q x h = q a s.db h
    mapped_triple f (err y, s) Q S q x h = x y s.db h

    pub Triple-map_raise :
        (P : Db → Type 0) (f : E → F) (p : Proc E A) (Q : Result E A → Db → Type 0)
        (S : Result F A → Db → Type 0)
        → ((a : A) (d : Db) → Q (ok a) d → S (ok a) d)
        → ((x : E) (d : Db) → Q (err x) d → S (err (f x)) d)
        → Triple P p Q
        → Triple P (map_raise f p) S
    unfolding map_raise
    Triple-map_raise P f p Q S q x t = record {
      at = λ w s o h. mapped_triple f (p w s) Q S q x (t.at w s o h);
    }
