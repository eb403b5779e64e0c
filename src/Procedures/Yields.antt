-- ===== src/Procedures/Yields.antt =====
-- What holds of the result of a procedure and the database that it leaves, where it has a result.
-- Proc
use agentbeacon.Tx
use agentbeacon.Tx.Inverse.{Ok, bind-Ok, pure-Ok, throw-Ok}
use agentbeacon.Base.{refl, Bool, ◌≡◌, if◌then◌else◌, subst, arith, false, true, ap}
use agentbeacon.Tx.{Result, Tx, pure, throw}
use agentbeacon.Procedures.{
  Proc, done, map_raise, raise, transact, transact_or_roll_back, ◌>>=◌, Env, Machine, Stopped,
  World, ok, ended, map_error, proceed, settle, err, failed, rolled_back,
}
use agentbeacon.Tables.{Db}

pub record Yields {E A : Type 0} (Q : A → Db → Type 0) (p : Proc E A) : Type 0 where
  pub at : (w : World) (s : Machine) (a : A) → (p w s).0 ≡ ok a → Q a (p w s).1.db

-- What a transaction that commits leaves.
pub record Leaves {E A : Type 0} (Q : A → Db → Type 0) (m : Tx E A) : Type 0 where
  pub at : (e : Env) (d d' : Db) (a : A) → Ok m e d a d' → Q a d'

module _ {A : Type 0} (Q : A → Db → Type 0) where
  ok_eq : {E : Type 0} (a b : A) → ◌≡◌ {A = Result E A} (ok a) (ok b) → a ≡ b
  ok_eq a b h = ground arith

  module _ {E : Type 0} where
    pub Yields-done : (a : A) → ((d : Db) → Q a d) → Yields Q (done {E = E} a)
    unfolding done
    Yields-done a q = record { at = λ w s b h. subst (λ x. Q x s.db) (ok_eq a b h) (q s.db) }

    pub Yields-raise : (x : E) → Yields Q (raise x)
    unfolding raise
    Yields-raise x = record { at = λ w s b h. absurd (cc) }

    pub Yields-if :
        (b : Bool) (p q : Proc E A) → Yields Q p → Yields Q q → Yields Q (if b then p else q)
    Yields-if true p q h k = h
    Yields-if false p q h k = k

    settle_yields :
        (m : Tx E A) (e : Env) (s : Machine) (d : Db) (r : Result E (A × Db)) (a : A)
        → Leaves Q m
        → m e d ≡ r
        → (settle s d r).0 ≡ ok a
        → Q a (settle s d r).1.db
    settle_yields m e s d (ok (b, d')) a q p h = subst (λ x. Q x d') (ok_eq b a h) (q.at e d d' b p)
    settle_yields m e s d (err x) a q p h = absurd (cc)

    pub Yields-transact : (m : Tx E A) → Leaves Q m → Yields Q (transact m)
    unfolding transact
    Yields-transact m q = record {
      at = λ w s a h.
          let d = w.others s.step s.db in
          settle_yields m (w.env s.step) s d (m (w.env s.step) d) a q refl h;
    }

    proceed_yields :
        {B : Type 0} (f : B → Proc E A) (w : World) (r : Result E B × Machine) (a : A)
        → ((b : B) → Yields Q (f b))
        → (proceed r f w).0 ≡ ok a
        → Q a (proceed r f w).1.db
    proceed_yields f w (ok b, s) a q h = (q b).at w s a h
    proceed_yields f w (err x, s) a q h = absurd (cc)

    pub Yields-bind :
        {B : Type 0} (p : Proc E B) (f : B → Proc E A)
        → ((b : B) → Yields Q (f b))
        → Yields Q (p >>= f)
    unfolding ◌>>=◌
    Yields-bind p f q = record { at = λ w s a h. proceed_yields f w (p w s) a q h }

  module _ {E F : Type 0} where
    mapped_yields :
        (f : E → F) (r : Result E A × Machine) (a : A)
        → (r.0 ≡ ok a → Q a r.1.db)
        → (map_error f r).0 ≡ ok a
        → Q a (map_error f r).1.db
    mapped_yields f (ok b, s) a q h = q (ap ok (ok_eq b a h))
    mapped_yields f (err x, s) a q h = absurd (cc)

    pub Yields-map_raise : (f : E → F) (p : Proc E A) → Yields Q p → Yields Q (map_raise f p)
    unfolding map_raise
    Yields-map_raise f p q = record { at = λ w s a h. mapped_yields f (p w s) a (q.at w s a) h }

  ended_yields :
      (x : A) (r : Result Stopped A × Machine) (a : A)
      → ((d : Db) → Q x d)
      → (r.0 ≡ ok a → Q a r.1.db)
      → (ended x r).0 ≡ ok a
      → Q a (ended x r).1.db
  ended_yields x (ok b, s) a k q h = q (ap ok (ok_eq b a h))
  ended_yields x (err rolled_back, s) a k q h = subst (λ y. Q y s.db) (ok_eq x a h) (k s.db)
  ended_yields x (err (failed y), s) a k q h = absurd (cc)

  pub Yields-transact_or_roll_back :
      (x : A) (m : Tx Stopped A)
      → ((d : Db) → Q x d)
      → Leaves Q m
      → Yields Q (transact_or_roll_back x m)
  unfolding transact_or_roll_back
  Yields-transact_or_roll_back x m k q = record {
    at = λ w s a h. ended_yields x (transact m w s) a k ((Yields-transact m q).at w s a) h;
  }

  module _ {E : Type 0} where
    pub Leaves-bind :
        {B : Type 0} (m : Tx E B) (f : B → Tx E A)
        → ((b : B) → Leaves Q (f b))
        → Leaves Q (Tx.◌>>=◌ m f)
    Leaves-bind m f q = record {
      at = λ e d d' a h. let b = bind-Ok m f a e d d' h in (q b.0).at e b.1 d' a b.3;
    }

    pub Leaves-pure : (a : A) → ((d : Db) → Q a d) → Leaves Q (pure {E = E} a)
    Leaves-pure a q = record {
      at = λ e d d' b h. subst (λ x. Q x d') (pure-Ok a b e d d' h).0 (q d');
    }

    pub Leaves-throw : (x : E) → Leaves Q (throw x)
    Leaves-throw x = record { at = λ e d d' a h. absurd (throw-Ok x a e d d' h) }

    pub Leaves-if :
        (b : Bool) (m n : Tx E A) → Leaves Q m → Leaves Q n → Leaves Q (if b then m else n)
    Leaves-if true m n h k = h
    Leaves-if false m n h k = k

pub ruleset yielding = (Yields-bind, Yields-if, Yields-done, Yields-raise, Yields-map_raise)

pub ruleset leaving = (Leaves-bind, Leaves-if, Leaves-pure, Leaves-throw)
