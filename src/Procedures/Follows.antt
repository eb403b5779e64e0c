-- ===== src/Procedures/Follows.antt =====
-- What a procedure does to the database, whether it ends in a result or in an error, as a relation
-- between the database before and after that the transactions of others keep too.
-- Job
use agentbeacon.Tx.{Result, Tx}
use agentbeacon.Procedures.{◌>>=◌, broadcast, heartbeat, read_heartbeats, wake_waiters}
use agentbeacon.Base.{Bool, String, if◌then◌else◌, subst, sym, ℕ, false, true, ◌≡◌, refl, ℤ}
use agentbeacon.Procedures.{
  Proc, attempted, done, kill_worker, map_raise, new_id, raise, read_clock, transact,
  transact_or_roll_back, Env, Machine, Stopped, World, Db, ended, map_error, proceed, ok, settle,
  err, rolled_back, failed,
}
use agentbeacon.Tx.Keeps.{Preorder, Keeps}

pub record Follows (R : Preorder) {E A : Type 0} (p : Proc E A) : Type 0 where
  pub at :
      (w : World) (s : Machine)
      → ((n : ℕ) (d : Db) → R.Le d (w.others n d))
      → R.Le s.db (p w s).1.db

module _ (R : Preorder) where
  open R use {Le, le_refl, le_trans}

  module _ {E A : Type 0} where
    pub Follows-done : (a : A) → Follows R (done {E = E} a)
    unfolding done
    Follows-done a = record { at = λ w s o. le_refl s.db }

    pub Follows-raise : (x : E) → Follows R (raise {A = A} x)
    unfolding raise
    Follows-raise x = record { at = λ w s o. le_refl s.db }

    pub Follows-if :
        (b : Bool) (p q : Proc E A) → Follows R p → Follows R q → Follows R (if b then p else q)
    Follows-if true p q h k = h
    Follows-if false p q h k = k

    settle_at :
        (m : Tx E A) (e : Env) (s : Machine) (d : Db) (r : Result E (A × Db))
        → Keeps R m
        → m e d ≡ r
        → Le s.db d
        → Le s.db (settle s d r).1.db
    settle_at m e s d (ok (a, d')) k p h = le_trans s.db d d' h (k.at e d d' a p)
    settle_at m e s d (err x) k p h = h

    pub Follows-transact : (m : Tx E A) → Keeps R m → Follows R (transact m)
    unfolding transact
    Follows-transact m k = record {
      at = λ w s o.
          let d = w.others s.step s.db in
          settle_at m (w.env s.step) s d (m (w.env s.step) d) k refl (o s.step s.db);
    }

  module _ {E : Type 0} where
    pub Follows-read_clock : Follows R (read_clock {E = E})
    unfolding read_clock
    Follows-read_clock = record { at = λ w s o. le_refl s.db }

    pub Follows-new_id : Follows R (new_id {E = E})
    unfolding new_id
    Follows-new_id = record { at = λ w s o. le_refl s.db }

    pub Follows-kill_worker : (id : String) → Follows R (kill_worker {E = E} id)
    unfolding kill_worker
    Follows-kill_worker id = record { at = λ w s o. le_refl s.db }

    pub Follows-heartbeat : (id : String) → Follows R (heartbeat {E = E} id)
    unfolding heartbeat
    Follows-heartbeat id = record { at = λ w s o. le_refl s.db }

    pub Follows-read_heartbeats : Follows R (read_heartbeats {E = E})
    unfolding read_heartbeats
    Follows-read_heartbeats = record { at = λ w s o. le_refl s.db }

    pub Follows-wake_waiters : Follows R (wake_waiters {E = E})
    unfolding wake_waiters
    Follows-wake_waiters = record { at = λ w s o. le_refl s.db }

    pub Follows-broadcast : (x : String) (id : ℤ) → Follows R (broadcast {E = E} x id)
    unfolding broadcast
    Follows-broadcast x id = record { at = λ w s o. le_refl s.db }

  module _ {E F A : Type 0} where
    pub Follows-attempted : (p : Proc E A) → Follows R p → Follows R (attempted {F = F} p)
    unfolding attempted
    Follows-attempted p h = record { at = λ w s o. h.at w s o }

    map_error_db : (f : E → F) (r : Result E A × Machine) → (map_error f r).1 ≡ r.1
    map_error_db f (ok a, s) = refl
    map_error_db f (err x, s) = refl

    pub Follows-map_raise : (f : E → F) (p : Proc E A) → Follows R p → Follows R (map_raise f p)
    unfolding map_raise
    Follows-map_raise f p h = record {
      at = λ w s o.
          subst (λ (t : Machine). Le s.db t.db) (sym (map_error_db f (p w s))) (h.at w s o);
    }

  module _ {E A B : Type 0} where
    proceed_at :
        (f : A → Proc E B) (w : World) (s : Machine) (r : Result E A × Machine)
        → ((a : A) → Follows R (f a))
        → ((n : ℕ) (d : Db) → Le d (w.others n d))
        → Le s.db r.1.db
        → Le s.db (proceed r f w).1.db
    proceed_at f w s (ok a, t) k o h = le_trans s.db t.db _ h ((k a).at w t o)
    proceed_at f w s (err x, t) k o h = h

    pub Follows-bind :
        (p : Proc E A) (f : A → Proc E B)
        → Follows R p
        → ((a : A) → Follows R (f a))
        → Follows R (p >>= f)
    unfolding ◌>>=◌
    Follows-bind p f h k = record { at = λ w s o. proceed_at f w s (p w s) k o (h.at w s o) }

  module _ {A : Type 0} (a : A) where
    ended_db : (r : Result Stopped A × Machine) → (ended a r).1 ≡ r.1
    ended_db (ok b, s) = refl
    ended_db (err rolled_back, s) = refl
    ended_db (err (failed x), s) = refl

    pub Follows-transact_or_roll_back :
        (m : Tx Stopped A) → Keeps R m → Follows R (transact_or_roll_back a m)
    unfolding transact_or_roll_back
    Follows-transact_or_roll_back m k = record {
      at = λ w s o.
          subst (λ (t : Machine). Le s.db t.db) (sym (ended_db (transact m w s)))
            ((Follows-transact m k).at w s o);
    }

pub ruleset following = (
  Follows-bind, Follows-if, Follows-done, Follows-raise, Follows-transact, Follows-read_clock,
  Follows-new_id, Follows-kill_worker, Follows-heartbeat, Follows-read_heartbeats,
  Follows-wake_waiters, Follows-broadcast, Follows-attempted, Follows-map_raise,
  Follows-transact_or_roll_back,
)
