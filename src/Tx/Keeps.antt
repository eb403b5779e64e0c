-- ===== src/Tx/Keeps.antt =====
-- What every successful run of a transaction does to the database, as a relation between the
-- database before and after. The rules follow the code of a transaction.
use agentbeacon.Base.{
  refl, Bool, true, false, Option, none, some, ◌≡◌, if◌then◌else◌, subst, arith, ◌∙◌,
}
use agentbeacon.Tables.{Db, Env}
use agentbeacon.Tx.{
  modify, Result, ok, err, Tx, pure, throw, gets, asks, map_err, to_option, ◌>>=◌, continue,
  map_err_result, ok_result,
}

pub record Preorder : Type 1 where
  pub Le : Db → Db → Type 0
  pub le_refl : (d : Db) → Le d d
  pub le_trans : (a b c : Db) → Le a b → Le b c → Le a c

pub record Keeps (R : Preorder) {E A : Type 0} (m : Tx E A) : Type 0 where
  pub at : (e : Env) (d d' : Db) (a : A) → m e d ≡ ok (a, d') → R.Le d d'

ok_db :
    {E A : Type 0} (a b : A) (d d' : Db)
    → ◌≡◌ {A = Result E (A × Db)} (ok (a, d)) (ok (b, d'))
    → d ≡ d'
ok_db a b d d' h = ground arith

module _ (R : Preorder) where
  open R use {Le, le_refl, le_trans}

  module _ {E A : Type 0} where
    pub Keeps-pure : (a : A) → Keeps R (pure {E = E} a)
    unfolding pure
    Keeps-pure a = record { at = λ e d d' b h. subst (Le d) (ok_db a b d d' h) (le_refl d) }

    pub Keeps-throw : (x : E) → Keeps R (throw {A = A} x)
    unfolding throw
    Keeps-throw x = record { at = λ e d d' a h. absurd (cc) }

    pub Keeps-gets : (f : Db → A) → Keeps R (gets {E = E} f)
    unfolding gets
    Keeps-gets f = record { at = λ e d d' b h. subst (Le d) (ok_db (f d) b d d' h) (le_refl d) }

    pub Keeps-asks : (f : Env → A) → Keeps R (asks {E = E} f)
    unfolding asks
    Keeps-asks f = record { at = λ e d d' b h. subst (Le d) (ok_db (f e) b d d' h) (le_refl d) }

    pub Keeps-if : (b : Bool) (m n : Tx E A) → Keeps R m → Keeps R n → Keeps R (if b then m else n)
    Keeps-if true m n k l = k
    Keeps-if false m n k l = l

  module _ {E : Type 0} where
    pub Keeps-modify : (f : Db → Db) → ((d : Db) → Le d (f d)) → Keeps R (modify {E = E} f)
    unfolding modify
    Keeps-modify f k = record { at = λ e d d' b h. subst (Le d) (ok_db tt b (f d) d' h) (k d) }

  module _ {E F A : Type 0} where
    map_err_inv :
        (f : E → F) (r : Result E (A × Db)) (a : A) (d : Db)
        → map_err_result f r ≡ ok (a, d)
        → r ≡ ok (a, d)
    map_err_inv f (ok r) a d h = ground arith
    map_err_inv f (err x) a d h = absurd (cc)

    pub Keeps-map_err : (f : E → F) (m : Tx E A) → Keeps R m → Keeps R (map_err f m)
    unfolding map_err
    Keeps-map_err f m k = record { at = λ e d d' a h. k.at e d d' a (map_err_inv f (m e d) a d' h) }

    ok_result_at :
        (m : Tx E A) (e : Env) (d : Db) (r : Result E (A × Db)) (a : Option A) (d' : Db)
        → Keeps R m
        → m e d ≡ r
        → ok_result {F = F} d r ≡ ok (a, d')
        → Le d d'
    ok_result_at m e d (ok (a, d1)) b d' k p h =
        subst (Le d) (ok_db (some a) b d1 d' h) (k.at e d d1 a p)
    ok_result_at m e d (err x) b d' k p h = subst (Le d) (ok_db none b d d' h) (le_refl d)

    pub Keeps-to_option : (m : Tx E A) → Keeps R m → Keeps R (to_option {F = F} m)
    unfolding to_option
    Keeps-to_option m k = record { at = λ e d d' a h. ok_result_at m e d (m e d) a d' k refl h }

  module _ {E A B : Type 0} where
    continue_at :
        (m : Tx E A) (f : A → Tx E B) (e : Env) (d : Db) (r : Result E (A × Db)) (b : B) (d' : Db)
        → Keeps R m
        → ((a : A) → Keeps R (f a))
        → m e d ≡ r
        → continue r f e ≡ ok (b, d')
        → Le d d'
    continue_at m f e d (ok (a, d1)) b d' k l p h =
        le_trans d d1 d' (k.at e d d1 a p) ((l a).at e d1 d' b h)
    continue_at m f e d (err x) b d' k l p h = absurd (cc)

    pub Keeps-bind :
        (m : Tx E A) (f : A → Tx E B) → Keeps R m → ((a : A) → Keeps R (f a)) → Keeps R (m >>= f)
    unfolding ◌>>=◌
    Keeps-bind m f k l = record { at = λ e d d' b h. continue_at m f e d (m e d) b d' k l refl h }

pub ruleset keeping =
    (Keeps-bind, Keeps-if, Keeps-pure, Keeps-throw, Keeps-gets, Keeps-asks, Keeps-map_err)

-- A transaction that only reads keeps the database as it is.
abbrev pub unchanged : Preorder
unchanged = record { Le = λ a b. a ≡ b; le_refl = λ d. refl; le_trans = λ a b c h k. h ∙ k }
