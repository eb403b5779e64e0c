-- ===== src/Tx/Inverse.antt =====
-- What a run that succeeded went through: the steps of a transaction, read backwards.
use agentbeacon.Base.{Bool, true, false, ◌≡◌, refl, arith, if◌then◌else◌, ap, ◌⊎◌, inl, inr, ◌∙◌}
use agentbeacon.Tables.{Db, Env}
use agentbeacon.Tx.{
  modify, Result, ok, err, Tx, pure, throw, gets, asks, map_err, ◌>>=◌, continue, map_err_result,
}

abbrev pub Ok : {E A : Type 0} → Tx E A → Env → Db → A → Db → Type 0
Ok m e d a d' = m e d ≡ ok (a, d')

module _ {E A : Type 0} where
  ok_value : (a b : A) (d d' : Db) → ◌≡◌ {A = Result E (A × Db)} (ok (a, d)) (ok (b, d')) → a ≡ b
  ok_value a b d d' h = ground arith

  ok_state : (a b : A) (d d' : Db) → ◌≡◌ {A = Result E (A × Db)} (ok (a, d)) (ok (b, d')) → d ≡ d'
  ok_state a b d d' h = ground arith

  pub pure-Ok : (a b : A) (e : Env) (d d' : Db) → Ok (pure {E = E} a) e d b d' → (a ≡ b) × (d ≡ d')
  unfolding pure
  pure-Ok a b e d d' h = (ok_value a b d d' h, ok_state a b d d' h)

  pub throw-Ok : (x : E) (b : A) (e : Env) (d d' : Db) → ¬ Ok (throw x) e d b d'
  unfolding throw
  throw-Ok x b e d d' h = absurd (cc)

  pub gets-Ok :
      (f : Db → A) (b : A) (e : Env) (d d' : Db)
      → Ok (gets {E = E} f) e d b d'
      → (f d ≡ b) × (d ≡ d')
  unfolding gets
  gets-Ok f b e d d' h = (ok_value (f d) b d d' h, ok_state (f d) b d d' h)

  pub asks-Ok :
      (f : Env → A) (b : A) (e : Env) (d d' : Db)
      → Ok (asks {E = E} f) e d b d'
      → (f e ≡ b) × (d ≡ d')
  unfolding asks
  asks-Ok f b e d d' h = (ok_value (f e) b d d' h, ok_state (f e) b d d' h)

module _ {E : Type 0} where
  pub modify-Ok :
      (f : Db → Db) (b : Unit {0}) (e : Env) (d d' : Db) → Ok (modify {E = E} f) e d b d' → f d ≡ d'
  unfolding modify
  modify-Ok f b e d d' h = ok_state tt b (f d) d' h

module _ {E F A : Type 0} where
  map_err_result_inv :
      (f : E → F) (r : Result E (A × Db)) (a : A) (d : Db)
      → map_err_result f r ≡ ok (a, d)
      → r ≡ ok (a, d)
  map_err_result_inv f (ok r) a d h = ground arith
  map_err_result_inv f (err x) a d h = absurd (cc)

  pub map_err-Ok :
      (f : E → F) (m : Tx E A) (a : A) (e : Env) (d d' : Db)
      → Ok (map_err f m) e d a d'
      → Ok m e d a d'
  unfolding map_err
  map_err-Ok f m a e d d' h = map_err_result_inv f (m e d) a d' h

module _ {E A B : Type 0} where
  continue_inv :
      (m : Tx E A) (f : A → Tx E B) (e : Env) (d : Db) (r : Result E (A × Db)) (b : B) (d' : Db)
      → m e d ≡ r
      → continue r f e ≡ ok (b, d')
      → (a : A) × (d1 : Db) × Ok m e d a d1 × Ok (f a) e d1 b d'
  continue_inv m f e d (ok (a, d1)) b d' p h = (a, d1, p, h)
  continue_inv m f e d (err x) b d' p h = absurd (cc)

  pub bind-Ok :
      (m : Tx E A) (f : A → Tx E B) (b : B) (e : Env) (d d' : Db)
      → Ok (m >>= f) e d b d'
      → (a : A) × (d1 : Db) × Ok m e d a d1 × Ok (f a) e d1 b d'
  unfolding ◌>>=◌
  bind-Ok m f b e d d' h = continue_inv m f e d (m e d) b d' refl h

  pub bind_run :
      (m : Tx E A) (f : A → Tx E B) (a : A) (e : Env) (d d' : Db)
      → Ok m e d a d'
      → (m >>= f) e d ≡ f a e d'
  unfolding ◌>>=◌
  bind_run m f a e d d' h = ap (λ (r : Result E (A × Db)). continue r f e) h

module _ {E A : Type 0} where
  -- A guard that did not refuse.
  pub guard-Ok :
      (b : Bool) (x : E) (m : Tx E A) (a : A) (e : Env) (d d' : Db)
      → Ok (if b then throw x else m) e d a d'
      → (b ≡ false) × Ok m e d a d'
  guard-Ok true x m a e d d' h = absurd (throw-Ok x a e d d' h)
  guard-Ok false x m a e d d' h = (refl, h)

  pub if-Ok :
      (b : Bool) (m n : Tx E A) (a : A) (e : Env) (d d' : Db)
      → Ok (if b then m else n) e d a d'
      → ((b ≡ true) × Ok m e d a d') ⊎ ((b ≡ false) × Ok n e d a d')
  if-Ok true m n a e d d' h = inl (refl, h)
  if-Ok false m n a e d d' h = inr (refl, h)

module _ {E A B : Type 0} where
  -- A run forwards: a step that succeeds, and then the rest.
  pub bind-run :
      (m : Tx E A) (f : A → Tx E B) (a : A) (b : B) (e : Env) (d d1 d' : Db)
      → Ok m e d a d1
      → Ok (f a) e d1 b d'
      → Ok (m >>= f) e d b d'
  bind-run m f a b e d d1 d' h k = bind_run m f a e d d1 h ∙ k

module _ {E F A : Type 0} where
  pub map_err-run :
      (f : E → F) (m : Tx E A) (a : A) (e : Env) (d d' : Db)
      → Ok m e d a d'
      → Ok (map_err f m) e d a d'
  unfolding map_err
  map_err-run f m a e d d' h = ap (map_err_result f) h

module _ {E A : Type 0} where
  pub guard-run :
      (b : Bool) (x : E) (m : Tx E A) (a : A) (e : Env) (d d' : Db)
      → b ≡ false
      → Ok m e d a d'
      → Ok (if b then throw x else m) e d a d'
  guard-run true x m a e d d' h k = absurd (cc)
  guard-run false x m a e d d' h k = k

  pub pure-run : (a : A) (e : Env) (d : Db) → Ok (pure {E = E} a) e d a d
  unfolding pure
  pure-run a e d = refl
