-- ===== src/Tx.antt =====
-- Transactions: code that reads and writes the database, and may fail.
-- A transaction that is dropped or rolled back leaves no trace, so an error carries no database.
pub mod Keeps
pub mod Inverse
use agentbeacon.Base.{Bool, true, false, Option, none, some, String, if◌then◌else◌}
use agentbeacon.Resolution.Candidates.{ResolutionCandidate}
use agentbeacon.Tables.{Db, Env}

-- scheduler/src/error.rs, the kinds that the modelled code makes.
pub data SchedulerError : Type 0 where
  database : String → SchedulerError
  missing : String → SchedulerError
  problem : String → SchedulerError

-- scheduler/src/services/transition.rs: `Rejected`.
pub data Rejected : Type 0 where
  ratchet write_barrier not_found decision_expired execution_terminated : Rejected
  already_resolved : ResolutionCandidate → Rejected
  invalid_transition : String → Rejected

pub data Result (E A : Type 0) : Type 0 where
  ok : A → Result E A
  err : E → Result E A

abbrev pub Tx : Type 0 → Type 0 → Type 0
Tx E A = Env → Db → Result E (A × Db)

module _ {E A : Type 0} where
  pub pure : A → Tx E A
  pure a e d = ok (a, d)

  pub throw : E → Tx E A
  throw x e d = err x

  pub gets : (Db → A) → Tx E A
  gets f e d = ok (f d, d)

  pub asks : (Env → A) → Tx E A
  asks f e d = ok (f e, d)

pub modify : {E : Type 0} → (Db → Db) → Tx E (Unit {0})
modify f e d = ok (tt, f d)

module _ {E F A : Type 0} where
  abbrev map_err_result : (E → F) → Result E (A × Db) → Result F (A × Db)
  map_err_result f (ok r) = ok r
  map_err_result f (err x) = err (f x)

  -- `Result::map_err`.
  pub map_err : (E → F) → Tx E A → Tx F A
  map_err f m e d = map_err_result f (m e d)

  abbrev ok_result : Db → Result E (A × Db) → Result F (Option A × Db)
  ok_result d (ok (a, d')) = ok (some a, d')
  ok_result d (err x) = ok (none, d)

  -- `Result::ok`, of a read outside the transaction.
  pub to_option : Tx E A → Tx F (Option A)
  to_option m e d = ok_result d (m e d)

module _ {E A B : Type 0} where
  abbrev continue : Result E (A × Db) → (A → Tx E B) → Env → Result E (B × Db)
  continue (ok (a, d)) f e = f a e d
  continue (err x) f e = err x

  infixl 5 ◌>>=◌ ◌>>◌
  -- Opening this opens the other actions too.
  unfoldable pub ◌>>=◌ : Tx E A → (A → Tx E B) → Tx E B
  unfolding pure throw gets asks modify map_err to_option
  ◌>>=◌ m f e d = continue (m e d) f e

  abbrev pub ◌>>◌ : Tx E A → Tx E B → Tx E B
  m >> k = m >>= λ _. k
