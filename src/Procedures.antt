-- ===== src/Procedures.antt =====
-- Code that runs several transactions one after another. Each commits on its own, so a later error
-- keeps what the earlier ones wrote, and other transactions run in between. `World` says what those
-- do, what each transaction meets, and what the scheduler's clock and `Uuid::new_v4` give.
pub mod Follows
pub mod Yields
pub mod Triples
use agentbeacon.Base.{ℕ, suc, ◌++◌, ◌∷◌, [], List, String, ℤ}
use agentbeacon.Tables.{Db, Env}
use agentbeacon.Tx.{Result, ok, err, Tx, SchedulerError}

-- The arguments count the steps of the procedure.
pub record World : Type 0 where
  pub env : ℕ → Env
  pub others : ℕ → Db → Db
  pub clock : ℕ → ℕ
  pub fresh_id : ℕ → String

-- `killed` lists the workers that the supervisor was told to kill, `heartbeats` when a worker was
-- last heard of, the newest first, `woken` how often the waiters of the task queue were woken, and
-- `broadcasts` what was sent to the subscribers: an execution and an event, 0 for none.
pub record Machine : Type 0 where
  pub db : Db
  pub step : ℕ
  pub killed : List String
  pub heartbeats : List (String × ℕ)
  pub woken : ℕ
  pub broadcasts : List (String × ℤ)

abbrev pub Proc : Type 0 → Type 0 → Type 0
Proc E A = World → Machine → Result E A × Machine

abbrev pub next : Machine → Db → Machine
next s d = record s { db = d; step = suc s.step }

module _ {E A : Type 0} where
  pub done : A → Proc E A
  done a w s = (ok a, s)

  pub raise : E → Proc E A
  raise x w s = (err x, s)

  abbrev pub settle : Machine → Db → Result E (A × Db) → Result E A × Machine
  settle s d (ok (a, d')) = (ok a, next s d')
  settle s d (err x) = (err x, next s d)

  -- One transaction, after those of others.
  pub transact : Tx E A → Proc E A
  transact m w s = let d = w.others s.step s.db in settle s d (m (w.env s.step) d)

module _ {E : Type 0} where
  pub read_clock : Proc E ℕ
  read_clock w s = (ok (w.clock s.step), next s s.db)

  pub new_id : Proc E String
  new_id w s = (ok (w.fresh_id s.step), next s s.db)

  pub kill_worker : String → Proc E (Unit {0})
  kill_worker id w s = (ok tt, record s { killed = s.killed ++ id ∷ [] })

  -- `worker_heartbeats.insert(id, Instant::now())`.
  pub heartbeat : String → Proc E (Unit {0})
  heartbeat id w s =
      (ok tt, record s { step = suc s.step; heartbeats = (id, w.clock s.step) ∷ s.heartbeats })

  pub read_heartbeats : Proc E (List (String × ℕ))
  read_heartbeats w s = (ok s.heartbeats, s)

  pub wake_waiters : Proc E (Unit {0})
  wake_waiters w s = (ok tt, record s { woken = suc s.woken })

  pub broadcast : String → ℤ → Proc E (Unit {0})
  broadcast execution_id event_id w s =
      (ok tt, record s { broadcasts = s.broadcasts ++ (execution_id, event_id) ∷ [] })

module _ {E F A : Type 0} where
  abbrev pub kept_result : Result E A × Machine → Result F (Result E A) × Machine
  kept_result (r, s) = (ok r, s)

  -- Run, and hand on the result whatever it is.
  pub attempted : Proc E A → Proc F (Result E A)
  attempted p w s = kept_result (p w s)

  abbrev pub map_error : (E → F) → Result E A × Machine → Result F A × Machine
  map_error f (ok a, s) = (ok a, s)
  map_error f (err x, s) = (err (f x), s)

  pub map_raise : (E → F) → Proc E A → Proc F A
  map_raise f p w s = map_error f (p w s)

module _ {E A B : Type 0} where
  abbrev pub proceed : Result E A × Machine → (A → Proc E B) → World → Result E B × Machine
  proceed (ok a, s) f w = f a w s
  proceed (err x, s) f w = (err x, s)

  infixl 5 ◌>>=◌ ◌>>◌
  unfoldable pub ◌>>=◌ : Proc E A → (A → Proc E B) → Proc E B
  unfolding done raise transact read_clock new_id kill_worker heartbeat read_heartbeats wake_waiters
      broadcast attempted map_raise
  ◌>>=◌ p f w s = proceed (p w s) f w

  abbrev pub ◌>>◌ : Proc E A → Proc E B → Proc E B
  p >> q = p >>= λ _. q

-- How a transaction ends that is not committed: by a rollback that is no error, or by an error.
pub data Stopped : Type 0 where
  rolled_back : Stopped
  failed : SchedulerError → Stopped

module _ {A : Type 0} (otherwise : A) where
  abbrev pub ended : Result Stopped A × Machine → Result SchedulerError A × Machine
  ended (ok a, s) = (ok a, s)
  ended (err rolled_back, s) = (ok otherwise, s)
  ended (err (failed x), s) = (err x, s)

  -- A transaction that ends in a commit, or in a rollback with the other result.
  unfoldable pub transact_or_roll_back : Tx Stopped A → Proc SchedulerError A
  unfolding transact
  transact_or_roll_back m w s = ended (transact m w s)
