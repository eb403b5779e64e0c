-- ===== src/Transition/Runs.antt =====
-- Sequences of the state machine's transactions, in any interleaving: a transaction works from a
-- session row that was read before it, and that other transactions may have changed since.
use agentbeacon.Base.{some, String, Option, ℤ, ◌≡◌, Bool, find-Pointwise, ap, str_eq, sym}
use agentbeacon.Tables.{Db, Env, Session}
use agentbeacon.Tx.{ok}
use agentbeacon.Transition.Actions.{Action}
use agentbeacon.Transition.Apply.{apply, terminate_session, terminate_session_failed}
use agentbeacon.Transition.Ratchet.{History, History-refl, History-trans, SessionKept}
use agentbeacon.Tables.{Outcome}
use agentbeacon.Transition.Terminal.{write_execution_terminal}
use agentbeacon.Transition.Ratchet.Actions.{
  write_execution_terminal-Kept, apply-Kept, terminate_session-Kept, terminate_session_failed-Kept,
}
use agentbeacon.Statements.{find_session, session_has_id}

-- One committed transaction. `acted` takes any row for the session: one that is out of date too.
pub data Step (d d' : Db) : Type 0 where
  acted :
      (e : Env) (execution_id : String) (session : Session) (action : Action) (r : Option ℤ)
      → apply execution_id session action e d ≡ ok (r, d')
      → Step d d'
  terminated :
      (e : Env) (execution_id session_id desired_by : String)
      → terminate_session execution_id session_id desired_by e d ≡ ok (tt, d')
      → Step d d'
  terminated_failed :
      (e : Env) (execution_id session_id desired_by : String) (require_crashed : Bool)
      → terminate_session_failed execution_id session_id desired_by require_crashed e d
        ≡ ok (tt, d')
      → Step d d'
  execution_ended :
      (e : Env) (execution_id : String) (outcome : Outcome) (wrote : Bool)
      → write_execution_terminal execution_id outcome e d ≡ ok (wrote, d')
      → Step d d'

pub data Run : Db → Db → Type 0 where
  done : (d : Db) → Run d d
  then_step : (a b c : Db) → Run a b → Step b c → Run a c

Step-History : (d d' : Db) → Step d d' → History d d'
Step-History d d' (acted e x s a r h) = (apply-Kept x s a).at e d d' r h
Step-History d d' (terminated e x s by h) = (terminate_session-Kept x s by).at e d d' tt h
Step-History d d' (terminated_failed e x s by r h) =
    (terminate_session_failed-Kept x s by r).at e d d' tt h
Step-History d d' (execution_ended e x o w h) = (write_execution_terminal-Kept x o).at e d d' w h

pub Run-History : (d d' : Db) → Run d d' → History d d'
Run-History d d' (done e) = History-refl d
Run-History d d' (then_step a b c r s) =
    History-trans d b d' (Run-History d b r) (Step-History b d' s)

pub find_session-Kept :
    (id : String) (d d' : Db) (s : Session)
    → History d d'
    → find_session id d.sessions ≡ some s
    → (t : Session) × (find_session id d'.sessions ≡ some t) × SessionKept s t
unfolding find_session
find_session-Kept id d d' s h f =
    find-Pointwise SessionKept (session_has_id id) (λ x y k. ap (λ i. str_eq i id) (sym k.id)) s
      d.sessions d'.sessions h.sessions f
