-- ===== src/Reconciler/History.antt =====
-- What the reconciler never undoes: the history of the state machine, for a database whose rows
-- agree in their columns. On such a database the repairs of contradictory rows write nothing.
pub mod Steps
pub mod Repairs
pub mod Cascade
pub mod Procedures
use agentbeacon.Transition.Ratchet.{
  History, History-refl, History-trans, IsCoherent, history, SessionKept,
}
use agentbeacon.Base.{All, All-Pointwise, subst}
use agentbeacon.Tx.{Tx}
use agentbeacon.Tx.Keeps.{Preorder, Keeps, unchanged}
use agentbeacon.Tables.{Db}

-- The history, from every database whose sessions are coherent.
abbrev pub Guarded : Db → Db → Type 0
Guarded d d' = All IsCoherent d.sessions → History d d'

pub IsCoherent-after :
    (d d' : Db) → History d d' → All IsCoherent d.sessions → All IsCoherent d'.sessions
IsCoherent-after d d' h c =
    All-Pointwise SessionKept IsCoherent (λ s t k x. k.coherent x) d.sessions d'.sessions h.sessions
      c

abbrev pub guarded : Preorder
guarded = record {
  Le = Guarded;
  le_refl = λ d c. History-refl d;
  le_trans = λ a b c h k x. History-trans a b c (h x) (k (IsCoherent-after a b (h x) x));
}

module _ {E A : Type 0} where
  pub guard : (m : Tx E A) → Keeps history m → Keeps guarded m
  guard m k = record { at = λ e d d' a h c. k.at e d d' a h }

  pub leave_alone : (R : Preorder) (m : Tx E A) → Keeps unchanged m → Keeps R m
  leave_alone R m k = record {
    at = λ e d d' a h. subst (λ (x : Db). R.Le d x) (k.at e d d' a h) (R.le_refl d);
  }
