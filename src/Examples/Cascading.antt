-- ===== src/Examples/Cascading.antt =====
-- The cascade from a root through a child to a grandchild.
use agentbeacon.Statements.{count_pending_turns, find_execution, find_session, update_where}
use agentbeacon.Statements.Work.{get_children}
use agentbeacon.Tx.{err, ok, ◌>>=◌}
use agentbeacon.Reconciler.Descendants.Ends.{cascade_children-Ended, cascade_children-ends}
use agentbeacon.Transition.Ratchet.{IsCoherent, History-refl}
use agentbeacon.Examples.Reconciling.{started, alone, session_row-IsCoherent}
use agentbeacon.Examples.Rows.{root, session_row, child, database_rows}
use agentbeacon.Reconciler.Descendants.{IsEnded}
use agentbeacon.Reconciler.Cascade.{cascade_children, diverged}
use agentbeacon.Reconciler.Tree.{Below, Distinct, Ranked, deeper, here, there}
use agentbeacon.Base.{
  All, String, ℕ, if◌then◌else◌, some, none, str_eq, ◌∷◌, ◌≡◌, [], arith, refl, count_where, true,
  ◌<◌, Bool-cases, inl, inr,
}
use agentbeacon.Procedures
use agentbeacon.Procedures.{Machine}
use agentbeacon.Tables.{Session, run, idle}

abbrev grandchild : Session
grandchild = session_row "grandchild" (some "child") run idle

abbrev family : Machine
family = record started { db = record database_rows { sessions = root ∷ child ∷ grandchild ∷ [] } }

abbrev generation : String → ℕ
generation id = if str_eq "root" id then 2 else if str_eq "child" id then 1 else 0

family-IsCoherent : All IsCoherent family.db.sessions
family-IsCoherent = (
  session_row-IsCoherent "root" none idle,
  (
    session_row-IsCoherent "child" (some "root") idle,
    (session_row-IsCoherent "grandchild" (some "child") idle, tt),
  ),
)

family-Distinct : Distinct family.db.sessions
family-Distinct = ((refl, (refl, tt)), ((refl, tt), (tt, tt)))

below_root : (p : String) → str_eq "root" p ≡ true → 1 < generation p
below_root p h = rw h (omega arith)

below_child : (p : String) → str_eq "child" p ≡ true → 0 < generation p
below_child p h = elim (Bool-cases (str_eq "root" p)) [
  | inl e ↦ rw e (omega arith)
  | inr e ↦ rw (e, h) (omega arith)
]

family-Ranked : Ranked generation family.db.sessions
family-Ranked c p (here _) h = absurd (cc)
family-Ranked c p (there _ _ (here _)) h = below_root p h
family-Ranked c p (there _ _ (there _ _ (here _))) h = below_child p h
family-Ranked c p (there _ _ (there _ _ (there _ _ i))) h = elim i [ ]

cascade_children-ends_example : ¬ ((cascade_children 3 root alone family).0 ≡ err diverged)
cascade_children-ends_example =
    cascade_children-ends generation 3 root alone family family-IsCoherent family-Distinct
      family-Ranked (omega arith) (λ k d c. History-refl d)

cascades : (cascade_children 3 root alone family).0 ≡ ok tt
unfolding cascade_children Procedures.◌>>=◌ get_children ◌>>=◌ find_session find_execution
    count_pending_turns count_where update_where
cascades = refl

grandchild_below : Below family.db.sessions "grandchild" "root"
grandchild_below =
    deeper "root" "child" child (there _ _ (here _)) refl refl
      (Below.child "child" grandchild (there _ _ (there _ _ (here _))) refl refl)

cascade_children-Ended_example : IsEnded "grandchild" (cascade_children 3 root alone family).1.db
cascade_children-Ended_example =
    cascade_children-Ended generation 3 root alone family family-IsCoherent family-Distinct
      family-Ranked (omega arith) (λ k d c. History-refl d) cascades "grandchild" grandchild_below
