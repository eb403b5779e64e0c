-- ===== src/Examples/Parking.antt =====
-- The ancestors of a child.
use agentbeacon.Tables.{run}
use agentbeacon.Parking.Chains.{LiveChain, classify_ancestry-LiveChain}
use agentbeacon.Parking.{classify_ancestry, SessionAncestryNode, clean}
use agentbeacon.Base.{List, String, Option, count_where, none, ◌≡◌, ◌∷◌, refl, some, []}

abbrev node : String → Option String → SessionAncestryNode
node id parent = record {
  id = id;
  execution_id = "x1";
  parent_session_id = parent;
  desired = run;
  outcome = none;
}

abbrev family_nodes : List SessionAncestryNode
family_nodes = node "root" none ∷ node "child" (some "root") ∷ []

child_is_clean : classify_ancestry "child" family_nodes ≡ clean
unfolding classify_ancestry count_where
child_is_clean = refl

classify_ancestry-LiveChain_example : LiveChain family_nodes "child"
classify_ancestry-LiveChain_example =
    classify_ancestry-LiveChain "child" family_nodes child_is_clean
