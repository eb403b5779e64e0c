-- ===== src/Transition/Desire/Reads.antt =====
-- The readings that a change of the desired state makes leave the database alone: they keep every
-- relation.
use agentbeacon.Base.{none, some, [], ◌∷◌, List, Option, String}
use agentbeacon.Tx.Keeps.{
  Preorder, Keeps, Keeps-bind, Keeps-if, Keeps-pure, keeping, Keeps-to_option,
}
use agentbeacon.Statements.Keep
use agentbeacon.Statements.Keep.{reading}
use agentbeacon.Transition.Activity.{
  some_active, some_unsettled, some_unreported, parent_awaits, derive_execution_outcome,
}
use agentbeacon.Transition.Desire.{
  execution_outcome, live_parent, parent_for_notify, parent_to_tell, Session, Desired,
}

module _ (R : Preorder) where
  some_active-Reads : (ss : List Session) → Keeps R (some_active ss)
  unfolding some_active
  some_active-Reads [] = Keeps-pure R _
  some_active-Reads (s ∷ ss) =
      Keeps-bind R _ _ (Keep.Keeps-count_pending_turns R s.id)
        (λ pending. Keeps-if R _ _ _ (Keeps-pure R _) (some_active-Reads ss))

  some_unsettled-Reads : (ss : List Session) → Keeps R (some_unsettled ss)
  unfolding some_unsettled
  some_unsettled-Reads [] = Keeps-pure R _
  some_unsettled-Reads (s ∷ ss) =
      Keeps-if R _ _ _
        (Keeps-bind R _ _ (Keep.Keeps-count_pending_turns R s.id)
          (λ pending. Keeps-if R _ _ _ (some_unsettled-Reads ss) (Keeps-pure R _)))
        (some_unsettled-Reads ss)

  parent_awaits-Reads : (p : Option String) → Keeps R (parent_awaits p)
  unfolding parent_awaits
  parent_awaits-Reads none = Keeps-pure R _
  parent_awaits-Reads (some p) = search reading depth 8

  some_unreported-Reads : (ss : List Session) → Keeps R (some_unreported ss)
  unfolding some_unreported
  some_unreported-Reads [] = Keeps-pure R _
  some_unreported-Reads (s ∷ ss) =
      Keeps-if R _ _ _
        (Keeps-bind R _ _ (parent_awaits-Reads s.parent_session_id)
          (λ awaits. Keeps-if R _ _ _ (Keeps-pure R _) (some_unreported-Reads ss)))
        (some_unreported-Reads ss)

  pub derive_execution_outcome-Reads : (x : String) → Keeps R (derive_execution_outcome x)
  unfolding derive_execution_outcome
  derive_execution_outcome-Reads x =
      search (reading, some_active-Reads, some_unsettled-Reads, some_unreported-Reads) depth 12

  live_parent-Reads : (s : Session) (p : String) → Keeps R (live_parent s p)
  unfolding live_parent
  live_parent-Reads s p = search (reading, Keeps-to_option) depth 8

  parent_to_tell-Reads :
      (p : Option String) (s : Session) (d : Desired) (by : String)
      → Keeps R (parent_to_tell p s d by)
  unfolding parent_to_tell
  parent_to_tell-Reads none s d by = Keeps-pure R _
  parent_to_tell-Reads (some p) s d by = search (keeping, live_parent-Reads)

  pub parent_for_notify-Reads :
      (s : Session) (d : Desired) (by : String) → Keeps R (parent_for_notify s d by)
  unfolding parent_for_notify
  parent_for_notify-Reads s d by = parent_to_tell-Reads s.parent_session_id s d by

  pub execution_outcome-Reads : (s : Session) → Keeps R (execution_outcome s)
  unfolding execution_outcome
  execution_outcome-Reads s = search (reading, derive_execution_outcome-Reads) depth 8
