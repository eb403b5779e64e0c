-- ===== src/Transition/Message/Progress.antt =====
-- A message that nothing stands against is accepted.
use agentbeacon.Base.{some, true, ◌≡◌, str_eq}
use agentbeacon.Tables.{Session, Db}
use agentbeacon.Statements.{find_session}

-- The session is there, and belongs to the execution.
abbrev pub IsOwned : Session → Db → Type 0
IsOwned s d =
    (t : Session) × (find_session s.id d.sessions ≡ some t)
    × (str_eq t.execution_id s.execution_id ≡ true)
