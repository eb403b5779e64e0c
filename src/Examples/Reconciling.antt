-- ===== src/Examples/Reconciling.antt =====
-- The reconciler on the small database: the turn that waits for the child is fed to its worker.
use agentbeacon.Procedures
use agentbeacon.Procedures.{transact_or_roll_back}
use agentbeacon.Tx.{◌>>=◌}
use agentbeacon.Statements.Work.{get_agent}
use agentbeacon.Statements.{find_execution, get_execution}
use agentbeacon.Reconciler.History.Procedures.{reconcile_keeps_history}
use agentbeacon.Reconciler.Sends.Procedures.{command_is_recorded}
use agentbeacon.Json.{null, str}
use agentbeacon.Reconciler.Sends.{Somewhere, Carries, session_of}
use agentbeacon.Examples.Rows.{calm, child, database_rows, state_of, execution, root, session_row}
use agentbeacon.Tx.Keeps.{Keeps-pure, unchanged}
use agentbeacon.Tx.{pure, ok, ◌>>=◌}
use agentbeacon.Reconciler.Assigned.{Assigned, issue_assign-Assigned}
use agentbeacon.Reconciler.Delivery.{Fed, issue_feed_turn-Fed}
use agentbeacon.Tables.{Db, Session, ExState, unassigned, run, idle, crashed}
use agentbeacon.Transition.Ratchet.{History, IsCoherent, History-refl}
use agentbeacon.Reconciler.Reconcile.{reconcile}
use agentbeacon.Base.{refl, All, String, ◌≡◌, Option, false, some, [], none, true, ◌∷◌, count_where}
use agentbeacon.Procedures.{Machine, World}
use agentbeacon.Reconciler.History.Steps.{ReadsOnly}
use agentbeacon.Reconciler.Commands.{
  Assignment, Composer, ReconcilerAction, issue_assign, issue_feed_turn, send_command,
  CommandAction, compose_assignment,
}

abbrev pub composer : Composer
composer = record {
  driver_info = λ a s. pure null;
  agent_config = λ s a x. pure null;
  mcp_servers = λ id. pure none;
  next_msg_seq = λ id. pure 0;
}

pub only_reads : ReadsOnly composer
only_reads = record {
  driver_info = λ a s. Keeps-pure unchanged null;
  agent_config = λ s a x. Keeps-pure unchanged null;
  mcp_servers = λ id. Keeps-pure unchanged none;
  next_msg_seq = λ id. Keeps-pure unchanged 0;
}

abbrev pub alone : World
alone = record { env = λ n. calm; others = λ n d. d; clock = λ n. 0; fresh_id = λ n. "token" }

abbrev pub started : Machine
started = record {
  db = database_rows;
  step = 0;
  killed = [];
  heartbeats = [];
  woken = 0;
  broadcasts = [];
}

pub session_row-IsCoherent :
    (id : String) (p : Option String) (e : ExState) → IsCoherent (session_row id p run e)
session_row-IsCoherent id p e = record {
  outcome_when_terminated = refl;
  completed_when_outcome = refl;
  type_when_token = refl;
  token_when_payload = λ h. h;
}

pub database_rows-IsCoherent : All IsCoherent database_rows.sessions
database_rows-IsCoherent = (
  session_row-IsCoherent "root" none idle,
  (
    session_row-IsCoherent "child" (some "root") idle,
    (session_row-IsCoherent "broken" (some "root") crashed, tt),
  ),
)

abbrev fed : ReconcilerAction
fed = send_command "token" (CommandAction.feed_turn "child" (str "go on"))

feeds : (reconcile composer 5 child 1 execution true (some "w1") true alone started).0 ≡ ok fed
unfolding reconcile transact_or_roll_back Procedures.◌>>=◌ ◌>>=◌ issue_feed_turn find_execution
    count_where
feeds = refl

command_is_recorded_example :
    (session_of (CommandAction.feed_turn "child" (str "go on")) ≡ child.id)
    × Somewhere
        (Carries "token" (CommandAction.feed_turn "child" (str "go on")))
        (reconcile composer 5 child 1 execution true (some "w1") true alone started).1.db.sessions
command_is_recorded_example =
    command_is_recorded composer 5 child 1 execution true (some "w1") true alone started "token"
      (CommandAction.feed_turn "child" (str "go on")) only_reads feeds

reconcile_keeps_history_example :
    History database_rows
      (reconcile composer 5 child 1 execution true (some "w1") true alone started).1.db
reconcile_keeps_history_example =
    reconcile_keeps_history composer 5 child 1 execution true (some "w1") true alone started
      only_reads (λ k d c. History-refl d) database_rows-IsCoherent

abbrev pub fed_db : Db
fed_db = state_of database_rows (issue_feed_turn child "token" calm database_rows)

feed_succeeds : issue_feed_turn child "token" calm database_rows ≡ ok (fed, fed_db)
unfolding issue_feed_turn ◌>>=◌ find_execution get_execution count_where
feed_succeeds = refl

issue_feed_turn-Fed_example : Fed child "token" 100 database_rows fed_db fed
issue_feed_turn-Fed_example =
    issue_feed_turn-Fed child "token" calm database_rows fed_db fed feed_succeeds

abbrev fresh_child : Session
fresh_child = record child {
  executor_state = unassigned;
  worker_id = none;
  agent_session_id = none;
}

abbrev before_assign : Db
before_assign = record database_rows { sessions = root ∷ fresh_child ∷ [] }

abbrev assigned_db : Db
assigned_db =
    state_of before_assign
      (issue_assign composer fresh_child false (some "w1") "token" calm before_assign)

abbrev assignment : Assignment
assignment = record {
  session_id = "child";
  execution_id = "x1";
  payload = some (str "go on");
  resume = false;
  cwd = none;
  driver = null;
  agent_config = null;
  agent_session_id = none;
  project_id = none;
  mcp_servers = none;
  next_msg_seq = 0;
}

assign_succeeds :
    issue_assign composer fresh_child false (some "w1") "token" calm before_assign
    ≡ ok (send_command "token" (CommandAction.assign assignment), assigned_db)
unfolding issue_assign ◌>>=◌ find_execution get_agent get_execution count_where compose_assignment
assign_succeeds = refl

issue_assign-Assigned_example :
    Assigned composer fresh_child false
      (some "w1")
      "token"
      100
      before_assign
      assigned_db
      (send_command "token" (CommandAction.assign assignment))
issue_assign-Assigned_example =
    issue_assign-Assigned composer only_reads fresh_child false (some "w1") "token" calm
      before_assign assigned_db (send_command "token" (CommandAction.assign assignment))
      assign_succeeds
