-- ===== src/Examples/Syncing.antt =====
-- Requests of workers to the small database.
-- Job Proc
use agentbeacon.Statements.{find_session}
use agentbeacon.Synchronisation.Events.Once.{insert_with_dedup-once}
use agentbeacon.Statements.Sync.{insert_with_dedup}
use agentbeacon.Statements.{count_pending_turns, pending_turns}
use agentbeacon.Procedures.{transact_or_roll_back}
use agentbeacon.Synchronisation.Sends.Answer.{answer_is_recorded}
use agentbeacon.Json.{str}
use agentbeacon.Statements.{find_execution, get_execution, update_where}
use agentbeacon.Reconciler.Commands.{CommandAction, issue_feed_turn}
use agentbeacon.Base.{refl, count_where, Option, String, pos, some}
use agentbeacon.Procedures
use agentbeacon.Synchronisation.History.Handler.{worker_sync_keeps_history}
use agentbeacon.Tx.{ok, ◌>>=◌}
use agentbeacon.Examples.Rows.{calm, database_rows, state_of}
use agentbeacon.Base.{none, false, ◌≡◌}
use agentbeacon.Examples.Reconciling.{
  alone, composer, fed_db, started, only_reads, database_rows-IsCoherent,
}
use agentbeacon.Synchronisation.Acks.Effects.{Acked, OneSession, process_command_ack-Acked}
use agentbeacon.Synchronisation.Acks.{process_command_ack_in_tx, applied}
use agentbeacon.Tables.{Db, InsertedEvent, message}
use agentbeacon.Transition.Ratchet.{History, History-refl}
use agentbeacon.Reconciler.Sends.{Somewhere, Carries}
use agentbeacon.Synchronisation.Answer.{worker_sync}
use agentbeacon.Synchronisation.Requests.{Server, WorkerSyncRequest, command}

abbrev server : Server
server = record {
  composer = composer;
  fuel = 5;
  started_at = 0;
  heartbeat_timeout = 60000000;
  long_poll_timeout_secs = 0;
  retryable = λ x. false;
}

abbrev poll : WorkerSyncRequest
poll = record { worker_id = "w1"; executor_report = none; turn_result = none; command_ack = none }

feeds :
    (worker_sync server poll alone started).0
    ≡ ok (command "token" (CommandAction.feed_turn "child" (str "go on")))
unfolding worker_sync Procedures.◌>>=◌ ◌>>=◌ count_pending_turns find_execution pending_turns
    transact_or_roll_back issue_feed_turn
feeds = refl

answer_is_recorded_example :
    Somewhere
      (Carries "token" (CommandAction.feed_turn "child" (str "go on")))
      (worker_sync server poll alone started).1.db.sessions
answer_is_recorded_example =
    answer_is_recorded server poll alone started "token"
      (CommandAction.feed_turn "child" (str "go on")) only_reads feeds

worker_sync_keeps_history_example :
    History database_rows (worker_sync server poll alone started).1.db
worker_sync_keeps_history_example =
    worker_sync_keeps_history server poll alone started only_reads (λ k d c. History-refl d)
      database_rows-IsCoherent

-- The acknowledgement of the turn that was fed.
abbrev after_ack : Db
after_ack = state_of fed_db (process_command_ack_in_tx "w1" "token" calm fed_db)

ack_succeeds : process_command_ack_in_tx "w1" "token" calm fed_db ≡ ok (applied false, after_ack)
unfolding process_command_ack_in_tx ◌>>=◌ issue_feed_turn find_execution get_execution count_where
    update_where
ack_succeeds = refl

one_session : OneSession "token" "child" fed_db.sessions
unfolding issue_feed_turn ◌>>=◌ find_execution get_execution count_where update_where
one_session = ((λ h. absurd (cc)), ((λ h. refl), ((λ h. absurd (cc)), tt)))

process_command_ack-Acked_example : Acked "w1" "token" 100 fed_db (applied false) after_ack
process_command_ack-Acked_example =
    process_command_ack-Acked "w1" "token" "child" calm fed_db after_ack (applied false) one_session
      ack_succeeds

-- The message number 1 of the child, and the same number later with another text.
abbrev first_message : String → Db → Db
first_message text d = state_of d (insert_with_dedup "x1" "child" message (str text) (pos 1) calm d)

first_succeeds :
    insert_with_dedup "x1" "child" message (str "hello") (pos 1) calm database_rows
    ≡ ok (
      some (record { id = pos 5; created_at = "2026-01-01T00:00:00Z" }),
      first_message "hello" database_rows,
    )
unfolding insert_with_dedup ◌>>=◌ find_session count_where
first_succeeds = refl

again_succeeds :
    insert_with_dedup "x1" "child" message
      (str "bye")
      (pos 1)
      calm
      (first_message "hello" database_rows)
    ≡ ok (none, first_message "hello" database_rows)
unfolding insert_with_dedup ◌>>=◌ find_session count_where
again_succeeds = refl

insert_with_dedup-once_example :
    (◌≡◌ {A = Option InsertedEvent} none none)
    × (first_message "hello" database_rows ≡ first_message "hello" database_rows)
insert_with_dedup-once_example =
    insert_with_dedup-once "x1" "child" message (str "hello") (pos 1) calm database_rows
      (first_message "hello" database_rows) (first_message "hello" database_rows)
      (first_message "hello" database_rows)
      (some (record { id = pos 5; created_at = "2026-01-01T00:00:00Z" })) "x1" message (str "bye")
      calm none first_succeeds (History-refl (first_message "hello" database_rows)) again_succeeds
