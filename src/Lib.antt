-- ===== src/Lib.antt =====
-- The scheduler of AgentBeacon: the state machine of sessions and executions, the reconciler that
-- brings workers to what it wants, the requests of the workers, and the resolution of the questions
-- that agents ask.
--
-- An execution is a tree of sessions. A session has a desired state (run, stop, terminate), which
-- users, agents and the reconciler change, an executor state (unassigned, running, idle, crashed),
-- which the worker that holds it reports, and an outcome once it is terminated. Turns wait for a
-- session in the task queue, and everything that happens is an event of the log. An agent asks with
-- an escalation event; a message answers it, and writes a marker event in the same transaction.
-- A worker calls in with what its executors do, what a turn gave, and which command it has taken; the
-- scheduler writes that down, runs the reconciler on the worker's sessions, and answers with a command.
--
-- Which file models which part:
--   Base, Json         the shared helpers, lists, integers, texts, and serde_json's values
--   Tables             the rows: db/sessions.rs, db/executions.rs, db/events.rs, db/task_queue.rs
--   Tx                 transactions, error.rs, `Rejected`; Keeps and Inverse are how proofs follow them
--   Statements         the SQL statements of these tables, as functions of the database; Work and Sync
--                      are those of the reconciler and of the workers' requests
--   Procedures         code that runs several transactions: Follows, Yields and Triples are how proofs
--                      follow it
--   Resolution         scheduler/src/resolution.rs: Parts, Candidates, Marker, Sources (answers in
--                      the log and on the live route), Size (bytes of a marker,
--                      and in Size/Written the marker as text), Pattern (the LIKE prefilter)
--   Transition         scheduler/src/services/transition.rs and the markers of db/events.rs:
--                      Activity (is_quiescent, is_active, derive_execution_outcome), Terminal, Notify,
--                      Desire (set_desired, terminate_failed), Markers, Message (send_message),
--                      Executor (set_executor_state), Recovery, Actions and Apply (transition,
--                      terminate_session), Ratchet and Runs (what no sequence of them undoes)
--   Reconciler         scheduler/src/services/reconciler.rs: Commands (assign, feed, stop, cancel),
--                      Repair, Finalize (the end of a session, notify_parent_of_crash_in_tx), Cascade
--                      (terminate_and_cascade, cascade_children), Reconcile (reconcile); History, Sends,
--                      Delivery, Assigned, Tree and Descendants are about them
--   Synchronisation    scheduler/src/api/handlers/worker_sync.rs: Requests, Handler (the executor's
--                      report), Intake, Results, Turns and Acks (the transaction of a result and an
--                      acknowledgement), Rounds and Global (run_reconciler_for_session,
--                      run_reconciler_for_worker), Answer (worker_sync), Events (worker_event);
--                      History and Sends are about them
--   Parking            scheduler/src/services/restart_park.rs: park_live_sessions_on_boot; Chains is about
--                      classify_ancestry
--   Examples           a small database, runs of the model, and the theorems at concrete inputs
-- All the paths are below scheduler/src unless they say otherwise.
--
-- A function of the source that takes the pool is a transaction of the model: a function from an
-- environment and a database to a result. A long function is cut where its blocks are: `set_desired`
-- into `set_terminate`, `set_stop` and `set_run`, `send_message` into the steps of `deliver`. A row
-- that the caller read before the transaction is an argument, so the theorems hold for rows out of
-- date, and for every interleaving of transactions, which the database serialises.
--
-- A function that runs several transactions is a procedure: a function from a world and a machine,
-- which holds the database, to a result and the machine after it, errors included, since what earlier
-- transactions committed stays. The world says what other transactions do to the database before each
-- transaction of the procedure, what the transaction meets, the clock (in microseconds), and the
-- tokens that `Uuid::new_v4` gives. The machine also keeps the heartbeats of the workers and lists
-- which workers were killed, how often the waiters of the queue were woken, and what was broadcast;
-- waiting, in a long poll and before a repetition, is left to the world. What other modules
-- put together for an assignment (build_driver_info_in_tx, the briefing, the MCP servers, the next
-- message number) is the parameter `Composer`, and `ReadsOnly` says that it only reads.
--
-- The model and the database: rows stand in the order of insertion, ids and tokens are texts, times
-- are numbers, an `i64` id is an integer. A payload column is kept as what `serde_json::from_str`
-- reads from it, and a value that is written reads back as itself. A statement fails where the
-- environment says so, by its label; an error carries no database, since a transaction that is
-- dropped or refused is rolled back. The text of an error leaves out the text of the inner one. The
-- cache of verified sessions of a transaction is left out: no statement moves a session to another
-- execution. How a time is written (RFC 3339) and the failpoint for tests come from the environment.
--
-- Loops are recursion on lists and texts. The cascade over the children recurses on fuel, and ends
-- in `diverged` without it; any fuel above the height of the tree of sessions is enough. `passes`
-- and `visits` are the two passes of the source, `with_retries` its three repetitions. Which
-- errors of a transaction are deadlocks is a parameter, `Server.retryable`. `digits_loop` runs on
-- fuel 20, more than the 19 digits of the largest `i64`. The sizes of resolution.rs are below 2^64
-- for any text in memory, so they are plain numbers; the budget of `fit_answer_text`, which can be
-- negative, is an integer.
--
-- Not modelled: the HTTP routes other than the workers', messaging between sessions, the wiki, the
-- network policy, the supervisor and the remaining tables; `resolved_at_is_representable` (the
-- parsing of times is chrono's); logging and metrics.
mod Base
pub mod Json
pub mod Resolution
pub mod Tables
pub mod Tx
pub mod Statements
pub mod Procedures
pub mod Transition
pub mod Reconciler
pub mod Synchronisation
pub mod Parking
pub mod Examples
