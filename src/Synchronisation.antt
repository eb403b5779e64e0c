-- ===== src/Synchronisation.antt =====
-- scheduler/src/api/handlers/worker_sync.rs: what a worker reports, and what it is told to do.
pub mod Requests
pub mod Acks
pub mod Turns
pub mod Results
pub mod Rounds
pub mod Global
pub mod Handler
pub mod Intake
pub mod Answer
pub mod History
pub mod Sends
pub mod Events
