-- ===== src/Transition.antt =====
-- scheduler/src/services/transition.rs: every change of a session's state.
pub mod Activity
pub mod Terminal
pub mod Notify
pub mod Desire
pub mod Markers
pub mod Message
pub mod Executor
pub mod Recovery
pub mod Actions
pub mod Apply
pub mod Ratchet
pub mod Runs
