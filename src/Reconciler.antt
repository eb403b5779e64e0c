-- ===== src/Reconciler.antt =====
-- scheduler/src/services/reconciler.rs: what brings sessions and workers to the desired states.
pub mod Commands
pub mod Repair
pub mod Finalize
pub mod Cascade
pub mod Reconcile
pub mod History
pub mod Delivery
pub mod Sends
pub mod Assigned
pub mod Tree
pub mod Descendants
