-- ===== src/Examples.antt =====
-- Tests of the model, and the theorems at concrete inputs.
pub mod Rows
pub mod Markers
pub mod Messages
pub mod Changes
pub mod Histories
pub mod Reconciling
pub mod Cascading
pub mod Syncing
pub mod Parking
