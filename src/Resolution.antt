-- ===== src/Resolution.antt =====
-- scheduler/src/resolution.rs: the markers that answer or dismiss an escalated question.
pub mod Parts
pub mod Candidates
pub mod Marker
pub mod Size
pub mod RoundTrip
pub mod Pattern
pub mod Sources
