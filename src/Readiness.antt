-- ===== src/Readiness.antt =====
-- src/readiness.rs: readiness conditions, and the tracker that decides when a run is ready.
pub mod Tracker
pub mod Probing
pub mod Probes
pub mod LogMatch
pub mod Invariant
pub mod Runs
pub mod Conditions
