-- ===== src/Logs.antt =====
-- src/logs.rs: the capture of a run's output and the reading of its log.
pub mod Writer
pub mod Reader
