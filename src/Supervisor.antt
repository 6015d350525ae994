-- ===== src/Supervisor.antt =====
pub mod Body
pub mod Stopping
pub mod Loop
pub mod Failure
pub mod Startup
pub mod Supervise
