-- ===== src/Tests.antt =====
pub mod Samples
pub mod Readiness
mod Probes
mod Logs
mod Leases
pub mod Store
mod Cli
pub mod Supervisor
mod WindowsDetach
pub mod Startup
pub mod Start
mod Runs
