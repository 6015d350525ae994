-- ===== src/Cli.antt =====
pub mod Durations
pub mod Clock
pub mod Start
pub mod Observe
pub mod Wait
pub mod Stop
pub mod Gc
pub mod Views
