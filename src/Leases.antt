-- ===== src/Leases.antt =====
-- src/leases.rs: named port and temporary-directory leases of a run.
pub mod Names
pub mod Registry
pub mod Allocation
pub mod Placeholders
pub mod Populate
