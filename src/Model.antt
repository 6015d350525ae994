-- ===== src/Model.antt =====
-- src/model.rs: the durable documents. A `u64`, `u32`, `u16` or `usize` field is a natural number,
-- and an `i32` is a `Code`.
pub mod Status
pub mod Readiness
pub mod Run
pub mod Documents
pub mod Equality
