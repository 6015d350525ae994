-- ===== src/Store.antt =====
-- src/store.rs: run identifiers, the run directories and their documents.
pub mod RunId
pub mod Files
pub mod Runs
pub mod Removal
pub mod Creation
pub mod Token
pub mod Update
pub mod Request
pub mod Listing
pub mod Refinement
