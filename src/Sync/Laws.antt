-- ===== src/Sync/Laws.antt =====
-- Laws of the synchronisation of src/sync.rs.
pub mod Own
pub mod Settings
pub mod Local
pub mod Applied
pub mod Polled
mod Checks
