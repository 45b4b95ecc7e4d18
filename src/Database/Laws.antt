-- ===== src/Database/Laws.antt =====
-- Laws of the database of src/db.rs.
pub mod Rows
pub mod Parse
pub mod Replace
pub mod Delete
pub mod Load
pub mod Settings
pub mod Refreshed
pub mod Shown
mod Checks
