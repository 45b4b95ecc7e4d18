-- ===== src/Database.antt =====
-- The policy database of src/db.rs: its tables as lists of rows, and its statements as functions on
-- them. A transaction that fails at any statement is rolled back; the pool and SQLite decide which
-- calls get a connection and commit, and this is an argument of each operation.
pub mod Tables
pub mod Domains
pub mod Sources
pub mod Settings
pub mod Refresh
pub mod Laws
