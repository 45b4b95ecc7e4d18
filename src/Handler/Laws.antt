-- ===== src/Handler/Laws.antt =====
-- Laws of the handler of src/handler.rs.
pub mod Guard
pub mod Account
pub mod Block
