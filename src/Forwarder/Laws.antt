-- ===== src/Forwarder/Laws.antt =====
-- Laws of the forwarder of src/forwarder.rs.
pub mod Health
pub mod Order
pub mod Race
pub mod Outcome
pub mod Config
