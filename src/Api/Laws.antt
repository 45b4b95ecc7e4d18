-- ===== src/Api/Laws.antt =====
-- What the handlers of src/api.rs leave alone when they fail.
pub mod Failed
mod Checks
