-- ===== src/Sync.antt =====
-- The slave side of synchronisation, src/sync.rs: what a snapshot of the primary changes here, and the
-- loop that polls. JSON values and their decoding belong to serde_json, texts of numbers and
-- addresses to `std`; they are parameters.
pub mod Apply
pub mod Poll
pub mod Laws
