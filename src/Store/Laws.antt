-- ===== src/Store/Laws.antt =====
-- Laws of `DomainStore` (src/lists.rs), one module for each thing that they speak of.
pub mod Arena
pub mod Index
pub mod Invariant
pub mod Frame
pub mod Entry
pub mod Insert
pub mod Remove
pub mod Removed
pub mod Rebuild
pub mod Compact
pub mod Delete
pub mod Match
pub mod Model
pub mod Merge
mod Checks
