-- ===== src/Bdb.antt =====
-- bdb/bdb.go: the methods of `DB`, as transactions over Bolt.
pub mod Bolt
pub mod Reads
pub mod Writes
pub mod Nested
pub mod Increments
pub mod Laws
pub mod Effects
pub mod Refinement
pub mod Rollback
pub mod Emptied
