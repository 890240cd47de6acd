-- ===== src/Store.antt =====
-- The database of internal/store: its tables, and the statements that the synchronisation runs.
pub mod Database
pub mod Outcome
pub mod Sequence
pub mod Write
pub mod Batches
pub mod Context
pub mod Weight
pub mod Delta
pub mod Purges
