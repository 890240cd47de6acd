-- ===== src/Push.antt =====
-- What a push does: the theorems about ApplyChangeBatch as a whole.
pub mod Writes
pub mod Commit
pub mod Effect
pub mod Rows
pub mod Outcomes
pub mod Stored
pub mod Invariants
pub mod References
pub mod Replay
pub mod Accounting
