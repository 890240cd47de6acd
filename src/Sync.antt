-- ===== src/Sync.antt =====
-- The change protocol: internal/syncengine and the synced tables of internal/store.
pub mod Kind
pub mod Failure
pub mod Text
pub mod Object
pub mod Fields
pub mod Change
pub mod Decode
pub mod Engine
pub mod Pull
