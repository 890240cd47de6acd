-- ===== src/Tests.antt =====
-- Concrete data, and the theorems applied to it.
pub mod Data
mod Runs
mod Pushes
mod Pulls
mod Hints
mod Blobs
mod Access
mod Logs
