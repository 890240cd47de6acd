-- ===== src/Blob.antt =====
-- The attachment store: its files (internal/blob/store.go), its records (internal/store/blobs.go),
-- the sweeper (internal/blobsweep/sweeper.go) and the byte endpoints (internal/httpapi/blobs.go).
pub mod Attempt
pub mod Files
pub mod Records
pub mod Sweep
pub mod Upload
pub mod Backed
pub mod Sound
pub mod Steps
pub mod Invariants
pub mod Refinement
pub mod Runs
pub mod Kept
pub mod Offered
pub mod Transfer
