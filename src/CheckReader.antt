-- ===== src/CheckReader.antt =====
-- internal/controllers/checkreader/checkreader.go: the read access of the check pods.
pub mod Rules
pub mod Grants
pub mod Allowed
pub mod Distinct
pub mod Kept
pub mod Sync
pub mod Ordered
pub mod Canonical
pub mod Settled
pub mod Sound
pub mod Again
pub mod Refresher
