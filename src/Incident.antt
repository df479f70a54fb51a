-- ===== src/Incident.antt =====
-- internal/controllers/incident/incident.go: the Incident controller.
pub mod LastRuns
pub mod Requeue
pub mod Plan
pub mod Observe
pub mod Safety
pub mod Pods
pub mod Settled
pub mod Update
pub mod Order
pub mod Steps
pub mod Complete
pub mod Writes
pub mod Alone
pub mod Deleted
pub mod UpToDate
pub mod Cycle
pub mod Setup
