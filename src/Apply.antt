-- ===== src/Apply.antt =====
-- internal/controllers/incident/apply.go: the IncidentApply controller.
pub mod Tail
pub mod Latest
pub mod Requests
pub mod Exclusion
pub mod Wait
pub mod Access
pub mod Admission
pub mod Granted
pub mod Credentials
pub mod Admitted
pub mod Plan
pub mod Observe
pub mod Carry
pub mod Phases
pub mod Consistent
pub mod Order
pub mod Recorded
pub mod Patches
pub mod Once
pub mod Output
pub mod Valid
pub mod Setup
pub mod Connect
pub mod Expiry
pub mod Writes
