-- ===== src/Api.antt =====
-- The API types of apis/incident/v1alpha1, and the Kubernetes types that the controllers read.
pub mod Meta
pub mod Incident
pub mod IncidentApply
pub mod Pod
pub mod Rbac
pub mod Managed
