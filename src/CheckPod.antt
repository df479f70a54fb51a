-- ===== src/CheckPod.antt =====
-- internal/controllers/incident/checkpod.go: the pods that run scripts.
pub mod Names
pub mod ResultOf
pub mod Runs
pub mod Sandbox
pub mod Digits
pub mod Unique
pub mod Confined
pub mod ReadBack
