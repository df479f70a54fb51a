-- ===== src/Life.antt =====
-- incident.go with apply.go: the life of an Incident that both controllers, people and the writer
-- of the analysis change.
pub mod Verdicts
pub mod World
pub mod Explained
pub mod Lasting
