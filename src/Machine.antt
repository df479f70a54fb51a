-- ===== src/Machine.antt =====
-- internal/controllers/incident/machine.go: the lifecycle of an Incident.
pub mod Output
pub mod Runes
pub mod Checks
pub mod Cadence
pub mod Transitions
pub mod Verdicts
pub mod Lifecycle
pub mod Moves
pub mod Repeats
pub mod Streaks
pub mod Due
