-- ===== src/Program.antt =====
-- main.go: the flags, and what the program sets up before it starts.
pub mod Options
pub mod Run
pub mod Reached
pub mod Confined
