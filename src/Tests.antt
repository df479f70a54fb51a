-- ===== src/Tests.antt =====
-- Concrete libraries, servers and objects, and the theorems at inputs that meet their hypotheses.
mod Library
mod Objects
mod Machines
mod Controllers
mod Readers
mod Requests
mod Applies
mod Names
mod Programs
mod Lives
mod Deletes
mod Cycles
mod Setups
