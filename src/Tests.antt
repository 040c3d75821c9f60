-- ===== src/Tests.antt =====
-- Concrete projects: runs of the definitions, and the theorems at inputs where their hypotheses hold.
pub mod Data
pub mod Snapshots
pub mod Compiler
pub mod Runs
pub mod Documents
pub mod Deliveries
pub mod Releases
pub mod Gates
pub mod Theorems
pub mod Evidence
