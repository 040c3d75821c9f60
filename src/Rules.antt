-- ===== src/Rules.antt =====
-- The Rule Compiler (src/rules.rs).
pub mod Types
pub mod Fields
pub mod Cycles
pub mod Acyclic
pub mod Search
pub mod Reports
pub mod Requirements
pub mod Decides
pub mod Compile
pub mod Compiled
pub mod Index
