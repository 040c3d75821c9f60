-- ===== src/Contracts.antt =====
-- Contracts: which clauses a set of subjects selects (src/contract_scope.rs), their health
-- (src/contract_health.rs) and the gate over it (src/contract_health_gate.rs).
pub mod Health
pub mod Scope
pub mod Members
pub mod Gate
