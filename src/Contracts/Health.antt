-- ===== src/Contracts/Health.antt =====
-- The Contract health report that the kernel reads: the types of src/contract_health.rs.
pub mod Freshness
pub mod Clause
pub mod Report
pub mod Fresh
pub mod Flags
pub mod Verifications
pub mod Status
pub mod Pushed
pub mod Reported
pub mod AllReported
pub mod Summary
pub mod Promised
use agentic_development_fram.Base.{String, ℕ, Option, List}

pub record ContractHealthSummary : Type 0 where
  pub total : ℕ
  pub verified : ℕ
  pub stale : ℕ
  pub unverified : ℕ
  pub failed : ℕ
  pub review : ℕ

pub record ClauseHealth : Type 0 where
  pub contract_id : String
  pub clause_id : String
  pub clause_ref : String
  pub text : String
  pub applies_to : List String
  pub authority_ref : Option String
  pub evidence_mode : String
  pub status : String
  pub evidence_refs : List String
  pub verification_result_ids : List String
  pub stale_refs : List String

pub record ContractHealthReport : Type 0 where
  pub schema_version : String
  pub repository_revision : Option String
  pub summary : ContractHealthSummary
  pub clauses : List ClauseHealth
