-- ===== src/Contracts/Gate/Backed.antt =====
-- What it means that a clause is backed by a project (src/contract_health.rs).
use agentic_development_fram.Base.{
  String, true, some, List, [], ◌∷◌, ◌≡◌, Memᴰ, unwrap_or, filter-mem,
}
use agentic_development_fram.Base.Map
use agentic_development_fram.Base.Map.{Map}
use agentic_development_fram.Contracts.Scope.{clause_ref, effective_clause_evidence_mode}
use agentic_development_fram.Json.Value.{Value, as_str, index}
use agentic_development_fram.Schema.Keywords.{value_eq}
use agentic_development_fram.Contracts.Health.Fresh.{IsCurrent}
use agentic_development_fram.Contracts.Health.Clause.{
  VerificationOutcome, evidence_covers_clause, is_success, outcomes_of,
}
use agentic_development_fram.Contracts.Health.Verifications.{Succeeds}
use agentic_development_fram.Contracts.Health.Report.{
  Sources, evidence_by_clause, verification_outcomes_by_evidence,
}
use agentic_development_fram.Contracts.Health.Promised.{inputs_of}
use agentic_development_fram.Contracts.Health.Pushed.{
  evidence_by_clause-mem, IsRecorded, outcomes_by_evidence-IsRecorded,
}

-- The project has an Evidence Record for the clause, and a verification that relies on it, is current
-- and found the clause satisfied.
pub record IsBacked (results evidence : List Value) (digests : Map String) (contract clause : Value)
    : Type 0 where
  pub contract_id : String
  pub clause_id : String
  pub of_contract : as_str (index contract "id") ≡ some contract_id
  pub of_clause : as_str (index clause "id") ≡ some clause_id
  pub evidence_id : String
  pub evidence_record : Value
  pub verification : VerificationOutcome
  pub is_there : Memᴰ evidence_record evidence
  pub named : as_str (index evidence_record "id") ≡ some evidence_id
  pub covers :
      evidence_covers_clause evidence_record
        (clause_ref contract_id clause_id)
        (effective_clause_evidence_mode contract clause)
      ≡ true
  pub is_recorded : IsRecorded results evidence_id verification
  pub same_change :
      value_eq (index verification.result "change_id") (index evidence_record "change_id") ≡ true
  pub is_current :
      IsCurrent verification.outcome verification.result digests (contract_id ∷ evidence_id ∷ [])
  pub is_success : is_success evidence_record verification.outcome ≡ true

module _ (results evidence contracts : List Value) (digests : Map String) where
  abbrev sources : Sources
  sources = record {
    evidence = evidence_by_clause evidence;
    outcomes = verification_outcomes_by_evidence results;
    digests = digests;
  }

  outcomes_of-mem :
      (evidence_id : String) (value : Value) (v : VerificationOutcome)
      → Memᴰ v (outcomes_of sources.outcomes evidence_id value)
      → IsRecorded results evidence_id v
        × (value_eq (index v.result "change_id") (index value "change_id") ≡ true)
  unfolding outcomes_of
  outcomes_of-mem evidence_id value v m =
      let (n, e) =
        filter-mem
          (λ (v : VerificationOutcome).
            value_eq (index v.result "change_id") (index value "change_id"))
          (unwrap_or (Map.get evidence_id sources.outcomes) []) m in
      (outcomes_by_evidence-IsRecorded results evidence_id v n, e)

  pub success-IsBacked :
      (contract clause : Value) (contract_id clause_id : String)
      → as_str (index contract "id") ≡ some contract_id
      → as_str (index clause "id") ≡ some clause_id
      → Succeeds (inputs_of sources contract clause contract_id clause_id)
      → IsBacked results evidence digests contract clause
  success-IsBacked contract clause contract_id clause_id p q s =
      let (there, named) =
        evidence_by_clause-mem evidence (clause_ref contract_id clause_id) s.evidence_id s.evidence
          s.is_verification.is_there in
      let (recorded, same) =
        outcomes_of-mem s.evidence_id s.evidence s.verification s.is_verification.cites in
      record {
        contract_id = contract_id;
        clause_id = clause_id;
        of_contract = p;
        of_clause = q;
        evidence_id = s.evidence_id;
        evidence_record = s.evidence;
        verification = s.verification;
        is_there = there;
        named = named;
        covers = s.is_verification.covers;
        is_recorded = recorded;
        same_change = same;
        is_current = s.currency;
        is_success = s.passes;
      }
