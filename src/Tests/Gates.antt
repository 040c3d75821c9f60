-- ===== src/Tests/Gates.antt =====
-- A project whose one clause is verified, its health report and its gate, and the theorems at these
-- (src/contract_health.rs, src/contract_health_gate.rs).
use agentic_development_fram.Base.{
  true, none, [], ◌∷◌, ◌≡◌, ◌≢◌, refl, ok, decimal, Returns, Memᴰ, ◌↔◌, is_sha256_hex,
}
use agentic_development_fram.Base.Order.{sort_by}
use agentic_development_fram.Base.Sets.{set_map}
use agentic_development_fram.Base.Map
use agentic_development_fram.Base.Map.{Map}
use agentic_development_fram.Json.Value.{
  Value, string, number, unsigned, get, index, string_array_set,
}
use agentic_development_fram.Json.Canonical.{
  canonical_digest, canonical_json, write_number, write_entries, join_items, write_canonical,
}
use agentic_development_fram.Kernel.Candidates.{json_object, json_texts}
use agentic_development_fram.Schema.Keywords.{
  check_equal, check_string, check_items, check_required, field_schema, is_closed, matches_type,
  value_eq, number_eq,
}
use agentic_development_fram.Schema.Validate.{
  validate_value, depth, check_node, check_object, check_array, check_fields, check_field,
  check_each, check_alternatives,
}
use agentic_development_fram.Schema.Records.{validate, validate_result}
use agentic_development_fram.Contracts.Scope.{
  review, direct, effective_clause_evidence_mode, evidence_mode_of, effective_clause_applies_to,
  as_text,
}
use agentic_development_fram.Contracts.Health.{ClauseHealth, ContractHealthReport}
use agentic_development_fram.Contracts.Health.Flags.{Inputs}
use agentic_development_fram.Contracts.Health.Status.{HasStatus, clause_health-HasStatus}
use agentic_development_fram.Contracts.Health.Freshness.{
  array_or_empty, required_string, record_array, digest_value, freshness_manifest,
  verification_freshness_refs, stale_refs_for_outcome, clause_digests, record_digest,
  collection_digests, collections_digests, artifact_digests, current_artifact_digests,
}
use agentic_development_fram.Contracts.Health.Clause.{
  evidence_covers_clause, evidence_verifies_outcome, add_outcome, outcomes_of, add_evidence,
  clause_status, tally_of, clause_health,
}
use agentic_development_fram.Contracts.Health.Report.{
  validate_unique_ids, check_collections, validate_collection, validate_health_records, push_all,
  evidence_by_clause, verification_outcomes_by_evidence, health_of, report_clauses,
  report_contracts, count_status, summary_of, build_contract_health_report_with_digests,
}
use agentic_development_fram.Contracts.Health.Promised.{
  IsDerived, build_contract_health_report_with_digests-IsDerived,
}
use agentic_development_fram.Contracts.Gate.{
  allowed_failure_states, ContractHealthPolicy, normalize_states, from_value, build, passed,
}
use agentic_development_fram.Contracts.Gate.Policy.{IsPolicy, from_value-IsPolicy}
use agentic_development_fram.Contracts.Gate.Passed.{passed_iff}
use agentic_development_fram.Contracts.Gate.Backed.{IsBacked}
use agentic_development_fram.Contracts.Gate.Guarded.{passed-IsBacked}
use agentic_development_fram.Tests.Data.{test_crates, list_of}
use agentic_development_fram.Tests.Documents.{test_libraries, test_registry}

abbrev health_contract : Value
health_contract = json_object (
    ("clauses", list_of (json_object (("id", string "c1") ∷ ("text", string "holds") ∷ []) ∷ []))
    ∷ ("id", string "contract.a")
    ∷ [])

abbrev health_evidence : Value
health_evidence = json_object (
    (
      "artifact",
      json_object (
          (
            "digest",
            string "sha256:0000000000000000000000000000000000000000000000000000000000000000",
          )
          ∷ ("exit_code", number (unsigned 0))
          ∷ ("uri", string "log")
          ∷ []),
    )
    ∷ ("change_id", string "change.1")
    ∷ ("contract_clause_refs", json_texts ("contract.a#c1" ∷ []))
    ∷ ("git_revision", string "abc")
    ∷ ("id", string "evidence.1")
    ∷ ("method", string "test")
    ∷ ("outcome", string "passed")
    ∷ ("requirement_instances", json_texts ("r1" ∷ []))
    ∷ [])

abbrev health_result : Value
health_result = json_object (
    ("change_id", string "change.1")
    ∷ ("id", string "result.1")
    ∷ (
      "payload",
      json_object (
          (
            "outcomes",
            list_of (
                json_object (
                  ("basis_refs", json_texts ("evidence.1" ∷ []))
                  ∷ (
                    "freshness_refs",
                    json_object (
                        ("contract.a", string "sha256:58")
                        ∷ ("evidence.1", string "sha256:292")
                        ∷ []),
                  )
                  ∷ ("instance_key", string "r1")
                  ∷ ("status", string "satisfied")
                  ∷ [])
                ∷ []),
          )
          ∷ []),
    )
    ∷ ("result_schema", string "result.evidence")
    ∷ ("role", string "Builder")
    ∷ [])

abbrev health_project : Map Value
health_project =
    ("contracts", list_of (health_contract ∷ []))
    ∷ ("evidence", list_of (health_evidence ∷ []))
    ∷ ("results", list_of (health_result ∷ []))
    ∷ []

abbrev health_document : Value
health_document = json_object health_project

abbrev verified_clause : ClauseHealth
verified_clause = record {
  contract_id = "contract.a";
  clause_id = "c1";
  clause_ref = "contract.a#c1";
  text = "holds";
  applies_to = [];
  authority_ref = none;
  evidence_mode = "direct";
  status = "verified";
  evidence_refs = "evidence.1" ∷ [];
  verification_result_ids = "result.1" ∷ [];
  stale_refs = [];
}

abbrev health_report : ContractHealthReport
health_report = record {
  schema_version = "1";
  repository_revision = none;
  summary = record { total = 1; verified = 1; stale = 0; unverified = 0; failed = 0; review = 0 };
  clauses = verified_clause ∷ [];
}

report_run :
    build_contract_health_report_with_digests test_libraries test_crates health_document
      test_registry []
    ≡ ok health_report
unfolding build_contract_health_report_with_digests check_collections record_array
    validate_unique_ids required_string verification_freshness_refs freshness_manifest
    validate_health_records validate_collection validate validate_result validate_value depth
    check_node check_object check_array check_fields check_field check_each check_alternatives
    check_equal check_string check_items check_required field_schema is_closed matches_type value_eq
    number_eq current_artifact_digests collections_digests collection_digests record_digest
    clause_digests artifact_digests digest_value canonical_digest canonical_json write_canonical
    write_number write_entries join_items decimal evidence_by_clause
    verification_outcomes_by_evidence push_all report_contracts report_clauses health_of
    clause_health tally_of add_evidence outcomes_of add_outcome stale_refs_for_outcome
    evidence_covers_clause evidence_verifies_outcome clause_status effective_clause_evidence_mode
    evidence_mode_of effective_clause_applies_to as_text string_array_set is_sha256_hex set_map
    count_status summary_of sort_by Map.get Map.insert get index
report_run = refl

report_example : Returns (IsDerived test_crates health_project []) (
    build_contract_health_report_with_digests test_libraries test_crates health_document
      test_registry [])
report_example =
    build_contract_health_report_with_digests-IsDerived test_libraries test_crates health_document
      test_registry [] {project = health_project} refl

abbrev health_inputs : Inputs
health_inputs = record {
  contract_id = "contract.a";
  clause_ref = "contract.a#c1";
  evidence_mode = direct;
  evidence_for_clause = ("evidence.1", health_evidence) ∷ [];
  outcomes = [];
  current_digests = [];
}

clause_health-HasStatus_example :
    HasStatus health_inputs
      (clause_health "contract.a" "c1" "contract.a#c1"
        (json_object [])
        []
        direct
        (("evidence.1", health_evidence) ∷ [])
        []
        []).status
clause_health-HasStatus_example = clause_health-HasStatus health_inputs "c1" (json_object []) []

abbrev policy_document : Value
policy_document = json_object (
    ("fail_on", json_texts ("unverified" ∷ "failed" ∷ "stale" ∷ []))
    ∷ ("schema_version", string "1")
    ∷ [])

abbrev test_policy : ContractHealthPolicy
test_policy = record { schema_version = "1"; fail_on = allowed_failure_states }

policy_run : from_value policy_document ≡ ok test_policy
unfolding from_value normalize_states set_map Map.get Map.insert
policy_run = refl

from_value-IsPolicy_example : Returns (IsPolicy policy_document) (from_value policy_document)
from_value-IsPolicy_example = from_value-IsPolicy policy_document

passed_iff_example : (passed (build "policy.yaml" test_policy health_report) ≡ true) ↔ (
    (clause : ClauseHealth)
    → Memᴰ clause health_report.clauses
    → ¬ Memᴰ clause.status test_policy.fail_on)
passed_iff_example = passed_iff "policy.yaml" test_policy health_report

gate_run : passed (build "policy.yaml" test_policy health_report) ≡ true
unfolding passed build
gate_run = refl

passed-IsBacked_example :
    (d : IsDerived test_crates health_project [] health_report) × ((contract : Value)
      → Memᴰ contract d.contracts
      → (clause : Value) → Memᴰ clause (array_or_empty (index contract "clauses"))
      → effective_clause_evidence_mode contract clause ≢ review
      → IsBacked d.results d.evidence d.digests contract clause)
passed-IsBacked_example =
    passed-IsBacked test_libraries test_crates health_document test_registry [] "policy.yaml"
      test_policy refl report_run (λ s m. m) gate_run
