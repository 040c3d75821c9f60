-- ===== src/Contracts/Health/Report.antt =====
-- The Contract health report: `build_contract_health_report_with_digests` of
-- src/contract_health.rs.
use agentic_development_fram.Base.{
  ℕ, String, Bool, not, ◌&&◌, ◌||◌, none, some, List, [], ◌∷◌, ◌++◌, ◌==◌, ◌<>◌, filter, filter_map,
  flat_map, length, map, and_then, unwrap_or, Result, ok, ok_or, map_err, guard, ◌>>=◌, ◌>>◌,
  if◌then◌else◌,
}
use agentic_development_fram.Base.Map
use agentic_development_fram.Base.Map.{Map}
use agentic_development_fram.Base.Order.{sort_by, text_le}
use agentic_development_fram.Contracts.Scope.{
  member, clause_ref, effective_clause_applies_to, effective_clause_evidence_mode,
}
use agentic_development_fram.Json.Value.{Value, as_str, as_object, index}
use agentic_development_fram.Json.Canonical.{Crates}
use agentic_development_fram.Schema.Registry.{SchemaRegistry}
use agentic_development_fram.Schema.Keywords.{Libraries}
use agentic_development_fram.Schema.Records.{validate}
use agentic_development_fram.Contracts.Health.{
  ContractHealthSummary, ClauseHealth, ContractHealthReport,
}
use agentic_development_fram.Contracts.Health.Freshness.{
  HealthError, message, invalid_record, array_or_empty, required_string, record_array,
  is_verification_result, verification_freshness_refs, project_collections,
  current_artifact_digests,
}
use agentic_development_fram.Contracts.Health.Clause.{VerificationOutcome, clause_health}

unfoldable pub validate_unique_ids :
    List Value → String → List String → Result HealthError (Unit {0})
validate_unique_ids [] collection seen = ok tt
validate_unique_ids (value ∷ values) collection seen =
    required_string value "id" collection >>= λ id.
    guard (not (member id seen)) (message ("duplicate " <> collection <> " ID: " <> id))
    >> validate_unique_ids values collection (id ∷ seen)

unfoldable pub check_collections : Map Value → List String → Result HealthError (Unit {0})
check_collections project [] = ok tt
check_collections project (collection ∷ collections) =
    record_array (Map.get collection project) collection >>= λ values.
    validate_unique_ids values collection [] >> check_collections project collections

abbrev pub collection_kinds : List (String × String)
collection_kinds =
    ("changes", "change")
    ∷ ("contracts", "contract")
    ∷ ("decisions", "decision")
    ∷ ("results", "result")
    ∷ ("evidence", "evidence")
    ∷ []

-- The Records that the report depends on must be valid.
module _ (libraries : Libraries) (registry : SchemaRegistry) (required_refs : List String) where
  unfoldable pub validate_collection : String → String → List Value → Result HealthError (Unit {0})
  validate_collection collection kind [] = ok tt
  validate_collection collection kind (value ∷ values) =
      required_string value "id" kind >>= λ record_id.
      (if collection == "contracts"
          || (collection == "evidence"
              || (member record_id required_refs
                  || (collection == "results" && is_verification_result value)))
        then map_err (invalid_record kind) (validate libraries registry kind value)
        else ok tt)
      >> validate_collection collection kind values

  unfoldable pub validate_health_records :
      Map Value → List (String × String) → Result HealthError (Unit {0})
  validate_health_records project [] = ok tt
  validate_health_records project ((collection, kind) ∷ kinds) =
      record_array (Map.get collection project) collection >>= λ values.
      validate_collection collection kind values >> validate_health_records project kinds

-- `entry(key).or_insert_with(Vec::new).push(value)` for each pair.
unfoldable pub push_all : {A : Type 0} → Map (List A) → List (String × A) → Map (List A)
push_all m [] = m
push_all m ((key, value) ∷ pairs) =
    push_all (Map.insert key (unwrap_or (Map.get key m) [] ++ (value ∷ [])) m) pairs

-- The texts of an array.
abbrev pub texts : Value → List String
texts value = filter_map as_str (array_or_empty value)

abbrev pub clause_evidence : Value → List (String × (String × Value))
clause_evidence value = elim (as_str (index value "id")) [
  | none ↦ []
  | some evidence_id ↦
      map (λ reference. (reference, (evidence_id, value)))
        (texts (index value "contract_clause_refs"))
]

unfoldable pub evidence_by_clause : List Value → Map (List (String × Value))
evidence_by_clause evidence = push_all [] (flat_map clause_evidence evidence)

abbrev pub evidence_outcomes : Value → List (String × VerificationOutcome)
evidence_outcomes result =
    flat_map
      (λ outcome.
        map (λ reference. (reference, record { result = result; outcome = outcome }))
          (texts (index outcome "basis_refs")))
      (array_or_empty (index (index result "payload") "outcomes"))

unfoldable pub verification_outcomes_by_evidence : List Value → Map (List VerificationOutcome)
verification_outcomes_by_evidence results =
    push_all [] (flat_map evidence_outcomes (filter is_verification_result results))

-- What the health of the clauses is derived from.
pub record Sources : Type 0 where
  pub evidence : Map (List (String × Value))
  pub outcomes : Map (List VerificationOutcome)
  pub digests : Map String

unfoldable pub health_of : Sources → Value → String → Value → String → ClauseHealth
health_of sources contract contract_id clause clause_id =
    let reference = clause_ref contract_id clause_id in
    clause_health contract_id clause_id reference clause
      (effective_clause_applies_to contract clause) (effective_clause_evidence_mode contract clause)
      (unwrap_or (Map.get reference sources.evidence) []) sources.outcomes sources.digests

-- The clauses of a Contract, with the references that were seen.
unfoldable pub report_clauses :
    Sources
    → Value
    → String
    → List Value
    → List String
    → Result HealthError (List ClauseHealth × List String)
report_clauses sources contract contract_id [] seen = ok ([], seen)
report_clauses sources contract contract_id (clause ∷ clauses) seen =
    required_string clause "id" "Contract clause" >>= λ clause_id.
    let reference = clause_ref contract_id clause_id in
    guard (not (member reference seen)) (message ("duplicate Contract clause ref: " <> reference))
    >> (report_clauses sources contract contract_id clauses (reference ∷ seen) >>= λ rest.
        ok (health_of sources contract contract_id clause clause_id ∷ rest.0, rest.1))

unfoldable pub report_contracts :
    Sources → List Value → List String → Result HealthError (List ClauseHealth)
report_contracts sources [] seen = ok []
report_contracts sources (contract ∷ contracts) seen =
    required_string contract "id" "Contract" >>= λ contract_id.
    report_clauses sources contract contract_id (array_or_empty (index contract "clauses")) seen
    >>= λ reported.
        report_contracts sources contracts reported.1 >>= λ rest. ok (reported.0 ++ rest)

unfoldable pub count_status : List ClauseHealth → String → ℕ
count_status clauses status =
    length (filter (λ (clause : ClauseHealth). clause.status == status) clauses)

abbrev pub ref_le : ClauseHealth → ClauseHealth → Bool
ref_le left right = text_le left.clause_ref right.clause_ref

unfoldable pub summary_of : List ClauseHealth → ContractHealthSummary
summary_of clauses = record {
  total = length clauses;
  verified = count_status clauses "verified";
  stale = count_status clauses "stale";
  unverified = count_status clauses "unverified";
  failed = count_status clauses "failed";
  review = count_status clauses "review";
}

unfoldable pub build_contract_health_report_with_digests :
    Libraries
    → Crates
    → Value
    → SchemaRegistry
    → Map String
    → Result HealthError ContractHealthReport
build_contract_health_report_with_digests libraries crates document registry record_digests =
    ok_or (as_object document) (message "project must be an object") >>= λ project.
    check_collections project project_collections
    >> (record_array (Map.get "results" project) "results" >>= λ results.
        record_array (Map.get "evidence" project) "evidence" >>= λ evidence.
        let required_refs = verification_freshness_refs results in
        validate_health_records libraries registry required_refs project collection_kinds
        >> (current_artifact_digests crates project required_refs record_digests >>= λ digests.
            record_array (Map.get "contracts" project) "contracts" >>= λ contracts.
            report_contracts
              (record {
                evidence = evidence_by_clause evidence;
                outcomes = verification_outcomes_by_evidence results;
                digests = digests;
              })
              contracts []
            >>= λ reported.
                let clauses = sort_by ref_le reported in
                ok (record {
                  schema_version = "1";
                  repository_revision =
                      and_then (Map.get "repository" project)
                        (λ repository. as_str (index repository "revision"));
                  summary = summary_of clauses;
                  clauses = clauses;
                })))

unfoldable pub build_contract_health_report :
    Libraries → Crates → Value → SchemaRegistry → Result HealthError ContractHealthReport
build_contract_health_report libraries crates document registry =
    build_contract_health_report_with_digests libraries crates document registry []
