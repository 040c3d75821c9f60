-- ===== src/Kernel/Instances.antt =====
-- Which Requirement Instances a Change has: those that its Rules select, and those that the kernel
-- itself adds (`impact_candidates`, `impact_governance_instances`,
-- `contract_revalidation_instances` to `resolve_subject` of src/kernel.rs).
use agentic_development_fram.Base.{
  String, Bool, ◌&&◌, ◌||◌, Option, none, some, List, [], ◌∷◌, ◌++◌, map, any, filter, filter_map,
  find, flat_map, try_map, is_empty, ◌==◌, ◌<>◌, unwrap_or, Result, ok, err, if◌then◌else◌,
}
use agentic_development_fram.Base.Order.{sort, dedup}
use agentic_development_fram.Base.Map
use agentic_development_fram.Base.Map.{Map}
use agentic_development_fram.Json.Value.{
  Value, string, as_str, get, string_field, nested_array, string_map,
}
use agentic_development_fram.Json.Canonical.{Crates, expect_digest}
use agentic_development_fram.Contracts.Scope.{member}
use agentic_development_fram.Contracts.Health.{ClauseHealth, ContractHealthReport}
use agentic_development_fram.Detection.Types.{
  SignalCandidate, SignalCatalogRegistry, signal_definition,
}
use agentic_development_fram.Rules.Types.{attestation, evidence_backed}
use agentic_development_fram.Kernel.Types.{ProjectSnapshot, RequirementInstance}
use agentic_development_fram.Kernel.Candidates.{json_object, json_texts, json_map}

abbrev pub impact_governance_requirement : String
impact_governance_requirement = "impact-governance-established"

abbrev pub contract_clause_revalidation_requirement : String
contract_clause_revalidation_requirement = "contract-clause-revalidated"

-- The values of a map, in the order of its keys.
abbrev pub values : {V : Type 0} → Map V → List V
values entries = map (λ entry. entry.1) entries

abbrev pub json_definition : String → String → String → String → List String → List String → Value
json_definition id phase role result_schema depends_on context = json_object (
    ("id", string id)
    ∷ ("phase", string phase)
    ∷ ("role", string role)
    ∷ ("result_schema", string result_schema)
    ∷ ("depends_on", json_texts depends_on)
    ∷ ("context", json_texts context)
    ∷ [])

-- The candidate of one signal that a declared impact activates.
unfoldable pub impact_candidate :
    Crates → String → String → String → Map String → String → SignalCandidate
impact_candidate crates assessment_id assessment_digest declared_signal bindings signal = record {
  signal = signal;
  bindings = bindings;
  evidence_refs = assessment_id ∷ [];
  detector_id = "declared-impact-assessment";
  detector_version = "2";
  fingerprint = expect_digest crates (
      json_object (
        ("source", string "declared-impact-assessment-v2")
        ∷ ("declared_signal", string declared_signal)
        ∷ ("signal", string signal)
        ∷ ("bindings", json_map bindings)
        ∷ []));
  evidence_digest = assessment_digest;
}

unfoldable pub impact_candidates :
    Crates → SignalCatalogRegistry → Value → ProjectSnapshot → List SignalCandidate
impact_candidates crates registry assessment snapshot =
    let assessment_id = unwrap_or (string_field assessment "id") "result.impact-assessment" in
    let assessment_digest = unwrap_or (Map.get assessment_id snapshot.artifact_digests) "missing" in
    flat_map
      (λ impact. elim (string_field impact "signal") [
        | none ↦ []
        | some declared_signal ↦ elim (signal_definition registry declared_signal) [
          | none ↦ []
          | some definition ↦
              map
                (impact_candidate crates assessment_id assessment_digest declared_signal
                  (string_map (get impact "bindings")))
                definition.activates
        ]
      ])
      (nested_array assessment ("payload" ∷ "impacts" ∷ []))

abbrev pub governance_context : List String
governance_context =
    "change" ∷ "impact-assessment" ∷ "matching-contracts" ∷ "matching-decisions" ∷ []

unfoldable pub impact_governance_instance : Crates → String → Map String → RequirementInstance
impact_governance_instance crates signal bindings = record {
  requirement_id = impact_governance_requirement;
  subject_refs = dedup (sort (values bindings));
  instance_key =
      impact_governance_requirement
      <> "|"
      <> expect_digest crates
          (json_object (("signal", string signal) ∷ ("bindings", json_map bindings) ∷ []));
  selected_by = "kernel.impact-governance-v1" ∷ [];
  definition_digest = expect_digest crates (
      json_definition impact_governance_requirement "before-build" "Analyst" "result.analysis" []
        governance_context);
  phase = "before-build";
  role = "Analyst";
  result_schema = "result.analysis";
  depends_on = [];
  context = governance_context;
  assurance = attestation;
  status = "unsatisfied";
}

-- The body of `filter_map`: an impact without a signal is passed over.
unfoldable pub governance_of : Crates → Value → Option RequirementInstance
governance_of crates impact = elim (string_field impact "signal") [
  | none ↦ none
  | some signal ↦
      some (impact_governance_instance crates signal (string_map (get impact "bindings")))
]

unfoldable pub impact_governance_instances : Crates → Value → List RequirementInstance
impact_governance_instances crates assessment = filter_map (governance_of crates) (
    filter (λ impact. is_empty (nested_array impact ("governing_refs" ∷ [])))
      (nested_array assessment ("payload" ∷ "impacts" ∷ [])))

abbrev pub revalidation_context : List String
revalidation_context = "change" ∷ "matching-contracts" ∷ "affected-code" ∷ "matching-evidence" ∷ []

unfoldable pub contract_revalidation_instance : Crates → ClauseHealth → RequirementInstance
contract_revalidation_instance crates clause = record {
  requirement_id = contract_clause_revalidation_requirement;
  subject_refs = dedup (sort (clause.applies_to ++ clause.clause_ref ∷ []));
  instance_key = contract_clause_revalidation_requirement <> "|" <> clause.clause_ref;
  selected_by = "kernel.contract-health-v1" ∷ [];
  definition_digest = expect_digest crates (
      json_object (
        ("id", string contract_clause_revalidation_requirement)
        ∷ ("phase", string "before-merge")
        ∷ ("role", string "Builder")
        ∷ ("result_schema", string "result.evidence")
        ∷ ("assurance", string "evidence-backed")
        ∷ ("depends_on", json_texts [])
        ∷ ("context", json_texts revalidation_context)
        ∷ []));
  phase = "before-merge";
  role = "Builder";
  result_schema = "result.evidence";
  depends_on = [];
  context = revalidation_context;
  assurance = evidence_backed;
  status = "unsatisfied";
}

unfoldable pub needs_revalidation : List RequirementInstance → ClauseHealth → Bool
needs_revalidation selected clause =
    (clause.status == "stale" || clause.status == "failed")
    && any
        (λ target. member target (flat_map (λ (i : RequirementInstance). i.subject_refs) selected))
        clause.applies_to

unfoldable pub contract_revalidation_instances :
    Crates → ContractHealthReport → List RequirementInstance → List RequirementInstance
contract_revalidation_instances crates health selected =
    map (contract_revalidation_instance crates)
      (filter (needs_revalidation selected) health.clauses)

unfoldable pub explicit_instance :
    Crates → ContractHealthReport → String → Result String RequirementInstance
explicit_instance crates health reference =
    elim (find (λ (clause : ClauseHealth). clause.clause_ref == reference) health.clauses) [
      | none ↦ err ("verification_scope references unknown Contract clause: " <> reference)
      | some clause ↦
          if clause.evidence_mode == "review"
          then err (
              "verification_scope cannot request Evidence for review-only Contract clause: "
              <> reference)
          else ok (record (contract_revalidation_instance crates clause) {
            selected_by = "change.explicit-contract-verification-v1" ∷ [];
          })
    ]

unfoldable pub explicit_contract_verification_instances :
    Crates → ContractHealthReport → Value → Result String (List RequirementInstance)
explicit_contract_verification_instances crates health change =
    try_map (explicit_instance crates health)
      (filter_map as_str (nested_array change ("verification_scope" ∷ [])))
