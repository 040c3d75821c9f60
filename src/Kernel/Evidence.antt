-- ===== src/Kernel/Evidence.antt =====
-- When a Requirement Instance is satisfied: outcomes, Evidence Records and the Contract clauses
-- that they must cover (`is_satisfied` to `build_baseline_satisfies` of src/kernel.rs).
use mathlib.Core.List.{foldl}
use agentic_development_fram.Base.{
  text_option_eq, String, Bool, true, false, not, ◌&&◌, ◌||◌, none, some, List, [], ◌∷◌, ◌++◌, any,
  all, filter, filter_map, flat_map, is_empty, ◌==◌, or_else, unwrap_or, is_some, is_some_and,
  strip_prefix, contains, is_sha256_hex, if◌then◌else◌,
}
use agentic_development_fram.Base.Map
use agentic_development_fram.Base.Map.{Map}
use agentic_development_fram.Json.Value.{
  Value, as_object, is_zero, get, index, field_is, string_field, nested_array, string_array_set,
  array_contains, string_map,
}
use agentic_development_fram.Contracts.Scope.{
  ClauseEvidenceMode, legacy_direct, direct, inherited, review, member, clause_ref,
  contract_matches_subjects, clause_matches_subjects, effective_clause_evidence_mode,
}
use agentic_development_fram.Rules.Types.{attestation, evidence_backed}
use agentic_development_fram.Kernel.Types.{ProjectSnapshot, RequirementInstance}
use agentic_development_fram.Kernel.Freshness.{is_result_of, outcome_is_fresh, holds_text}

pub record MatchingContractClauses : Type 0 where
  pub has_matching_clauses : Bool
  pub legacy_direct_refs : List String
  pub direct_refs : List String
  pub inherited_refs : List String

abbrev pub no_clauses : MatchingContractClauses
no_clauses = record {
  has_matching_clauses = false;
  legacy_direct_refs = [];
  direct_refs = [];
  inherited_refs = [];
}

-- `MatchingContractClauses::required`
unfoldable pub required : MatchingContractClauses → List String
required clauses = clauses.legacy_direct_refs ++ (clauses.direct_refs ++ clauses.inherited_refs)

unfoldable pub insert_clause :
    ClauseEvidenceMode → String → MatchingContractClauses → MatchingContractClauses
insert_clause legacy_direct r c = record c {
  has_matching_clauses = true;
  legacy_direct_refs = r ∷ c.legacy_direct_refs;
}
insert_clause direct r c = record c { has_matching_clauses = true; direct_refs = r ∷ c.direct_refs }
insert_clause inherited r c = record c {
  has_matching_clauses = true;
  inherited_refs = r ∷ c.inherited_refs;
}
insert_clause review r c = record c { has_matching_clauses = true }

-- The body of the inner loop: a clause without an `id` is passed over. Subjects that name a clause
-- select by name alone.
unfoldable pub add_clause :
    List String → Value → MatchingContractClauses → Value → MatchingContractClauses
add_clause subjects contract clauses clause = elim (string_field clause "id") [
  | none ↦ clauses
  | some clause_id ↦
      let reference = clause_ref (unwrap_or (string_field contract "id") "") clause_id in
      let explicit = filter (λ subject. contains subject "#") subjects in
      if (if is_empty explicit
        then clause_matches_subjects contract clause subjects
        else member reference explicit)
      then insert_clause (effective_clause_evidence_mode contract clause) reference clauses
      else clauses
]

unfoldable pub add_contract :
    List String → MatchingContractClauses → Value → MatchingContractClauses
add_contract subjects clauses contract =
    if contract_matches_subjects contract subjects
    then foldl (add_clause subjects contract) clauses (nested_array contract ("clauses" ∷ []))
    else clauses

unfoldable pub matching_contract_clauses :
    RequirementInstance → ProjectSnapshot → MatchingContractClauses
matching_contract_clauses instance snapshot =
    foldl (add_contract instance.subject_refs) no_clauses snapshot.contracts

unfoldable pub is_sha256_digest : String → Bool
is_sha256_digest value = is_some_and (strip_prefix value "sha256:") is_sha256_hex

abbrev not_empty : String → Bool
not_empty s = not (s == "")

unfoldable pub has_reproducible_evidence_artifact : Value → Bool
has_reproducible_evidence_artifact evidence =
    is_some_and (string_field evidence "method") not_empty
    && is_some_and (get evidence "artifact") (λ artifact.
      is_some (as_object artifact)
      && is_some_and (string_field artifact "uri") not_empty
      && is_some_and (string_field artifact "digest") is_sha256_digest
      && is_some_and (get artifact "exit_code") is_zero)

-- `a.is_disjoint(b)`, negated
abbrev shares : List String → List String → Bool
shares xs ys = any (λ x. member x ys) xs

-- The ids of the Evidence that the same Requirement Instances produced for the same Change.
unfoldable pub output_evidence : Value → ProjectSnapshot → List String
output_evidence evidence snapshot =
    filter_map (λ candidate. string_field candidate "id")
      (filter
        (λ candidate.
          text_option_eq (string_field candidate "change_id") (string_field evidence "change_id")
          && shares (string_array_set (index evidence "requirement_instances"))
              (string_array_set (index candidate "requirement_instances")))
        snapshot.evidence)

abbrev recorded : Map String → String × String → Bool
recorded inputs (reference, digest) = holds_text (Map.get reference inputs) digest

-- An input that is no output of the same verification is recorded with the same digest.
abbrev is_recorded : List String → Map String → String × String → Bool
is_recorded outputs inputs (reference, digest) =
    member reference outputs || recorded inputs (reference, digest)

unfoldable pub evidence_matches_inputs : Value → Map String → ProjectSnapshot → Bool
evidence_matches_inputs evidence required_inputs snapshot =
    let recorded_inputs = string_map (get evidence "input_refs") in
    if is_empty recorded_inputs
    then is_some_and (string_field snapshot.repository "revision")
        (λ revision. field_is evidence "git_revision" revision)
    else (all (is_recorded (output_evidence evidence snapshot) recorded_inputs) required_inputs
        && all (recorded snapshot.artifact_digests) recorded_inputs)

-- The tests of the loop in `outcome_has_current_evidence`: what it does not pass over.
unfoldable pub is_current_evidence :
    RequirementInstance → Value → Value → ProjectSnapshot → Value → Bool
is_current_evidence instance result outcome snapshot evidence =
    is_some_and (string_field evidence "id")
      (λ evidence_id. member evidence_id (string_array_set (index outcome "basis_refs")))
    && field_is evidence "change_id" snapshot.change_id
    && evidence_matches_inputs evidence
        (string_map (or_else (get outcome "input_refs") (get result "input_refs"))) snapshot
    && field_is evidence "outcome" "passed"
    && array_contains (index evidence "requirement_instances") instance.instance_key
    && has_reproducible_evidence_artifact evidence

-- The clauses that a current Evidence Record covers: by a claim where the clause is direct, by its
-- list of clauses where it is inherited or from before there were modes.
unfoldable pub covered_by : MatchingContractClauses → Value → List String
covered_by clauses evidence =
    let clause_refs = string_array_set (index evidence "contract_clause_refs") in
    let claim_refs =
      filter (λ claimed. member claimed clause_refs)
        (filter_map (λ claim. string_field claim "contract_clause_ref")
          (nested_array evidence ("claims" ∷ []))) in
    filter (λ c. member c clauses.legacy_direct_refs) clause_refs
    ++ (filter (λ c. member c clauses.direct_refs) claim_refs
        ++ filter (λ c. member c clauses.inherited_refs) clause_refs)

unfoldable pub outcome_has_current_evidence :
    RequirementInstance → Value → Value → ProjectSnapshot → Bool
outcome_has_current_evidence instance result outcome snapshot =
    let clauses = matching_contract_clauses instance snapshot in
    let current = filter (is_current_evidence instance result outcome snapshot) snapshot.evidence in
    not (is_empty current)
    && all (λ c. member c (flat_map (covered_by clauses) current)) (required clauses)

unfoldable pub has_assurance : RequirementInstance → Value → Value → ProjectSnapshot → Bool
has_assurance instance result outcome snapshot = elim instance.assurance [
  | attestation ↦ true
  | evidence_backed ↦ outcome_has_current_evidence instance result outcome snapshot
]

-- The outcome reports the instance as satisfied, under its definition, in a result of its kind.
unfoldable pub reports_satisfied : RequirementInstance → Value → Value → Bool
reports_satisfied instance result outcome =
    is_result_of result instance.result_schema instance.role
    && field_is outcome "instance_key" instance.instance_key
    && field_is outcome "definition_digest" instance.definition_digest
    && field_is outcome "status" "satisfied"

unfoldable pub satisfies : RequirementInstance → ProjectSnapshot → Value → Value → Bool
satisfies instance snapshot result outcome =
    reports_satisfied instance result outcome
    && outcome_is_fresh result outcome snapshot
    && has_assurance instance result outcome snapshot

unfoldable pub is_satisfied : RequirementInstance → ProjectSnapshot → Bool
is_satisfied instance snapshot =
    any
      (λ result.
        any (satisfies instance snapshot result)
          (nested_array result ("payload" ∷ "outcomes" ∷ [])))
      snapshot.results

-- The baseline result is an input of the build, unchanged since, and reports the instance.
unfoldable pub baseline_satisfies :
    RequirementInstance → ProjectSnapshot → Map String → Value → Bool
baseline_satisfies instance snapshot build_inputs baseline =
    is_some_and (string_field baseline "id") (λ result_id.
      text_option_eq (Map.get result_id snapshot.artifact_digests) (Map.get result_id build_inputs)
      && any (reports_satisfied instance baseline)
          (nested_array baseline ("payload" ∷ "outcomes" ∷ [])))

unfoldable pub build_baseline_satisfies : RequirementInstance → List Value → ProjectSnapshot → Bool
build_baseline_satisfies instance build_results snapshot =
    any
      (λ result.
        any (baseline_satisfies instance snapshot (string_map (get result "input_refs")))
          snapshot.results)
      build_results
