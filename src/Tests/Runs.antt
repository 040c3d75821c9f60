-- ===== src/Tests/Runs.antt =====
-- Runs of the kernel on the project (`evaluate_with_health` of src/kernel.rs).
use agentic_development_fram.Base.{
  ok, true, false, none, some, [], ◌∷◌, ◌≡◌, refl, decimal, is_sha256_hex,
}
use agentic_development_fram.Base.Order.{sort_by, insert_sorted, sort, dedup}
use agentic_development_fram.Base.Map
use agentic_development_fram.Base.Map.{insert}
use agentic_development_fram.Json.Value.{
  get, index, string_field, field_is, nested_string, nested_array, string_array_set, array_contains,
  string_map,
}
use agentic_development_fram.Detection.Types.{signal_definition}
use agentic_development_fram.Kernel.Types.{ProjectSnapshot, KernelDecision}
use agentic_development_fram.Json.Canonical.{
  write_number, join_items, write_entries, canonical_json, canonical_digest, expect_digest,
  write_canonical,
}
use agentic_development_fram.Contracts.Scope.{
  effective_clause_applies_to, evidence_mode_of, effective_clause_evidence_mode,
  clause_matches_subjects, names_clause, matches_whole, contract_matches_subjects,
}
use agentic_development_fram.Kernel.Freshness.{
  repository_phase, ref_is_fresh, refs_are_fresh, outcome_is_fresh, result_is_fresh, is_result_of,
  concludes_impact, fresh_impact_assessment, impact_assessment_pending, current_impact_assessments,
  fresh_build_results,
}
use agentic_development_fram.Kernel.Candidates.{
  reviews, saw_current, is_usable, review_compare, later_max, max_review, current_candidate_review,
  disposition_of, add_disposition, candidate_dispositions, disposition_evidence_is_current,
  signal_applicability_review_instance, reviews_instance, signal_applicability_review_outcome,
}
use agentic_development_fram.Kernel.Evidence.{
  required, insert_clause, add_clause, add_contract, matching_contract_clauses, is_sha256_digest,
  has_reproducible_evidence_artifact, output_evidence, evidence_matches_inputs, is_current_evidence,
  covered_by, outcome_has_current_evidence, has_assurance, reports_satisfied, satisfies,
  is_satisfied, baseline_satisfies, build_baseline_satisfies,
}
use agentic_development_fram.Kernel.Instances.{
  impact_candidate, impact_candidates, impact_governance_instance, governance_of,
  impact_governance_instances, contract_revalidation_instance, needs_revalidation,
  contract_revalidation_instances, explicit_instance, explicit_contract_verification_instances,
}
use agentic_development_fram.Kernel.Selection.{
  new_instance, resolve_binding, resolve_subject, is_activated, join_key, merge_instance,
  select_rule, select_rules, select_candidates, instantiate,
}
use agentic_development_fram.Kernel.Actions.{
  dependency_satisfied, dependencies_satisfied, resolves_request, cites_decision,
  resolving_decisions, decision_is_recorded, open_request, result_request, pending_decision_request,
  answers_request, has_fresh_human_answer, role_rank, execution_guidance, action_body, action_id,
  make_action, batch_le, first_of, batch, batch_action_name, batch_action,
}
use agentic_development_fram.Kernel.Collect.{
  unreviewed_candidates, denied_candidates, is_refuted, applicability_review, confirmed_candidates,
  is_retained, add_explicit, add_contract_instances, collect_instances, is_settled, set_status,
}
use agentic_development_fram.Kernel.Steps.{
  ready_instances, review_step, request_decision, request_step, governance_step, applicability_step,
  phase_step, before_build_step, build_step, before_merge_step, decide,
}
use agentic_development_fram.Kernel.Evaluate.{impact_decision, gap_diagnostic, evaluate_with_health}
use agentic_development_fram.Tests.Data.{test_crates, test_signals, test_index, always_rule}
use agentic_development_fram.Tests.Snapshots.{
  no_detection, started, analysed, built, tested, asking, unsatisfied_analysis, unsatisfied_tests,
  reviewed, write_candidate,
}
use agentic_development_fram.Kernel.Requests.{IsReviewed}
use agentic_development_fram.Tests.Snapshots.{one_candidate, denied}

-- The kernel on a snapshot of the project, with nothing detected.
unfoldable pub run_kernel : ProjectSnapshot → KernelDecision
unfolding write_number join_items write_entries canonical_json canonical_digest expect_digest
    write_canonical effective_clause_applies_to evidence_mode_of effective_clause_evidence_mode
    clause_matches_subjects names_clause matches_whole contract_matches_subjects repository_phase
    ref_is_fresh refs_are_fresh outcome_is_fresh result_is_fresh is_result_of concludes_impact
    fresh_impact_assessment impact_assessment_pending current_impact_assessments fresh_build_results
    reviews saw_current is_usable review_compare later_max max_review current_candidate_review
    disposition_of add_disposition candidate_dispositions disposition_evidence_is_current
    signal_applicability_review_instance reviews_instance signal_applicability_review_outcome
    required insert_clause add_clause add_contract matching_contract_clauses is_sha256_digest
    has_reproducible_evidence_artifact output_evidence evidence_matches_inputs is_current_evidence
    covered_by outcome_has_current_evidence has_assurance reports_satisfied satisfies is_satisfied
    baseline_satisfies build_baseline_satisfies impact_candidate impact_candidates
    impact_governance_instance governance_of impact_governance_instances
    contract_revalidation_instance needs_revalidation contract_revalidation_instances
    explicit_instance explicit_contract_verification_instances new_instance resolve_binding
    resolve_subject is_activated join_key merge_instance select_rule select_rules select_candidates
    instantiate dependency_satisfied dependencies_satisfied resolves_request cites_decision
    resolving_decisions decision_is_recorded open_request result_request pending_decision_request
    answers_request has_fresh_human_answer role_rank execution_guidance action_body action_id
    make_action batch_le first_of batch batch_action_name batch_action unreviewed_candidates
    denied_candidates is_refuted applicability_review confirmed_candidates is_retained add_explicit
    add_contract_instances collect_instances is_settled set_status ready_instances review_step
    request_decision request_step governance_step applicability_step phase_step before_build_step
    build_step before_merge_step decide impact_decision gap_diagnostic evaluate_with_health get
    index string_field field_is nested_string nested_array string_array_set array_contains
    string_map Map.get insert insert_sorted sort_by sort dedup decimal is_sha256_hex
    signal_definition
run_kernel snapshot =
    evaluate_with_health test_crates test_signals snapshot test_index no_detection none

-- The Change goes from state to state as its results are recorded.
started_run : (run_kernel started).state ≡ "needs-analysis"
unfolding run_kernel
started_run = refl

pub analysed_run : (run_kernel analysed).state ≡ "ready-to-build"
unfolding run_kernel
analysed_run = refl

pub built_run : (run_kernel built).state ≡ "needs-evidence"
unfolding run_kernel
built_run = refl

pub tested_run : (run_kernel tested).state ≡ "ready-to-merge"
unfolding run_kernel
tested_run = refl

asking_run : (run_kernel asking).state ≡ "needs-human-decision"
unfolding run_kernel
asking_run = refl

-- The instances of the Change, before a result is recorded.
pub collected_run :
    collect_instances test_crates test_signals started test_index no_detection none
    ≡ ok (unsatisfied_analysis ∷ unsatisfied_tests ∷ [])
unfolding run_kernel
collected_run = refl

pub instantiated_run :
    instantiate started test_index [] ≡ ok (unsatisfied_analysis ∷ unsatisfied_tests ∷ [])
unfolding run_kernel
instantiated_run = refl

pub active_run : is_activated started none (always_rule "rule.tests" "tests-recorded") ≡ true
unfolding run_kernel
active_run = refl

-- The request is pending, after all that stands in front of it.
pub asking_pending : pending_decision_request asking ≡ some "request.one"
unfolding run_kernel
asking_pending = refl

pub asking-IsReviewed : IsReviewed test_crates test_signals asking test_index no_detection none
unfolding run_kernel
asking-IsReviewed = record {
  assessed = refl;
  covered = refl;
  reviewed = refl;
  instances = unsatisfied_analysis ∷ unsatisfied_tests ∷ [];
  collected = refl;
}

-- A review that confirms a candidate is in force over one that denies it.
reviewed_run :
    (elim (current_candidate_review reviewed write_candidate) [
      | none ↦ false
      | some review ↦ field_is review.1 "status" "confirmed"
    ])
    ≡ true
unfolding run_kernel
reviewed_run = refl

-- The candidate is confirmed, and its evidence may change; a denial is reopened then.
confirmed_run : unreviewed_candidates reviewed one_candidate ≡ []
unfolding run_kernel
confirmed_run = refl

denied_run : unreviewed_candidates denied one_candidate ≡ []
unfolding run_kernel
denied_run = refl

reopened_run :
    unreviewed_candidates
      (record denied { artifact_digests = ("file.main", "sha256:other") ∷ [] })
      one_candidate
    ≡ write_candidate ∷ []
unfolding run_kernel
reopened_run = refl
