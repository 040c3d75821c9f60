-- ===== src/Kernel/Collect.antt =====
-- The Requirement Instances of a Change and their status: the first half of `evaluate_with_health`
-- in src/kernel.rs.
use agentic_development_fram.Base.{
  String, Bool, true, not, ◌&&◌, ◌||◌, Option, none, some, List, [], ◌∷◌, ◌++◌, map, filter,
  is_empty, ◌==◌, is_some, is_some_and, Result, ok, err, ◌>>=◌, map_err, if◌then◌else◌,
}
use mathlib.Core.List.{foldl}
use agentic_development_fram.Base.Order.{sort_by, text_le, sort, dedup}
use agentic_development_fram.Base.Map
use agentic_development_fram.Base.Map.{Map}
use agentic_development_fram.Json.Value.{nested_array}
use agentic_development_fram.Json.Canonical.{Crates}
use agentic_development_fram.Contracts.Health.{ContractHealthReport}
use agentic_development_fram.Detection.Types.{
  SignalCandidate, DetectionReport, SignalCatalogRegistry,
}
use agentic_development_fram.Rules.Types.{RuleIndex, attestation, evidence_backed}
use agentic_development_fram.Kernel.Types.{
  ProjectSnapshot, CandidateDisposition, RequirementInstance,
}
use agentic_development_fram.Kernel.Freshness.{
  repository_phase, fresh_impact_assessment, fresh_build_results,
}
use agentic_development_fram.Kernel.Candidates.{
  candidate_dispositions, disposition_evidence_is_current, signal_applicability_review_instance,
  signal_applicability_review_outcome, signal_applicability_review_requirement,
}
use agentic_development_fram.Kernel.Evidence.{
  matching_contract_clauses, required, is_satisfied, build_baseline_satisfies,
}
use agentic_development_fram.Kernel.Instances.{
  impact_candidates, impact_governance_instances, contract_revalidation_instances,
  explicit_contract_verification_instances,
}
use agentic_development_fram.Kernel.Selection.{instantiate}

abbrev pub is_post_build : ProjectSnapshot → Bool
is_post_build snapshot = repository_phase snapshot == "post-build"

-- The dispositions of the candidates, as tests.
abbrev pub is_confirmed : Map CandidateDisposition → SignalCandidate → Bool
is_confirmed dispositions candidate =
    is_some_and (Map.get candidate.fingerprint dispositions)
      (λ (d : CandidateDisposition). d.status == "confirmed")

abbrev pub is_denied : ProjectSnapshot → Map CandidateDisposition → SignalCandidate → Bool
is_denied snapshot dispositions candidate =
    is_some_and (Map.get candidate.fingerprint dispositions) (λ (d : CandidateDisposition).
      d.status == "not-applicable" && disposition_evidence_is_current candidate d snapshot)

unfoldable pub unreviewed_candidates : ProjectSnapshot → DetectionReport → List SignalCandidate
unreviewed_candidates snapshot detection =
    let dispositions = candidate_dispositions snapshot detection in
    filter
      (λ candidate.
        not (is_confirmed dispositions candidate || is_denied snapshot dispositions candidate))
      detection.candidates

unfoldable pub denied_candidates : ProjectSnapshot → DetectionReport → List SignalCandidate
denied_candidates snapshot detection =
    filter (is_denied snapshot (candidate_dispositions snapshot detection)) detection.candidates

-- A denied candidate whose independent review ended with another outcome than `satisfied`.
unfoldable pub is_refuted : Crates → ProjectSnapshot → SignalCandidate → Bool
is_refuted crates snapshot candidate =
    is_some_and
      (signal_applicability_review_outcome (signal_applicability_review_instance crates candidate)
        snapshot)
      (λ status. not (status == "satisfied"))

unfoldable pub applicability_review :
    Crates → ProjectSnapshot → SignalCandidate → RequirementInstance
applicability_review crates snapshot candidate =
    let instance = signal_applicability_review_instance crates candidate in
    if is_some (signal_applicability_review_outcome instance snapshot)
      || (is_post_build snapshot
          && build_baseline_satisfies instance (fresh_build_results snapshot) snapshot)
    then record instance { status = "satisfied" }
    else instance

abbrev pub declared_candidates :
    Crates → SignalCatalogRegistry → ProjectSnapshot → List SignalCandidate
declared_candidates crates registry snapshot = elim (fresh_impact_assessment snapshot) [
  | none ↦ []
  | some assessment ↦ impact_candidates crates registry assessment snapshot
]

-- `confirmed`, with the candidates that the reviews push behind the others.
unfoldable pub confirmed_candidates :
    Crates → SignalCatalogRegistry → ProjectSnapshot → DetectionReport → List SignalCandidate
confirmed_candidates crates registry snapshot detection =
    declared_candidates crates registry snapshot
    ++ (filter (is_confirmed (candidate_dispositions snapshot detection)) detection.candidates
        ++ filter (is_refuted crates snapshot) (denied_candidates snapshot detection))

-- `instances.retain(…)`: an evidence-backed instance whose clauses are all for review is dropped.
unfoldable pub is_retained : ProjectSnapshot → RequirementInstance → Bool
is_retained snapshot instance = elim instance.assurance [
  | attestation ↦ true
  | evidence_backed ↦
      let clauses = matching_contract_clauses instance snapshot in
      not clauses.has_matching_clauses || not (is_empty (required clauses))
]

-- The body of the loop over the explicit instances: `iter_mut().find(…)` and its two arms.
unfoldable pub add_explicit :
    List RequirementInstance → RequirementInstance → List RequirementInstance
add_explicit [] explicit = explicit ∷ []
add_explicit (existing ∷ rest) explicit =
    let added = add_explicit rest explicit in
    if existing.instance_key == explicit.instance_key
    then record existing {
      selected_by = dedup (sort (existing.selected_by ++ explicit.selected_by));
    }
      ∷ rest
    else existing ∷ added

-- The Contract health, where there is a report; an error keeps the instances made so far.
unfoldable pub add_contract_instances :
    Crates
    → ProjectSnapshot
    → Option ContractHealthReport
    → List RequirementInstance
    → Result (List RequirementInstance × String) (List RequirementInstance)
add_contract_instances crates snapshot none instances =
    if is_empty (nested_array snapshot.change ("verification_scope" ∷ []))
    then ok instances
    else err (instances, "verification_scope requires Contract health evaluation")
add_contract_instances crates snapshot (some health) instances =
    let extended = instances ++ contract_revalidation_instances crates health instances in
    map_err (λ e. (extended, e))
      (explicit_contract_verification_instances crates health snapshot.change)
    >>= λ explicit. ok (foldl add_explicit extended explicit)

abbrev pub instance_le : RequirementInstance → RequirementInstance → Bool
instance_le a b = text_le a.instance_key b.instance_key

-- The instances of the Change, in the order of their keys, before their status is set.
unfoldable pub collect_instances :
    Crates
    → SignalCatalogRegistry
    → ProjectSnapshot
    → RuleIndex
    → DetectionReport
    → Option ContractHealthReport
    → Result (List RequirementInstance × String) (List RequirementInstance)
collect_instances crates registry snapshot index detection health =
    map_err (λ e. ([], e))
      (instantiate snapshot index (confirmed_candidates crates registry snapshot detection))
    >>= λ instances.
        add_contract_instances crates snapshot health (
          filter (is_retained snapshot) instances
          ++ (elim (fresh_impact_assessment snapshot) [
            | none ↦ []
            | some assessment ↦ impact_governance_instances crates assessment
          ]
              ++ map (applicability_review crates snapshot) (denied_candidates snapshot detection)))
        >>= λ all_instances. ok (sort_by instance_le all_instances)

-- The test that sets the status of an instance. `reviewed` says that no candidate is unreviewed.
unfoldable pub is_settled : ProjectSnapshot → Bool → RequirementInstance → Bool
is_settled snapshot reviewed instance =
    (instance.requirement_id == "risk-signals-reviewed" && reviewed)
    || is_satisfied instance snapshot
    || (is_post_build snapshot
        && instance.phase == "before-build"
        && build_baseline_satisfies instance (fresh_build_results snapshot) snapshot)

unfoldable pub set_status : ProjectSnapshot → Bool → RequirementInstance → RequirementInstance
set_status snapshot reviewed instance =
    if instance.requirement_id == signal_applicability_review_requirement
    then instance
    else record instance {
      status = if is_settled snapshot reviewed instance then "satisfied" else "unsatisfied";
    }
