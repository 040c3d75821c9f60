-- ===== src/Kernel/Evaluate.antt =====
-- The evaluation: `ThinKernel::evaluate` and `evaluate_with_health` of src/kernel.rs.
use agentic_development_fram.Base.{
  String, not, Option, none, some, List, [], ◌∷◌, map, is_empty, ◌==◌, ◌<>◌, unwrap_or, ok, err,
  if◌then◌else◌,
}
use agentic_development_fram.Base.Map
use agentic_development_fram.Base.Map.{Map}
use agentic_development_fram.Json.Canonical.{Crates}
use agentic_development_fram.Contracts.Health.{ContractHealthReport}
use agentic_development_fram.Detection.Types.{DetectionReport, SignalCatalogRegistry}
use agentic_development_fram.Rules.Types.{RuleIndex}
use agentic_development_fram.Kernel.Types.{ProjectSnapshot, KernelDecision, decision}
use agentic_development_fram.Kernel.Freshness.{
  impact_assessment_pending, current_impact_assessments,
}
use agentic_development_fram.Kernel.Actions.{make_action}
use agentic_development_fram.Kernel.Collect.{
  is_post_build, unreviewed_candidates, collect_instances, set_status,
}
use agentic_development_fram.Kernel.Steps.{decide}

abbrev pub join_bar : List String → String
join_bar [] = ""
join_bar (s ∷ []) = s
join_bar (s ∷ t ∷ ts) = s <> "|" <> join_bar (t ∷ ts)

-- The Change asks for an impact assessment and has no current one.
unfoldable pub impact_decision : Crates → ProjectSnapshot → KernelDecision
impact_decision crates snapshot =
    let previous = current_impact_assessments snapshot in
    decision
      (if is_post_build snapshot
        then "needs-post-build-impact-assessment"
        else "needs-impact-assessment")
      (some (
        make_action crates snapshot "Analyst" "assess-change-impact" []
          (if is_empty previous
            then "Assess the intended effects before implementation."
            else "Reassess the intended effects because the prior assessment is inconclusive or stale. Reuse its findings where they still apply.")
          "result.impact-assessment" (join_bar previous) []))
      [] []

-- The detectors give each gap a kind and a reason, at whose absence the source panics.
unfoldable pub gap_diagnostic : Map String → String
gap_diagnostic gap =
    "detection coverage incomplete: "
    <> unwrap_or (Map.get "kind" gap) ""
    <> elim (Map.get "ref" gap) [ none ↦ "" | some reference ↦ " (" <> reference <> ")" ]
    <> ": "
    <> unwrap_or (Map.get "reason" gap) ""

-- `evaluate_with_health`. The registry of signals is the built-in one.
unfoldable pub evaluate_with_health :
    Crates
    → SignalCatalogRegistry
    → ProjectSnapshot
    → RuleIndex
    → DetectionReport
    → Option ContractHealthReport
    → KernelDecision
evaluate_with_health crates registry snapshot index detection health =
    if impact_assessment_pending snapshot
    then impact_decision crates snapshot
    else if not (detection.coverage.status == "complete")
    then decision "blocked-detection" none [] (map gap_diagnostic detection.coverage.gaps)
    else (elim (collect_instances crates registry snapshot index detection health) [
      | err (instances, error) ↦ decision "invalid" none instances (error ∷ [])
      | ok instances ↦
          let unreviewed = unreviewed_candidates snapshot detection in
          decide crates snapshot (map (set_status snapshot (is_empty unreviewed)) instances)
            unreviewed
    ])

-- `evaluate`
unfoldable pub evaluate :
    Crates → SignalCatalogRegistry → ProjectSnapshot → RuleIndex → DetectionReport → KernelDecision
evaluate crates registry snapshot index detection =
    evaluate_with_health crates registry snapshot index detection none
