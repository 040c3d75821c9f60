-- ===== src/Kernel/Steps.antt =====
-- The early returns of the second half of `evaluate_with_health` in src/kernel.rs, a function for
-- each: `none` goes on to the next.
use agentic_development_fram.Base.{
  String, Bool, not, ◌&&◌, Option, none, some, List, [], ◌∷◌, map, any, filter, length, decimal,
  ◌==◌, ◌<>◌, or_else, unwrap_or, if◌then◌else◌,
}
use agentic_development_fram.Json.Canonical.{Crates}
use agentic_development_fram.Detection.Types.{SignalCandidate}
use agentic_development_fram.Kernel.Types.{
  ProjectSnapshot, RequirementInstance, NextAction, KernelDecision, decision,
}
use agentic_development_fram.Kernel.Candidates.{signal_applicability_review_requirement}
use agentic_development_fram.Kernel.Instances.{impact_governance_requirement}
use agentic_development_fram.Kernel.Actions.{
  is_unsatisfied, dependencies_satisfied, pending_decision_request, has_fresh_human_answer,
  decision_is_recorded, make_action, batch_action,
}
use agentic_development_fram.Kernel.Collect.{is_post_build}

abbrev pub before_build : String
before_build = "before-build"

abbrev pub before_merge : String
before_merge = "before-merge"

abbrev pub in_phase : String → RequirementInstance → Bool
in_phase phase instance = instance.phase == phase && is_unsatisfied instance

-- The unsatisfied instances of a phase whose dependencies are satisfied.
unfoldable pub ready_instances : String → List RequirementInstance → List RequirementInstance
ready_instances phase instances =
    filter (λ instance. in_phase phase instance && dependencies_satisfied instance instances)
      instances

abbrev pub analysis_state : ProjectSnapshot → String
analysis_state snapshot =
    if is_post_build snapshot then "needs-post-build-analysis" else "needs-analysis"

-- The Analyst's instances that a recorded Decision is for.
abbrev pub is_analyst_target : RequirementInstance → Bool
is_analyst_target i = is_unsatisfied i && i.role == "Analyst" && i.phase == before_build

abbrev pub is_pending : String → RequirementInstance → Bool
is_pending requirement i = i.requirement_id == requirement && is_unsatisfied i

abbrev pub before_build_state : ProjectSnapshot → String → String
before_build_state snapshot role =
    if is_post_build snapshot && not (role == "Challenger")
    then "needs-post-build-analysis"
    else if role == "Challenger"
    then "needs-pre-build-challenge"
    else "needs-analysis"

abbrev pub before_merge_state : String → String
before_merge_state role =
    if role == "Builder"
    then "needs-evidence"
    else if role == "Challenger"
    then "needs-post-build-challenge"
    else "needs-post-build-analysis"

module _ (crates : Crates) (snapshot : ProjectSnapshot) (instances : List RequirementInstance) where
  unfoldable pub review_step : List SignalCandidate → Option KernelDecision
  review_step [] = none
  review_step (c ∷ cs) = some (
      decision (analysis_state snapshot)
        (some (
          make_action crates snapshot "Analyst" "review-risk-signals"
            (filter (λ (i : RequirementInstance). i.requirement_id == "risk-signals-reviewed")
              instances)
            (decimal (length (c ∷ cs)) <> "件の新しいSignal候補を確認してください") "result.risk-signal-review" ""
            (map (λ (candidate : SignalCandidate). candidate.fingerprint) (c ∷ cs))))
        instances [])

  unfoldable pub request_decision : String → Option KernelDecision
  request_decision request_id =
      if not (has_fresh_human_answer snapshot request_id)
      then some (
          decision "needs-human-decision"
            (some (
              make_action crates snapshot "Human" "answer-decision-request" []
                ("判断依頼 " <> request_id <> " への回答が必要です") "result.human-answer" request_id []))
            instances [])
      else if not (decision_is_recorded snapshot request_id)
      then some (
          decision "needs-decision-recording"
            (some (
              make_action crates snapshot "Analyst" "record-human-decision"
                (filter is_analyst_target instances)
                ("回答済みの判断 " <> request_id <> " をDecisionとContractへ反映してください") "result.analysis"
                request_id []))
            instances [])
      else none

  unfoldable pub request_step : Option KernelDecision
  request_step = elim (pending_decision_request snapshot) [
    | none ↦ none
    | some request_id ↦ request_decision request_id
  ]

  unfoldable pub governance_step : Option KernelDecision
  governance_step = elim (filter (is_pending impact_governance_requirement) instances) [
    | [] ↦ none
    | i ∷ is ↦ some (
        decision (analysis_state snapshot)
          (some (
            make_action crates snapshot "Analyst" "establish-impact-governance" (i ∷ is)
              "Establish only the Decisions and Contracts needed for the assessed impacts."
              "result.analysis" "" []))
          instances [])
  ]

  unfoldable pub applicability_step : Option KernelDecision
  applicability_step =
      elim (filter (is_pending signal_applicability_review_requirement) instances) [
        | [] ↦ none
        | i ∷ is ↦ some (
            decision "needs-pre-build-challenge" (some (batch_action crates snapshot i is))
              instances [])
      ]

  -- A batch where there is one; else `invalid` where an instance of the phase is left.
  unfoldable pub phase_step : String → (String → String) → String → Option KernelDecision
  phase_step phase state_for diagnostic = elim (ready_instances phase instances) [
    | i ∷ is ↦
        let action = batch_action crates snapshot i is in
        some (decision (state_for action.role) (some action) instances [])
    | [] ↦
        if any (in_phase phase) instances
        then some (decision "invalid" none instances (diagnostic ∷ []))
        else none
  ]

  unfoldable pub before_build_step : Option KernelDecision
  before_build_step =
      phase_step before_build (before_build_state snapshot) "before-build Requirementの依存関係を解決できません"

  abbrev pub build_action : NextAction
  build_action =
      make_action crates snapshot "Builder" "implement-change" [] "実装前に必要なRequirementを満たしました"
        "result.build" "" []

  unfoldable pub build_step : Option KernelDecision
  build_step =
      if not (is_post_build snapshot)
      then some (decision "ready-to-build" (some build_action) instances [])
      else none

  unfoldable pub before_merge_step : Option KernelDecision
  before_merge_step =
      phase_step before_merge before_merge_state "before-merge Requirementの依存関係を解決できません"

  unfoldable pub decide : List SignalCandidate → KernelDecision
  decide unreviewed =
      unwrap_or
        (or_else (review_step unreviewed) (
          or_else request_step (
            or_else governance_step (
              or_else applicability_step
                (or_else before_build_step (or_else build_step before_merge_step))))))
        (decision "ready-to-merge" none instances [])
