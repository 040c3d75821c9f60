-- ===== src/Kernel/Issued.antt =====
-- When the kernel issues an action (`evaluate_with_health` of src/kernel.rs).
use agentic_development_fram.Base.{
  String, Bool, true, false, not, ◌≡◌, refl, Option, none, some, List, [], ◌∷◌, ◌&&◌, ◌==◌, any,
  filter, is_some, or_else, unwrap_or, Bool-cases, List-cases, Option-cases, Result-cases, inl, inr,
  if◌then◌else◌,
}
use agentic_development_fram.Json.Canonical.{Crates}
use agentic_development_fram.Contracts.Health.{ContractHealthReport}
use agentic_development_fram.Contracts.Scope.{member}
use agentic_development_fram.Detection.Types.{
  SignalCandidate, DetectionReport, SignalCatalogRegistry,
}
use agentic_development_fram.Rules.Types.{RuleIndex}
use agentic_development_fram.Kernel.Types.{ProjectSnapshot, RequirementInstance, KernelDecision}
use agentic_development_fram.Kernel.Freshness.{impact_assessment_pending}
use agentic_development_fram.Kernel.Candidates.{signal_applicability_review_requirement}
use agentic_development_fram.Kernel.Instances.{impact_governance_requirement}
use agentic_development_fram.Kernel.Actions.{
  pending_decision_request, has_fresh_human_answer, decision_is_recorded,
}
use agentic_development_fram.Kernel.Collect.{is_post_build, collect_instances}
use agentic_development_fram.Kernel.Steps.{
  ready_instances, in_phase, is_pending, review_step, request_decision, request_step,
  governance_step, applicability_step, phase_step, before_build_step, build_step, before_merge_step,
  decide,
}
use agentic_development_fram.Kernel.Evaluate.{evaluate_with_health, impact_decision}

-- The states in which nobody has work that the kernel could name.
abbrev pub idle_states : List String
idle_states = "blocked-detection" ∷ "invalid" ∷ "ready-to-merge" ∷ []

abbrev IsIssued : KernelDecision → Type 0
IsIssued d = is_some d.action ≡ not (member d.state idle_states)

abbrev Issues : Option KernelDecision → Type 0
Issues none = Unit
Issues (some d) = IsIssued d

Issues-or_else : (o p : Option KernelDecision) → Issues o → Issues p → Issues (or_else o p)
Issues-or_else none p h k = k
Issues-or_else (some d) p h k = h

Issues-unwrap :
    (o : Option KernelDecision) (d : KernelDecision)
    → Issues o
    → IsIssued d
    → IsIssued (unwrap_or o d)
Issues-unwrap none d h k = k
Issues-unwrap (some e) d h k = h

-- A state that is chosen from two that are not idle is not idle.
busy_if :
    (b : Bool) (s t : String)
    → member s idle_states ≡ false
    → member t idle_states ≡ false
    → member (if b then s else t) idle_states ≡ false
busy_if true s t h k = h
busy_if false s t h k = k

busy_work : (b : Bool) → b ≡ false → true ≡ not b
busy_work b h = rw h refl

module _ (crates : Crates) (snapshot : ProjectSnapshot) (instances : List RequirementInstance) where
  review_step-Issues :
      (cs : List SignalCandidate) → Issues (review_step crates snapshot instances cs)
  unfolding review_step
  review_step-Issues [] = tt
  review_step-Issues (c ∷ cs) = busy_work _ (busy_if (is_post_build snapshot) _ _ refl refl)

  request_decision-Issues : (r : String) → Issues (request_decision crates snapshot instances r)
  unfolding request_decision
  request_decision-Issues r = elim (Bool-cases (has_fresh_human_answer snapshot r)) [
    | inr unanswered ↦ rw unanswered refl
    | inl answered ↦ elim (Bool-cases (decision_is_recorded snapshot r)) [
      | inl done ↦ rw (answered, done) tt
      | inr open_still ↦ rw (answered, open_still) refl
    ]
  ]

  request_step-Issues : Issues (request_step crates snapshot instances)
  unfolding request_step
  request_step-Issues = elim (Option-cases (pending_decision_request snapshot)) [
    | inl e ↦ rw (e, request_step) tt
    | inr (r, e) ↦ rw (e, request_step) (request_decision-Issues r)
  ]

  governance_step-Issues : Issues (governance_step crates snapshot instances)
  unfolding governance_step
  governance_step-Issues =
      elim (List-cases (filter (is_pending impact_governance_requirement) instances)) [
        | inl e ↦ rw (e, governance_step) tt
        | inr (i, is, e) ↦
            rw (e, governance_step) (busy_work _ (busy_if (is_post_build snapshot) _ _ refl refl))
      ]

  applicability_step-Issues : Issues (applicability_step crates snapshot instances)
  unfolding applicability_step
  applicability_step-Issues =
      elim (List-cases (filter (is_pending signal_applicability_review_requirement) instances)) [
        | inl e ↦ rw (e, applicability_step) tt
        | inr (i, is, e) ↦ rw (e, applicability_step) refl
      ]

  phase_step-Issues :
      (phase : String) (state_for : String → String) (diagnostic : String)
      → ((role : String) → member (state_for role) idle_states ≡ false)
      → Issues (phase_step crates snapshot instances phase state_for diagnostic)
  unfolding phase_step
  phase_step-Issues phase state_for diagnostic h =
      elim (List-cases (ready_instances phase instances)) [
        | inr (i, is, e) ↦ rw (e, phase_step) (busy_work _ (h _))
        | inl e ↦ elim (Bool-cases (any (in_phase phase) instances)) [
          | inl left ↦ rw (e, phase_step) (rw left refl)
          | inr none_left ↦ rw (e, phase_step) (rw none_left tt)
        ]
      ]

  before_build_step-Issues : Issues (before_build_step crates snapshot instances)
  unfolding before_build_step
  before_build_step-Issues = phase_step-Issues _ _ _ (λ role.
      busy_if (is_post_build snapshot && not (role == "Challenger")) _ _ refl
        (busy_if (role == "Challenger") _ _ refl refl))

  build_step-Issues : Issues (build_step crates snapshot instances)
  unfolding build_step
  build_step-Issues = elim (Bool-cases (is_post_build snapshot)) [
    | inl p ↦ rw p tt
    | inr p ↦ rw p refl
  ]

  before_merge_step-Issues : Issues (before_merge_step crates snapshot instances)
  unfolding before_merge_step
  before_merge_step-Issues =
      phase_step-Issues _ _ _ (λ role.
        busy_if (role == "Builder") _ _ refl (busy_if (role == "Challenger") _ _ refl refl))

  decide-IsIssued : (cs : List SignalCandidate) → IsIssued (decide crates snapshot instances cs)
  unfolding decide
  decide-IsIssued cs =
      Issues-unwrap _ _
        (Issues-or_else (review_step crates snapshot instances cs) _ (review_step-Issues cs) (
          Issues-or_else (request_step crates snapshot instances) _ request_step-Issues (
            Issues-or_else (governance_step crates snapshot instances) _ governance_step-Issues (
              Issues-or_else (applicability_step crates snapshot instances) _
                applicability_step-Issues
                (Issues-or_else (before_build_step crates snapshot instances) _
                  before_build_step-Issues
                  (Issues-or_else (build_step crates snapshot instances) _ build_step-Issues
                    before_merge_step-Issues))))))
        refl

-- The kernel issues an action exactly in the states other than `blocked-detection`, `invalid` and
-- `ready-to-merge`.
pub evaluate-issued :
    (crates : Crates) (registry : SignalCatalogRegistry) (snapshot : ProjectSnapshot)
    (index : RuleIndex) (detection : DetectionReport) (health : Option ContractHealthReport)
    → is_some (evaluate_with_health crates registry snapshot index detection health).action
      ≡ not (
          member
            (evaluate_with_health crates registry snapshot index detection health).state
            idle_states)
unfolding evaluate_with_health impact_decision
evaluate-issued crates registry snapshot index detection health =
    elim (Bool-cases (impact_assessment_pending snapshot)) [
      | inl p ↦ rw p (busy_work _ (busy_if (is_post_build snapshot) _ _ refl refl))
      | inr p ↦ elim (Bool-cases (detection.coverage.status == "complete")) [
        | inr q ↦ rw (p, q) refl
        | inl q ↦
            elim (Result-cases
              (collect_instances crates registry snapshot index detection health)) [
                | inl (is, r) ↦ rw (p, q, r) (decide-IsIssued crates snapshot _ _)
                | inr (x, r) ↦ rw (p, q, r) refl
              ]
      ]
    ]
