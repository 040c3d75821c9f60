-- ===== src/Kernel/Prepared.antt =====
-- What the evaluation has found when it comes to the build (`evaluate_with_health` of
-- src/kernel.rs).
use agentic_development_fram.Base.{
  String, true, false, ◌≡◌, refl, ◌∙◌, sym, ap, Option, none, List, [], ◌==◌, any, map, is_empty,
  unwrap_or, or_else, Bool-cases, inl, inr, ne_of_==, Result-cases, eq_of_==,
}
use agentic_development_fram.Json.Canonical.{Crates}
use agentic_development_fram.Contracts.Health.{ContractHealthReport}
use agentic_development_fram.Detection.Types.{
  SignalCandidate, DetectionReport, SignalCatalogRegistry,
}
use agentic_development_fram.Rules.Types.{RuleIndex}
use agentic_development_fram.Kernel.Types.{
  ProjectSnapshot, RequirementInstance, KernelDecision, decision,
}
use agentic_development_fram.Kernel.Freshness.{impact_assessment_pending}
use agentic_development_fram.Kernel.Actions.{pending_decision_request}
use agentic_development_fram.Kernel.Collect.{
  is_post_build, unreviewed_candidates, collect_instances, set_status,
}
use agentic_development_fram.Kernel.Steps.{
  review_step, request_step, governance_step, applicability_step, before_build_step, build_step,
  before_merge_step, decide, in_phase,
}
use agentic_development_fram.Kernel.Evaluate.{evaluate_with_health, impact_decision}
use agentic_development_fram.Kernel.Settled.{IsSettledPhase, settled_phase}
use agentic_development_fram.Kernel.Returns.{
  IsLaterState, passed, if_state, review_step-Avoids, request_step-Avoids, governance_step-Avoids,
  applicability_step-Avoids, before_build_step-Avoids,
}
use agentic_development_fram.Kernel.Passed.{review_step-none, request_step-none, phase_step-none}

-- What the steps in front of the build have found when they all pass.
record IsPrepared (snapshot : ProjectSnapshot) (instances : List RequirementInstance)
    (unreviewed : List SignalCandidate) : Type 0 where
  pub reviewed : unreviewed ≡ []
  pub answered : pending_decision_request snapshot ≡ none
  pub before_build_done : any (in_phase "before-build") instances ≡ false

-- The last three returns of the evaluation.
abbrev pub finish : Crates → ProjectSnapshot → List RequirementInstance → KernelDecision
finish crates snapshot instances =
    unwrap_or
      (or_else (build_step crates snapshot instances) (before_merge_step crates snapshot instances))
      (decision "ready-to-merge" none instances [])

module _ {s : String} (later : IsLaterState s) (crates : Crates) (snapshot : ProjectSnapshot)
    (instances : List RequirementInstance) (unreviewed : List SignalCandidate) where
  decide-IsPrepared :
      (decide crates snapshot instances unreviewed).state ≡ s
      → IsPrepared snapshot instances unreviewed
        × (decide crates snapshot instances unreviewed ≡ finish crates snapshot instances)
  unfolding decide before_build_step
  decide-IsPrepared e =
      let (a₁, p₁, e₁) =
        passed (review_step crates snapshot instances unreviewed) _ _
          (review_step-Avoids later.steps crates snapshot instances unreviewed) e in
      let (a₂, p₂, e₂) =
        passed (request_step crates snapshot instances) _ _
          (request_step-Avoids later.steps crates snapshot instances) e₁ in
      let (a₃, p₃, e₃) =
        passed (governance_step crates snapshot instances) _ _
          (governance_step-Avoids later.steps crates snapshot instances) e₂ in
      let (a₄, p₄, e₄) =
        passed (applicability_step crates snapshot instances) _ _
          (applicability_step-Avoids later.steps crates snapshot instances) e₃ in
      let (a₅, p₅, e₅) =
        passed (before_build_step crates snapshot instances) _ _
          (before_build_step-Avoids later crates snapshot instances) e₄ in
      (
        record {
          reviewed = review_step-none crates snapshot instances unreviewed a₁;
          answered = request_step-none crates snapshot instances a₂;
          before_build_done = phase_step-none crates snapshot instances _ _ _ a₅;
        },
        p₁ ∙ (p₂ ∙ (p₃ ∙ (p₄ ∙ p₅))),
      )

-- What must hold of the project, the detection and the verdict before work goes on.
pub record IsCleared (snapshot : ProjectSnapshot) (detection : DetectionReport) (d : KernelDecision)
    : Type 0 where
  pub assessed : impact_assessment_pending snapshot ≡ false
  pub covered : detection.coverage.status ≡ "complete"
  pub reviewed : unreviewed_candidates snapshot detection ≡ []
  pub answered : pending_decision_request snapshot ≡ none
  pub before_build : IsSettledPhase snapshot "before-build" d.requirement_instances

-- The instances that `decide` is given, after `collect_instances` made `collected`.
abbrev with_status :
    ProjectSnapshot → DetectionReport → List RequirementInstance → List RequirementInstance
with_status snapshot detection collected =
    map (set_status snapshot (is_empty (unreviewed_candidates snapshot detection))) collected

module _ (crates : Crates) (registry : SignalCatalogRegistry) (snapshot : ProjectSnapshot)
    (index : RuleIndex) (detection : DetectionReport) (health : Option ContractHealthReport) where
  abbrev pub verdict : KernelDecision
  verdict = evaluate_with_health crates registry snapshot index detection health

  -- A ready state comes from the steps: the assessment, the coverage and the collection went well.
  evaluate-decide :
      {s : String} (later : IsLaterState s)
      → verdict.state ≡ s
      → (impact_assessment_pending snapshot ≡ false)
        × ((detection.coverage.status == "complete") ≡ true)
        × ((collected : List RequirementInstance) × (verdict
              ≡ decide crates snapshot
                  (with_status snapshot detection collected)
                  (unreviewed_candidates snapshot detection)))
  unfolding evaluate_with_health impact_decision
  evaluate-decide {s} later e = elim (Bool-cases (impact_assessment_pending snapshot)) [
    | inl p ↦ absurd (
        ne_of_== _ s (if_state s (is_post_build snapshot) _ _ later.post_impact later.impact)
          (rw p at e))
    | inr p ↦ elim (Bool-cases (detection.coverage.status == "complete")) [
      | inr q ↦ absurd (ne_of_== "blocked-detection" s later.blocked (rw (p, q) at e))
      | inl q ↦
          elim (Result-cases (collect_instances crates registry snapshot index detection health)) [
            | inl (is, r) ↦ (p, q, (is, rw (p, q, r) refl))
            | inr (x, r) ↦ absurd (ne_of_== "invalid" s later.invalid (rw (p, q, r) at e))
          ]
    ]
  ]

  -- The verdict in a ready state is cleared, and is what the last three returns make of it.
  pub evaluate-finish :
      {s : String} (later : IsLaterState s)
      → verdict.state ≡ s
      → (collected : List RequirementInstance) × (verdict
          ≡ finish crates snapshot (map (set_status snapshot true) collected))
        × (impact_assessment_pending snapshot ≡ false)
        × ((detection.coverage.status == "complete") ≡ true)
        × (unreviewed_candidates snapshot detection ≡ [])
        × (pending_decision_request snapshot ≡ none)
        × (any (in_phase "before-build") (map (set_status snapshot true) collected) ≡ false)
  evaluate-finish later e =
      let (p, q, (is, v)) = evaluate-decide later e in
      let (prepared, f) =
        decide-IsPrepared later crates snapshot (with_status snapshot detection is)
          (unreviewed_candidates snapshot detection)
          (ap (λ (d : KernelDecision). d.state) (sym v) ∙ e) in
      let statuses : with_status snapshot detection is ≡ map (set_status snapshot true) is =
        rw prepared.reviewed in
      (
        is,
        v ∙ (f ∙ rw statuses),
        p,
        q,
        prepared.reviewed,
        prepared.answered,
        rw statuses at prepared.before_build_done,
      )

  pub finish-IsCleared :
      {d : KernelDecision} (collected : List RequirementInstance)
      → d.requirement_instances ≡ map (set_status snapshot true) collected
      → impact_assessment_pending snapshot ≡ false
      → (detection.coverage.status == "complete") ≡ true
      → unreviewed_candidates snapshot detection ≡ []
      → pending_decision_request snapshot ≡ none
      → any (in_phase "before-build") (map (set_status snapshot true) collected) ≡ false
      → IsCleared snapshot detection d
  finish-IsCleared collected e p q u r b = record {
    assessed = p;
    covered = eq_of_== _ _ q;
    reviewed = u;
    answered = r;
    before_build = rw e (settled_phase snapshot "before-build" collected b);
  }
