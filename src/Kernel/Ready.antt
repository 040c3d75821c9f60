-- ===== src/Kernel/Ready.antt =====
-- What `ready-to-build` and `ready-to-merge` promise (`evaluate_with_health` of src/kernel.rs).
use agentic_development_fram.Base.{
  true, ◌≡◌, refl, ◌∙◌, sym, ap, ◌≢◌, Option, none, some, [], map, Bool-cases, inl, inr, ne_of_==,
  eq_of_==,
}
use agentic_development_fram.Json.Canonical.{Crates}
use agentic_development_fram.Contracts.Health.{ContractHealthReport}
use agentic_development_fram.Detection.Types.{DetectionReport, SignalCatalogRegistry}
use agentic_development_fram.Rules.Types.{RuleIndex}
use agentic_development_fram.Kernel.Types.{ProjectSnapshot, NextAction, KernelDecision, decision}
use agentic_development_fram.Kernel.Freshness.{repository_phase}
use agentic_development_fram.Kernel.Actions.{make_action}
use agentic_development_fram.Kernel.Collect.{is_post_build, set_status}
use agentic_development_fram.Kernel.Steps.{build_action, build_step, before_merge_step}
use agentic_development_fram.Kernel.Settled.{IsSettledPhase, settled_phase}
use agentic_development_fram.Kernel.Returns.{
  passed, before_merge_step-Avoids, build_step-Avoids, passed_last, merge_is_ready, build_is_ready,
}
use agentic_development_fram.Kernel.Passed.{phase_step-none, build_step-none}
use agentic_development_fram.Kernel.Prepared.{IsCleared, verdict, evaluate-finish, finish-IsCleared}

module _ (crates : Crates) (registry : SignalCatalogRegistry) (snapshot : ProjectSnapshot)
    (index : RuleIndex) (detection : DetectionReport) (health : Option ContractHealthReport) where
  -- If the kernel says `ready-to-merge`, then no impact assessment is pending, the detection is
  -- complete, every candidate is reviewed, no request for a decision is pending, the repository is
  -- past the build, and the kernel issues no action. No Requirement Instance of the decision before
  -- the build or before the merge is unsatisfied, and each, but for the reviews of denied candidates,
  -- has an outcome that satisfies it, or the baseline of the build if it is before the build, or is
  -- the review of the candidates.
  pub ready_to_merge :
      (verdict crates registry snapshot index detection health).state ≡ "ready-to-merge"
      → IsCleared snapshot detection (verdict crates registry snapshot index detection health)
        × (repository_phase snapshot ≡ "post-build")
        × IsSettledPhase snapshot "before-merge"
            (verdict crates registry snapshot index detection health).requirement_instances
        × ((verdict crates registry snapshot index detection health).action ≡ none)
  unfolding before_merge_step
  ready_to_merge e =
      let (is, v, p, q, u, r, b) =
        evaluate-finish crates registry snapshot index detection health merge_is_ready.later e in
      let statuses = map (set_status snapshot true) is in
      let (built, f₁, e₁) =
        passed (build_step crates snapshot statuses) _ _
          (build_step-Avoids "ready-to-merge" crates snapshot statuses refl)
          (ap (λ (d : KernelDecision). d.state) (sym v) ∙ e) in
      let (merged, f₂, e₂) =
        passed_last (before_merge_step crates snapshot statuses) _
          (before_merge_step-Avoids merge_is_ready.later crates snapshot statuses
            merge_is_ready.post_challenge merge_is_ready.evidence)
          e₁ in
      let whole : verdict crates registry snapshot index detection health
          ≡ decision "ready-to-merge" none statuses [] =
        v ∙ (f₁ ∙ f₂) in
      (
        finish-IsCleared crates registry snapshot index detection health is (rw whole) p q u r b,
        eq_of_== _ _ (build_step-none crates snapshot statuses built),
        rw whole (
            settled_phase snapshot "before-merge" is
              (phase_step-none crates snapshot statuses _ _ _ merged)),
        rw whole,
      )

  -- If the kernel says `ready-to-build`, then no impact assessment is pending, the detection is
  -- complete, every candidate is reviewed, no request for a decision is pending, the repository is
  -- not past the build, and the action is for the Builder to implement the Change. No Requirement
  -- Instance of the decision before the build is unsatisfied, and each, but for the reviews of denied
  -- candidates, has an outcome that satisfies it or is the review of the candidates.
  pub ready_to_build :
      (verdict crates registry snapshot index detection health).state ≡ "ready-to-build"
      → IsCleared snapshot detection (verdict crates registry snapshot index detection health)
        × (repository_phase snapshot ≢ "post-build")
        × ((a : NextAction) × ((verdict crates registry snapshot index detection health).action
              ≡ some a)
            × (a.role ≡ "Builder")
            × (a.action ≡ "implement-change"))
  unfolding build_step make_action
  ready_to_build e =
      let (is, v, p, q, u, r, b) =
        evaluate-finish crates registry snapshot index detection health build_is_ready.later e in
      let statuses = map (set_status snapshot true) is in
      elim (Bool-cases (is_post_build snapshot)) [
        | inr f ↦
            let w : verdict crates registry snapshot index detection health
                ≡ decision "ready-to-build" (some (build_action crates snapshot statuses)) statuses
                    [] =
              v ∙ rw f refl in
            (
              finish-IsCleared crates registry snapshot index detection health is (rw w) p q u r b,
              ne_of_== _ _ f,
              (build_action crates snapshot statuses, rw w, refl, refl),
            )
        | inl t ↦
            let passes : build_step crates snapshot statuses ≡ none = rw t in
            absurd (
              ne_of_== "ready-to-merge" "ready-to-build" refl (
                (passed_last (before_merge_step crates snapshot statuses) _
                  (before_merge_step-Avoids build_is_ready.later crates snapshot statuses
                    build_is_ready.post_challenge build_is_ready.evidence)
                  (ap (λ (d : KernelDecision). d.state) (rw passes at (sym v)) ∙ e)).2))
      ]
