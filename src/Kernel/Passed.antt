-- ===== src/Kernel/Passed.antt =====
-- What each step of the evaluation has found when it passes to the next.
use agentic_development_fram.Base.{
  String, true, false, ◌≡◌, refl, none, List, [], ◌∷◌, any, Bool-cases, Option-cases, List-cases,
  inl, inr, arith,
}
use agentic_development_fram.Json.Canonical.{Crates}
use agentic_development_fram.Detection.Types.{SignalCandidate}
use agentic_development_fram.Kernel.Types.{ProjectSnapshot, RequirementInstance}
use agentic_development_fram.Kernel.Actions.{pending_decision_request}
use agentic_development_fram.Kernel.Collect.{is_post_build}
use agentic_development_fram.Kernel.Steps.{
  ready_instances, in_phase, review_step, request_decision, request_step, phase_step, build_step,
}
use agentic_development_fram.Kernel.Requests.{pending_decision_request-IsOpen}

module _ (crates : Crates) (snapshot : ProjectSnapshot) (instances : List RequirementInstance) where
  pub review_step-none :
      (cs : List SignalCandidate) → review_step crates snapshot instances cs ≡ none → cs ≡ []
  unfolding review_step
  review_step-none [] h = refl
  review_step-none (c ∷ cs) h = cc

  pub request_step-none :
      request_step crates snapshot instances ≡ none → pending_decision_request snapshot ≡ none
  unfolding request_step request_decision
  request_step-none h = elim (Option-cases (pending_decision_request snapshot)) [
    | inl e ↦ e
    | inr (r, e) ↦ ground (arith, h, e, (pending_decision_request-IsOpen snapshot r e).unrecorded)
  ]

  pub phase_step-none :
      (phase : String) (state_for : String → String) (diagnostic : String)
      → phase_step crates snapshot instances phase state_for diagnostic ≡ none
      → any (in_phase phase) instances ≡ false
  unfolding phase_step
  phase_step-none phase state_for diagnostic h =
      elim (List-cases (ready_instances phase instances)) [
        | inr (i, is, e) ↦ cc (rw (e, phase_step) at h)
        | inl e ↦ elim (Bool-cases (any (in_phase phase) instances)) [
          | inl left ↦ cc (rw (e, phase_step, left) at h)
          | inr none_left ↦ none_left
        ]
      ]

  pub build_step-none : build_step crates snapshot instances ≡ none → is_post_build snapshot ≡ true
  unfolding build_step
  build_step-none h = ground arith
