-- ===== src/Kernel/Returns.antt =====
-- Which early return of the evaluation gave a state: a step passes, or avoids the state.
use agentic_development_fram.Base.{
  String, Bool, true, false, not, ◌≡◌, refl, Option, none, some, List, [], ◌∷◌, ◌==◌, unwrap_or,
  or_else, if◌then◌else◌, Bool-cases, inl, inr, ne_of_==, List-cases, Option-cases, ◌&&◌, any,
  filter,
}
use agentic_development_fram.Json.Canonical.{Crates}
use agentic_development_fram.Detection.Types.{SignalCandidate}
use agentic_development_fram.Kernel.Types.{ProjectSnapshot, RequirementInstance, KernelDecision}
use agentic_development_fram.Kernel.Instances.{impact_governance_requirement}
use agentic_development_fram.Kernel.Candidates.{signal_applicability_review_requirement}
use agentic_development_fram.Kernel.Collect.{is_post_build}
use agentic_development_fram.Kernel.Actions.{
  pending_decision_request, has_fresh_human_answer, decision_is_recorded,
}
use agentic_development_fram.Kernel.Steps.{
  ready_instances, in_phase, is_pending, review_step, request_decision, request_step,
  governance_step, applicability_step, phase_step, before_build_step, build_step, before_merge_step,
}

-- `s` is no state in which a step in front of the build asks for work.
pub record IsStepState (s : String) : Type 0 where
  pub analysis : ("needs-analysis" == s) ≡ false
  pub post_analysis : ("needs-post-build-analysis" == s) ≡ false
  pub human : ("needs-human-decision" == s) ≡ false
  pub recording : ("needs-decision-recording" == s) ≡ false
  pub challenge : ("needs-pre-build-challenge" == s) ≡ false

-- `s` is no state that is returned before the build is asked for.
pub record IsLaterState (s : String) : Type 0 where
  pub steps : IsStepState s
  pub invalid : ("invalid" == s) ≡ false
  pub impact : ("needs-impact-assessment" == s) ≡ false
  pub post_impact : ("needs-post-build-impact-assessment" == s) ≡ false
  pub blocked : ("blocked-detection" == s) ≡ false

-- Nor is it a state in which somebody has work to do before the merge.
pub record IsReadyState (s : String) : Type 0 where
  pub later : IsLaterState s
  pub post_challenge : ("needs-post-build-challenge" == s) ≡ false
  pub evidence : ("needs-evidence" == s) ≡ false

-- If the step returns, it returns another state than `s`.
abbrev pub Avoids : String → Option KernelDecision → Type 0
Avoids s none = Unit
Avoids s (some d) = (d.state == s) ≡ false

-- A step that avoids the state of the whole was not the one that returned.
pub passed :
    {s : String} (step rest : Option KernelDecision) (last : KernelDecision)
    → Avoids s step
    → (unwrap_or (or_else step rest) last).state ≡ s
    → (step ≡ none)
      × (unwrap_or (or_else step rest) last ≡ unwrap_or rest last)
      × ((unwrap_or rest last).state ≡ s)
passed none rest last a e = (refl, refl, e)
passed {s} (some d) rest last a e = absurd (ne_of_== d.state s a e)

-- The same of the last step.
pub passed_last :
    {s : String} (step : Option KernelDecision) (last : KernelDecision)
    → Avoids s step
    → (unwrap_or step last).state ≡ s
    → (step ≡ none) × (unwrap_or step last ≡ last) × (last.state ≡ s)
passed_last none last a e = (refl, refl, e)
passed_last {s} (some d) last a e = absurd (ne_of_== d.state s a e)

pub if_state :
    (s : String) (b : Bool) (t u : String)
    → (t == s) ≡ false
    → (u == s) ≡ false
    → ((if b then t else u) == s) ≡ false
if_state s true t u h k = h
if_state s false t u h k = k

module _ {s : String} (steps : IsStepState s) (crates : Crates) (snapshot : ProjectSnapshot)
    (instances : List RequirementInstance) where
  pub review_step-Avoids :
      (cs : List SignalCandidate) → Avoids s (review_step crates snapshot instances cs)
  unfolding review_step
  review_step-Avoids [] = tt
  review_step-Avoids (c ∷ cs) =
      if_state s (is_post_build snapshot) _ _ steps.post_analysis steps.analysis

  request_decision-Avoids :
      (request_id : String) → Avoids s (request_decision crates snapshot instances request_id)
  unfolding request_decision
  request_decision-Avoids r = elim (Bool-cases (has_fresh_human_answer snapshot r)) [
    | inr unanswered ↦ rw unanswered steps.human
    | inl answered ↦ elim (Bool-cases (decision_is_recorded snapshot r)) [
      | inl done ↦ rw (answered, done) tt
      | inr open_still ↦ rw (answered, open_still) steps.recording
    ]
  ]

  pub request_step-Avoids : Avoids s (request_step crates snapshot instances)
  unfolding request_step
  request_step-Avoids = elim (Option-cases (pending_decision_request snapshot)) [
    | inl e ↦ rw (e, request_step) tt
    | inr (r, e) ↦ rw (e, request_step) (request_decision-Avoids r)
  ]

  pub governance_step-Avoids : Avoids s (governance_step crates snapshot instances)
  unfolding governance_step
  governance_step-Avoids =
      elim (List-cases (filter (is_pending impact_governance_requirement) instances)) [
        | inl e ↦ rw (e, governance_step) tt
        | inr (i, is, e) ↦
            rw (e, governance_step)
              (if_state s (is_post_build snapshot) _ _ steps.post_analysis steps.analysis)
      ]

  pub applicability_step-Avoids : Avoids s (applicability_step crates snapshot instances)
  unfolding applicability_step
  applicability_step-Avoids =
      elim (List-cases (filter (is_pending signal_applicability_review_requirement) instances)) [
        | inl e ↦ rw (e, applicability_step) tt
        | inr (i, is, e) ↦ rw (e, applicability_step) steps.challenge
      ]

module _ {s : String} (later : IsLaterState s) (crates : Crates) (snapshot : ProjectSnapshot)
    (instances : List RequirementInstance) where
  phase_step-Avoids :
      (phase : String) (state_for : String → String) (diagnostic : String)
      → ((role : String) → (state_for role == s) ≡ false)
      → Avoids s (phase_step crates snapshot instances phase state_for diagnostic)
  unfolding phase_step
  phase_step-Avoids phase state_for diagnostic h =
      elim (List-cases (ready_instances phase instances)) [
        | inr (i, is, e) ↦ rw (e, phase_step) (h _)
        | inl e ↦ elim (Bool-cases (any (in_phase phase) instances)) [
          | inl left ↦ rw (e, phase_step) (rw left later.invalid)
          | inr none_left ↦ rw (e, phase_step) (rw none_left tt)
        ]
      ]

  pub before_build_step-Avoids : Avoids s (before_build_step crates snapshot instances)
  unfolding before_build_step
  before_build_step-Avoids = phase_step-Avoids _ _ _ (λ role.
      if_state s (is_post_build snapshot && not (role == "Challenger")) _ _
        later.steps.post_analysis
        (if_state s (role == "Challenger") _ _ later.steps.challenge later.steps.analysis))

  pub before_merge_step-Avoids :
      (("needs-post-build-challenge" == s) ≡ false)
      → (("needs-evidence" == s) ≡ false)
      → Avoids s (before_merge_step crates snapshot instances)
  unfolding before_merge_step
  before_merge_step-Avoids post_challenge evidence = phase_step-Avoids _ _ _ (λ role.
      if_state s (role == "Builder") _ _ evidence
        (if_state s (role == "Challenger") _ _ post_challenge later.steps.post_analysis))

pub build_step-Avoids :
    (s : String) (crates : Crates) (snapshot : ProjectSnapshot)
    (instances : List RequirementInstance)
    → ("ready-to-build" == s) ≡ false
    → Avoids s (build_step crates snapshot instances)
unfolding build_step
build_step-Avoids s crates snapshot instances h = elim (Bool-cases (is_post_build snapshot)) [
  | inl p ↦ rw p tt
  | inr p ↦ rw p h
]

-- The states that are told apart in later proofs.
abbrev step_state :
    (s : String)
    → ("needs-analysis" == s) ≡ false
    → ("needs-post-build-analysis" == s) ≡ false
    → ("needs-human-decision" == s) ≡ false
    → ("needs-decision-recording" == s) ≡ false
    → ("needs-pre-build-challenge" == s) ≡ false
    → IsStepState s
step_state s a p h r c = record {
  analysis = a;
  post_analysis = p;
  human = h;
  recording = r;
  challenge = c;
}

pub merge_is_later : IsLaterState "ready-to-merge"
merge_is_later = record {
  steps = step_state "ready-to-merge" refl refl refl refl refl;
  invalid = refl;
  impact = refl;
  post_impact = refl;
  blocked = refl;
}

pub build_is_later : IsLaterState "ready-to-build"
build_is_later = record {
  steps = step_state "ready-to-build" refl refl refl refl refl;
  invalid = refl;
  impact = refl;
  post_impact = refl;
  blocked = refl;
}

pub evidence_is_later : IsLaterState "needs-evidence"
evidence_is_later = record {
  steps = step_state "needs-evidence" refl refl refl refl refl;
  invalid = refl;
  impact = refl;
  post_impact = refl;
  blocked = refl;
}

pub post_challenge_is_later : IsLaterState "needs-post-build-challenge"
post_challenge_is_later = record {
  steps = step_state "needs-post-build-challenge" refl refl refl refl refl;
  invalid = refl;
  impact = refl;
  post_impact = refl;
  blocked = refl;
}

pub merge_is_ready : IsReadyState "ready-to-merge"
merge_is_ready = record { later = merge_is_later; post_challenge = refl; evidence = refl }

pub build_is_ready : IsReadyState "ready-to-build"
build_is_ready = record { later = build_is_later; post_challenge = refl; evidence = refl }

pub invalid_is_step : IsStepState "invalid"
invalid_is_step = step_state "invalid" refl refl refl refl refl
