-- ===== src/Kernel/Valid.antt =====
-- The kernel does not end in `invalid` by its dependencies (`evaluate_with_health` of
-- src/kernel.rs).
use agentic_development_fram.Base.{
  String, Bool, true, false, ◌≡◌, refl, sym, ap, ◌∙◌, ◌≢◌, subst, ◌⊎◌, inl, inr, ◌&&◌, not, Option,
  List, map, any, any-of_mem, Memᴰ, mem-map, ◌==◌, ne_of_==, eq_iff, is_empty, ok, Bool-cases,
  List-cases, arith, if◌then◌else◌,
}
use agentic_development_fram.Json.Canonical.{Crates}
use agentic_development_fram.Contracts.Health.{ContractHealthReport}
use agentic_development_fram.Schema.Registry.{SchemaRegistry}
use agentic_development_fram.Detection.Types.{
  SignalCandidate, DetectionReport, SignalCatalogRegistry,
}
use agentic_development_fram.Rules.Types.{RuleIndex}
use agentic_development_fram.Rules.Acyclic.{Leads}
use agentic_development_fram.Rules.Index.{IsCompiled}
use agentic_development_fram.Kernel.Types.{ProjectSnapshot, RequirementInstance}
use agentic_development_fram.Kernel.Freshness.{impact_assessment_pending}
use agentic_development_fram.Kernel.Candidates.{signal_applicability_review_requirement}
use agentic_development_fram.Kernel.Collect.{
  is_post_build, is_settled, set_status, unreviewed_candidates, collect_instances,
}
use agentic_development_fram.Kernel.Steps.{
  in_phase, ready_instances, phase_step, review_step, request_step, governance_step,
  applicability_step, before_build_step, build_step, before_merge_step, decide,
}
use agentic_development_fram.Kernel.Evaluate.{evaluate_with_health, impact_decision}
use agentic_development_fram.Kernel.Returns.{
  Avoids, passed, passed_last, if_state, review_step-Avoids, request_step-Avoids,
  governance_step-Avoids, applicability_step-Avoids, build_step-Avoids, invalid_is_step,
}
use agentic_development_fram.Kernel.Passed.{phase_step-none}
use agentic_development_fram.Kernel.Progress.{IsOrderly, phase_step-progress}
use agentic_development_fram.Kernel.Sound.{IsSound, AllSound}
use agentic_development_fram.Kernel.Collected.{collect-AllSound}

-- Setting the status keeps the rest, and gives one of two values.
set_status-kept :
    (snapshot : ProjectSnapshot) (reviewed : Bool) (i : RequirementInstance)
    → ((set_status snapshot reviewed i).phase ≡ i.phase)
      × ((set_status snapshot reviewed i).requirement_id ≡ i.requirement_id)
      × ((set_status snapshot reviewed i).depends_on ≡ i.depends_on)
unfolding set_status
set_status-kept snapshot reviewed i =
    elim (Bool-cases (i.requirement_id == signal_applicability_review_requirement)) [
      | inl e ↦ rw e (refl, refl, refl)
      | inr e ↦ rw e (refl, refl, refl)
    ]

abbrev status_of : Bool → String
status_of b = if b then "satisfied" else "unsatisfied"

two_values : (b : Bool) → (status_of b ≡ "satisfied") ⊎ (status_of b ≡ "unsatisfied")
two_values true = inl refl
two_values false = inr refl

set_status-IsSound :
    (index : RuleIndex) (snapshot : ProjectSnapshot) (reviewed : Bool) (i : RequirementInstance)
    → IsSound index i
    → IsSound index (set_status snapshot reviewed i)
unfolding set_status
set_status-IsSound index snapshot reviewed i (p, s, d) =
    elim (Bool-cases (i.requirement_id == signal_applicability_review_requirement)) [
      | inl e ↦ rw e (p, s, d)
      | inr e ↦ rw e (p, two_values (is_settled snapshot reviewed i), d)
    ]

-- No instance before the build waits for one that is due later.
abbrev pub IsPhased : List RequirementInstance → Type 0
IsPhased instances =
    (i j : RequirementInstance)
    → Memᴰ i instances
    → Memᴰ j instances
    → i.phase ≡ "before-build"
    → Memᴰ j.requirement_id i.depends_on
    → j.phase ≡ "before-build"

set_status-IsPhased :
    (snapshot : ProjectSnapshot) (reviewed : Bool) (instances : List RequirementInstance)
    → IsPhased instances
    → IsPhased (map (set_status snapshot reviewed) instances)
set_status-IsPhased snapshot reviewed instances h i j m n p d =
    let (i', m', e) = mem-map (set_status snapshot reviewed) instances m in
    let (j', n', f) = mem-map (set_status snapshot reviewed) instances n in
    let (pi, ri, di) = set_status-kept snapshot reviewed i' in
    let (pj, rj, dj) = set_status-kept snapshot reviewed j' in
    rw (← f) (
      pj
      ∙ h i' j' m' n' (sym pi ∙ (ap (λ (i : RequirementInstance). i.phase) e ∙ p)) (
          subst (λ l. Memᴰ j'.requirement_id l)
            (sym (ap (λ (i : RequirementInstance). i.depends_on) e) ∙ di)
            (subst (λ r. Memᴰ r i.depends_on)
              (sym (ap (λ (j : RequirementInstance). j.requirement_id) f) ∙ rj) d)))

module _ (index : RuleIndex) (acyclic : (a : String) → ¬ Leads index.requirements a a)
    (instances : List RequirementInstance) (sound : AllSound index instances) where
  pub before_build-IsOrderly :
      IsPhased instances → IsOrderly index.requirements "before-build" instances
  before_build-IsOrderly phased = record {
    acyclic = acyclic;
    from_requirements = λ i m. (sound i m).2;
    two_valued = λ i m. (sound i m).1;
    same_phase = λ i j m n p d u. phased i j m n p d;
  }

  before_merge-IsOrderly :
      any (in_phase "before-build") instances ≡ false
      → IsOrderly index.requirements "before-merge" instances
  before_merge-IsOrderly none_left = record {
    acyclic = acyclic;
    from_requirements = λ i m. (sound i m).2;
    two_valued = λ i m. (sound i m).1;
    same_phase = λ i j m n p d u. elim (sound j n).0 [
      | inr q ↦ q
      | inl q ↦
          cc (
            any-of_mem (in_phase "before-build") instances n (waits j.phase j.status q u),
            none_left,
          )
    ];
  }
    where
      waits :
          (p s : String)
          → p ≡ "before-build"
          → s ≡ "unsatisfied"
          → (p == "before-build" && s == "unsatisfied") ≡ true
      waits p s e f = ground (arith, eq_iff p "before-build", eq_iff s "unsatisfied")

phase_step-valid :
    (index : RuleIndex) (crates : Crates) (snapshot : ProjectSnapshot)
    (instances : List RequirementInstance) (phase : String) (state_for : String → String)
    (diagnostic : String)
    → IsOrderly index.requirements phase instances
    → ((role : String) → (state_for role == "invalid") ≡ false)
    → Avoids "invalid" (phase_step crates snapshot instances phase state_for diagnostic)
unfolding phase_step
phase_step-valid index crates snapshot instances phase state_for diagnostic orderly h =
    elim (Bool-cases (any (in_phase phase) instances)) [
      | inl left ↦
          let (d, e, (role, s, w)) =
            phase_step-progress index.requirements phase instances orderly crates snapshot state_for
              diagnostic left in
          subst (Avoids "invalid") (sym e) (subst (λ t. (t == "invalid") ≡ false) (sym s) (h role))
      | inr done ↦ elim (List-cases (ready_instances phase instances)) [
        | inl n ↦ rw (n, phase_step) (rw done tt)
        | inr (c, cs, n) ↦ rw (n, phase_step) (h _)
      ]
    ]

decide-valid :
    (index : RuleIndex)
    → ((a : String) → ¬ Leads index.requirements a a)
    → (crates : Crates) (snapshot : ProjectSnapshot) (instances : List RequirementInstance)
      (unreviewed : List SignalCandidate)
    → AllSound index instances
    → IsPhased instances
    → (decide crates snapshot instances unreviewed).state ≢ "invalid"
unfolding decide before_build_step before_merge_step
decide-valid index acyclic crates snapshot instances unreviewed sound phased e =
    let (a₁, p₁, e₁) =
      passed (review_step crates snapshot instances unreviewed) _ _
        (review_step-Avoids invalid_is_step crates snapshot instances unreviewed) e in
    let (a₂, p₂, e₂) =
      passed (request_step crates snapshot instances) _ _
        (request_step-Avoids invalid_is_step crates snapshot instances) e₁ in
    let (a₃, p₃, e₃) =
      passed (governance_step crates snapshot instances) _ _
        (governance_step-Avoids invalid_is_step crates snapshot instances) e₂ in
    let (a₄, p₄, e₄) =
      passed (applicability_step crates snapshot instances) _ _
        (applicability_step-Avoids invalid_is_step crates snapshot instances) e₃ in
    let (a₅, p₅, e₅) =
      passed (before_build_step crates snapshot instances) _ _
        (phase_step-valid index crates snapshot instances _ _ _
          (before_build-IsOrderly index acyclic instances sound phased)
          (λ role.
            if_state "invalid" (is_post_build snapshot && not (role == "Challenger")) _ _ refl
              (if_state "invalid" (role == "Challenger") _ _ refl refl)))
        e₄ in
    let (a₆, p₆, e₆) =
      passed (build_step crates snapshot instances) _ _
        (build_step-Avoids "invalid" crates snapshot instances refl) e₅ in
    let (a₇, p₇, e₇) =
      passed_last (before_merge_step crates snapshot instances) _
        (phase_step-valid index crates snapshot instances _ _ _
          (before_merge-IsOrderly index acyclic instances sound
            (phase_step-none crates snapshot instances _ _ _ a₅))
          (λ role.
            if_state "invalid" (role == "Builder") _ _ refl
              (if_state "invalid" (role == "Challenger") _ _ refl refl)))
        e₆ in
    ne_of_== "ready-to-merge" "invalid" refl e₇

-- For a Rule Index that the Rule Compiler has made, the kernel does not answer `invalid` once it has
-- collected the instances without an error, provided that no instance before the build depends on
-- one that is due later: as long as work is left, some of it can start.
pub evaluate-valid :
    (schemas : SchemaRegistry) (index : RuleIndex)
    → IsCompiled schemas index
    → (crates : Crates) (registry : SignalCatalogRegistry) (snapshot : ProjectSnapshot)
      (detection : DetectionReport) (health : Option ContractHealthReport)
      {collected : List RequirementInstance}
    → collect_instances crates registry snapshot index detection health ≡ ok collected
    → IsPhased collected
    → (evaluate_with_health crates registry snapshot index detection health).state ≢ "invalid"
unfolding evaluate_with_health impact_decision
evaluate-valid schemas index compiled crates registry snapshot detection health {collected} c
      phased =
    let reviewed = is_empty (unreviewed_candidates snapshot detection) in
    let sound =
      collect-AllSound schemas index compiled crates registry snapshot detection health c in
    let set_sound : AllSound index (map (set_status snapshot reviewed) collected) = λ i m.
      let (j, n, q) = mem-map (set_status snapshot reviewed) collected m in
      subst (IsSound index) q (set_status-IsSound index snapshot reviewed j (sound j n)) in
    elim (Bool-cases (impact_assessment_pending snapshot)) [
      | inl p ↦
          rw p (ne_of_== _ "invalid" (if_state "invalid" (is_post_build snapshot) _ _ refl refl))
      | inr p ↦ elim (Bool-cases (detection.coverage.status == "complete")) [
        | inr q ↦ rw (p, q) (ne_of_== "blocked-detection" "invalid" refl)
        | inl q ↦
            rw (p, q, c)
              (decide-valid index compiled.acyclic crates snapshot _ _ set_sound
                (set_status-IsPhased snapshot reviewed collected phased))
      ]
    ]
