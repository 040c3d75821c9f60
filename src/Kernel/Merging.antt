-- ===== src/Kernel/Merging.antt =====
-- The work before the merge: `needs-evidence` and `needs-post-build-challenge`
-- (`evaluate_with_health` of src/kernel.rs).
use agentic_development_fram.Base.{
  String, Bool, true, false, ◌≡◌, refl, sym, ap, ◌∙◌, subst, ◌&&◌, Option, none, some, List, [],
  ◌∷◌, map, any, Memᴰ, Bool-cases, List-cases, Option-cases, inl, inr, ◌==◌, eq_iff, eq_of_==,
  ne_of_==, unwrap_or, arith, filter-mem, if◌then◌else◌,
}
use agentic_development_fram.Json.Canonical.{Crates}
use agentic_development_fram.Contracts.Health.{ContractHealthReport}
use agentic_development_fram.Detection.Types.{DetectionReport, SignalCatalogRegistry}
use agentic_development_fram.Rules.Types.{RuleIndex}
use agentic_development_fram.Kernel.Types.{
  ProjectSnapshot, RequirementInstance, NextAction, KernelDecision, decision,
}
use agentic_development_fram.Kernel.Freshness.{repository_phase}
use agentic_development_fram.Kernel.Actions.{dependencies_satisfied, batch_action}
use agentic_development_fram.Kernel.Collect.{set_status}
use agentic_development_fram.Kernel.Steps.{
  in_phase, ready_instances, phase_step, before_merge_state, build_step, before_merge_step,
}
use agentic_development_fram.Kernel.Batch.{batch_action-batch}
use agentic_development_fram.Kernel.Returns.{
  IsLaterState, passed, build_step-Avoids, evidence_is_later, post_challenge_is_later,
}
use agentic_development_fram.Kernel.Passed.{build_step-none}
use agentic_development_fram.Kernel.Prepared.{IsCleared, verdict, evaluate-finish, finish-IsCleared}

-- The decision issues an action of the role, whose instances are all work that can start: they are
-- of the decision, in the phase, for the role, unsatisfied, and have their dependencies satisfied.
pub record IsWork (phase role : String) (d : KernelDecision) : Type 0 where
  pub work : NextAction
  pub issued : d.action ≡ some work
  pub for_role : work.role ≡ role
  pub some_instance : (i : RequirementInstance) × Memᴰ i work.requirement_instances
  pub selected :
      (i : RequirementInstance) → Memᴰ i work.requirement_instances → Memᴰ i d.requirement_instances
  pub can_start :
      (i : RequirementInstance)
      → Memᴰ i work.requirement_instances
      → (i.phase ≡ phase)
        × (i.role ≡ role)
        × (i.status ≡ "unsatisfied")
        × (dependencies_satisfied i d.requirement_instances ≡ true)

module _ (crates : Crates) (snapshot : ProjectSnapshot) (instances : List RequirementInstance)
    (phase : String) (state_for : String → String) (diagnostic : String) where
  ready-can_start :
      (c : RequirementInstance) (cs : List RequirementInstance)
      → ready_instances phase instances ≡ c ∷ cs
      → (i : RequirementInstance) → Memᴰ i (c ∷ cs)
      → Memᴰ i instances
        × (i.phase ≡ phase)
        × (i.status ≡ "unsatisfied")
        × (dependencies_satisfied i instances ≡ true)
  unfolding ready_instances
  ready-can_start c cs e i m =
      let (n, q) =
        filter-mem
          (λ (i : RequirementInstance). in_phase phase i && dependencies_satisfied i instances)
          instances (subst (λ l. Memᴰ i l) (sym e) m) in
      (
        n,
        ground (arith, q, eq_iff i.phase phase),
        ground (arith, q, eq_iff i.status "unsatisfied"),
        ground (arith, q),
      )

  abbrev work_decision : RequirementInstance → List RequirementInstance → KernelDecision
  work_decision c cs =
      decision (state_for (batch_action crates snapshot c cs).role)
        (some (batch_action crates snapshot c cs)) instances []

  work_decision-IsWork :
      (c : RequirementInstance) (cs : List RequirementInstance)
      → ready_instances phase instances ≡ c ∷ cs
      → IsWork phase (batch_action crates snapshot c cs).role (work_decision c cs)
  work_decision-IsWork c cs e =
      let (kept, first, ranked) = batch_action-batch crates snapshot c cs in
      record {
        work = batch_action crates snapshot c cs;
        issued = refl;
        for_role = refl;
        some_instance = first;
        selected = λ i m. (ready-can_start c cs e i ((kept i).0 m).0).0;
        can_start = λ i m.
            let (n, r, q) = (kept i).0 m in
            let (o, p, u, d) = ready-can_start c cs e i n in (p, r, u, d);
      }

  -- A step of the phase that has instances that can start issues work.
  pub ready_instances-IsWork :
      (c : RequirementInstance) (cs : List RequirementInstance)
      → ready_instances phase instances ≡ c ∷ cs
      → (d : KernelDecision) × (phase_step crates snapshot instances phase state_for diagnostic
          ≡ some d)
        × ((role : String) × (d.state ≡ state_for role) × IsWork phase role d)
  unfolding phase_step
  ready_instances-IsWork c cs n = (
    work_decision c cs,
    rw (n, phase_step) refl,
    ((batch_action crates snapshot c cs).role, refl, work_decision-IsWork c cs n),
  )

  -- A step of the phase that returns in another state than `invalid` issues work.
  phase_step-IsWork :
      (d : KernelDecision)
      → phase_step crates snapshot instances phase state_for diagnostic ≡ some d
      → ("invalid" == d.state) ≡ false
      → (role : String) × (d.state ≡ state_for role)
        × (d.requirement_instances ≡ instances)
        × IsWork phase role d
  unfolding phase_step
  phase_step-IsWork d e v = elim (List-cases (ready_instances phase instances)) [
    | inl n ↦ elim (Bool-cases (any (in_phase phase) instances)) [
      | inl left ↦
          let s : decision "invalid" none instances (diagnostic ∷ []) ≡ d =
            cc (rw (n, phase_step, left) at e) in
          let q : ("invalid" == "invalid") ≡ false =
            subst (λ (d : KernelDecision). ("invalid" == d.state) ≡ false) (sym s) v in
          absurd (ne_of_== "invalid" "invalid" q refl)
      | inr none_left ↦ cc (rw (n, phase_step, none_left) at e)
    ]
    | inr (c, cs, n) ↦
        let s : work_decision c cs ≡ d = cc (rw (n, phase_step) at e) in
        (
          (batch_action crates snapshot c cs).role,
          ap (λ (d : KernelDecision). d.state) (sym s),
          ap (λ (d : KernelDecision). d.requirement_instances) (sym s),
          subst (IsWork phase (batch_action crates snapshot c cs).role) s
              (work_decision-IsWork c cs n),
        )
  ]

abbrev merge_state : Bool → Bool → String
merge_state b c =
    if b
    then "needs-evidence"
    else if c
    then "needs-post-build-challenge"
    else "needs-post-build-analysis"

evidence_state : (b c : Bool) → merge_state b c ≡ "needs-evidence" → b ≡ true
evidence_state true c e = refl
evidence_state false true e = cc
evidence_state false false e = cc

challenge_state : (b c : Bool) → merge_state b c ≡ "needs-post-build-challenge" → c ≡ true
challenge_state true c e = cc
challenge_state false true e = refl
challenge_state false false e = cc

-- The states of the work before the merge, with the role that has to do it.
pub data StandsFor : String → String → Type 0 where
  evidence : StandsFor "needs-evidence" "Builder"
  challenge : StandsFor "needs-post-build-challenge" "Challenger"

module _ (crates : Crates) (registry : SignalCatalogRegistry) (snapshot : ProjectSnapshot)
    (index : RuleIndex) (detection : DetectionReport) (health : Option ContractHealthReport) where
  -- What a verdict for work before the merge promises.
  abbrev pub IsMergeWork : String → Type 0
  IsMergeWork role =
      IsCleared snapshot detection (verdict crates registry snapshot index detection health)
      × (repository_phase snapshot ≡ "post-build")
      × IsWork "before-merge" role (verdict crates registry snapshot index detection health)

  merge_work :
      (s : String)
      → IsLaterState s
      → ("ready-to-build" == s) ≡ false
      → ("ready-to-merge" == s) ≡ false
      → (verdict crates registry snapshot index detection health).state ≡ s
      → (role : String) × (before_merge_state role ≡ s) × IsMergeWork role
  unfolding before_merge_step
  merge_work s later unbuilt unmerged e =
      let (is, v, p, q, u, r, b) =
        evaluate-finish crates registry snapshot index detection health later e in
      let statuses = map (set_status snapshot true) is in
      let (built, f, g) =
        passed (build_step crates snapshot statuses) _ _
          (build_step-Avoids s crates snapshot statuses unbuilt)
          (ap (λ (d : KernelDecision). d.state) (sym v) ∙ e) in
      elim (Option-cases (before_merge_step crates snapshot statuses)) [
        | inl n ↦ absurd (ne_of_== "ready-to-merge" s unmerged (rw (n, before_merge_step) at g))
        | inr (d, n) ↦
            let w : verdict crates registry snapshot index detection health ≡ d =
              v ∙ (f ∙ ap (λ o. unwrap_or o (decision "ready-to-merge" none statuses [])) n) in
            let state_eq : d.state ≡ s = ap (λ (d : KernelDecision). d.state) (sym w) ∙ e in
            let (role, t, kept, work) =
              phase_step-IsWork crates snapshot statuses "before-merge" before_merge_state _ d n
                (rw state_eq later.invalid) in
            (
              role,
              sym t ∙ state_eq,
              (
                finish-IsCleared crates registry snapshot index detection health is
                    (ap (λ (d : KernelDecision). d.requirement_instances) w ∙ kept) p q u r b,
                eq_of_== _ _ (build_step-none crates snapshot statuses built),
                subst (IsWork "before-merge" role) (sym w) work,
              ),
            )
      ]

  -- If the kernel says `needs-evidence`, the role being Builder, or `needs-post-build-challenge`, the
  -- role being Challenger, then all that is in front of the build is cleared, the repository is past
  -- the build, and the action is for the role. It has at least one instance, and each is an instance
  -- of the decision, is due before the merge, is for that role and unsatisfied, and has its
  -- dependencies satisfied.
  pub before_merge_step-IsMergeWork :
      {s role : String}
      → StandsFor s role
      → (verdict crates registry snapshot index detection health).state ≡ s
      → IsMergeWork role
  before_merge_step-IsMergeWork evidence e =
      let (role, t, w) = merge_work "needs-evidence" evidence_is_later refl refl e in
      subst IsMergeWork (eq_of_== role "Builder" (evidence_state _ (role == "Challenger") t)) w
  before_merge_step-IsMergeWork challenge e =
      let (role, t, w) =
        merge_work "needs-post-build-challenge" post_challenge_is_later refl refl e in
      subst IsMergeWork (eq_of_== role "Challenger" (challenge_state (role == "Builder") _ t)) w
