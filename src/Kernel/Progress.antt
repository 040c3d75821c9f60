-- ===== src/Kernel/Progress.antt =====
-- Work that is left can start: the steps of the phases find a batch (`evaluate_with_health` of
-- src/kernel.rs), where the dependencies are acyclic, as the Rule Compiler has tested.
use agentic_development_fram.Base.{
  String, ℕ, zero, suc, ◌+◌, ◌<◌, true, false, ◌≡◌, sym, subst, ◌⊎◌, inl, inr, ◌&&◌, some, List, [],
  ◌∷◌, any, filter, length, Memᴰ, ◌==◌, eq_iff, eq_of_==, ne_of_==, Bool-cases, List-cases,
  Option-cases, arith, any-mem, all-false, filter-mem, mem-filter,
}
use mathlib.Core.List.Memᴰ
use agentic_development_fram.Base.Map
use agentic_development_fram.Base.Map.{Map, get-mem}
use agentic_development_fram.Base.Pigeon.{Distinct, Distinct-length}
use agentic_development_fram.Json.Canonical.{Crates}
use agentic_development_fram.Rules.Types.{RequirementDefinition}
use agentic_development_fram.Rules.Cycles.{keys, depends_on}
use agentic_development_fram.Rules.Acyclic.{DependsOn, Leads, Leads-snoc}
use agentic_development_fram.Kernel.Types.{ProjectSnapshot, RequirementInstance, KernelDecision}
use agentic_development_fram.Kernel.Actions.{dependency_satisfied, dependencies_satisfied}
use agentic_development_fram.Kernel.Steps.{in_phase, ready_instances, phase_step}
use agentic_development_fram.Kernel.Merging.{IsWork, ready_instances-IsWork}

-- The instances of a phase depend on one another without a cycle and on no later phase: their
-- dependencies are among those of acyclic requirements, each instance is satisfied or unsatisfied,
-- and an unsatisfied dependency of an instance of the phase is of the phase.
pub record IsOrderly (requirements : Map RequirementDefinition) (phase : String)
    (instances : List RequirementInstance) : Type 0 where
  pub acyclic : (a : String) → ¬ Leads requirements a a
  pub from_requirements :
      (i : RequirementInstance)
      → Memᴰ i instances
      → (b : String) → Memᴰ b i.depends_on
      → DependsOn requirements i.requirement_id b
  pub two_valued :
      (i : RequirementInstance)
      → Memᴰ i instances
      → (i.status ≡ "satisfied") ⊎ (i.status ≡ "unsatisfied")
  pub same_phase :
      (i j : RequirementInstance)
      → Memᴰ i instances
      → Memᴰ j instances
      → i.phase ≡ phase
      → Memᴰ j.requirement_id i.depends_on
      → j.status ≡ "unsatisfied"
      → j.phase ≡ phase

unsatisfied_of :
    (s : String)
    → (s ≡ "satisfied") ⊎ (s ≡ "unsatisfied")
    → (s == "satisfied") ≡ false
    → s ≡ "unsatisfied"
unsatisfied_of s (inl e) h = absurd (ne_of_== s "satisfied" h e)
unsatisfied_of s (inr e) h = e

both_equal : (s t u v : String) → s ≡ t → u ≡ v → (s == t && u == v) ≡ true
both_equal s t u v e f = ground (arith, eq_iff s t, eq_iff u v)

DependsOn-key :
    (requirements : Map RequirementDefinition) (a b : String)
    → DependsOn requirements a b
    → Memᴰ a (keys requirements)
unfolding depends_on
DependsOn-key requirements a b m = elim (Option-cases (Map.get a requirements)) [
  | inl n ↦ elim (rw (n, depends_on) at m) [ ]
  | inr (d, q) ↦ (get-mem a requirements q).1
]

module _ (requirements : Map RequirementDefinition) (phase : String)
    (instances : List RequirementInstance) (orderly : IsOrderly requirements phase instances) where
  -- An instance whose dependencies are not satisfied waits for an unsatisfied one.
  waits_for :
      (i : RequirementInstance)
      → dependencies_satisfied i instances ≡ false
      → (j : RequirementInstance) × Memᴰ j instances
        × Memᴰ j.requirement_id i.depends_on
        × (j.status ≡ "unsatisfied")
  unfolding dependencies_satisfied dependency_satisfied
  waits_for i h =
      let (b, m, unmet) = all-false (dependency_satisfied instances) i.depends_on h in
      let (j, n, open_still) =
        all-false (λ (c : RequirementInstance). c.status == "satisfied")
          (filter (λ (c : RequirementInstance). c.requirement_id == b) instances) unmet in
      let (o, e) = filter-mem (λ (c : RequirementInstance). c.requirement_id == b) instances n in
      (
        j,
        o,
        subst (λ r. Memᴰ r i.depends_on) (sym (eq_of_== j.requirement_id b e)) m,
        unsatisfied_of j.status (orderly.two_valued j o) open_still,
      )

  -- The chain of waiting instances cannot go on for longer than there are requirements.
  chain_ends :
      (ready_instances phase instances ≡ [])
      → (fuel : ℕ) (visited : List String) → length (keys requirements) < fuel + length visited
      → Distinct visited
      → ((v : String) → Memᴰ v visited → Memᴰ v (keys requirements))
      → (i : RequirementInstance) → Memᴰ i instances
      → in_phase phase i ≡ true
      → ((v : String) → Memᴰ v visited → Leads requirements v i.requirement_id)
      → ⊥
  unfolding ready_instances
  chain_ends stuck zero visited long distinct known i m p leads =
      omega (arith, Distinct-length visited (keys requirements) distinct known)
  chain_ends stuck (suc fuel) visited long distinct known i m p leads =
      elim (Bool-cases (dependencies_satisfied i instances)) [
        | inl done ↦
            elim (subst (λ l. Memᴰ i l) stuck
              (mem-filter
                (λ (i : RequirementInstance).
                  in_phase phase i && dependencies_satisfied i instances)
                instances m (ground (arith, p, done)))) [ ]
        | inr waiting ↦
            let (j, n, b, u) = waits_for i waiting in
            let edge = orderly.from_requirements i m j.requirement_id b in
            let q = orderly.same_phase i j m n (ground (arith, p, eq_iff i.phase phase)) b u in
            chain_ends stuck fuel (i.requirement_id ∷ visited) (omega (arith, long))
              ((λ again. orderly.acyclic i.requirement_id (leads i.requirement_id again)), distinct)
              (λ v k. elim (Memᴰ.cases_cons k) [
                | inl e ↦ rw e (DependsOn-key requirements i.requirement_id j.requirement_id edge)
                | inr t ↦ known v t
              ])
              j n (both_equal j.phase phase j.status "unsatisfied" q u)
              (λ v k. elim (Memᴰ.cases_cons k) [
                | inl e ↦ rw e (Leads.one edge)
                | inr t ↦ Leads-snoc requirements (leads v t) edge
              ])
      ]

  -- The waiting instances of a phase do not block one another: where the dependencies are in order
  -- and an instance of the phase is unsatisfied, the step of the phase issues work for the phase,
  -- and does not answer `invalid`.
  pub phase_step-progress :
      (crates : Crates) (snapshot : ProjectSnapshot) (state_for : String → String)
      (diagnostic : String)
      → any (in_phase phase) instances ≡ true
      → (d : KernelDecision) × (phase_step crates snapshot instances phase state_for diagnostic
          ≡ some d)
        × ((role : String) × (d.state ≡ state_for role) × IsWork phase role d)
  phase_step-progress crates snapshot state_for diagnostic h =
      elim (List-cases (ready_instances phase instances)) [
        | inl stuck ↦
            let (i, m, p) = any-mem (in_phase phase) instances h in
            absurd (
              chain_ends stuck (suc (length (keys requirements))) [] (omega arith) tt
                (λ v k. elim k [ ]) i m p (λ v k. elim k [ ]))
        | inr (c, cs, e) ↦
            ready_instances-IsWork crates snapshot instances phase state_for diagnostic c cs e
      ]
