-- ===== src/Kernel/Sound.antt =====
-- The instances that `evaluate_with_health` of src/kernel.rs collects: each is due before the build
-- or before the merge, and depends on what the Rule Index says.
use mathlib.Core.List.Memᴰ
use agentic_development_fram.Base.{
  String, Bool, true, false, ◌≡◌, refl, sym, ◌∙◌, subst, ◌⊎◌, inl, inr, Option, some, List, [], ◌∷◌,
  Memᴰ, mem-map, Returns, returns, fails, filter_map, find, ◌==◌, Bool-cases, Option-cases,
  if◌then◌else◌, arith, eq_iff,
}
use agentic_development_fram.Base.Map.{Map, get-mem}
use agentic_development_fram.Json.Canonical.{Crates}
use agentic_development_fram.Json.Value.{Value, get, string_map, string_field}
use agentic_development_fram.Contracts.Health.{ClauseHealth, ContractHealthReport}
use agentic_development_fram.Contracts.Scope.{member}
use agentic_development_fram.Schema.Registry.{SchemaRegistry}
use agentic_development_fram.Detection.Types.{SignalCandidate}
use agentic_development_fram.Rules.Types.{RuleIndex}
use agentic_development_fram.Rules.Cycles.{depends_on}
use agentic_development_fram.Rules.Acyclic.{DependsOn}
use agentic_development_fram.Rules.Index.{IsCompiled}
use agentic_development_fram.Kernel.Types.{ProjectSnapshot, RequirementInstance}
use agentic_development_fram.Kernel.Candidates.{signal_applicability_review_instance}
use agentic_development_fram.Kernel.Instances.{
  governance_of, impact_governance_instance, impact_governance_instances,
  contract_revalidation_instance, contract_revalidation_instances, explicit_instance,
}
use agentic_development_fram.Kernel.Merged.{IsSelected}
use agentic_development_fram.Kernel.Collect.{applicability_review}

-- Due in one of the two phases, reported in one of two ways, and with the dependencies of the index.
abbrev pub IsSound : RuleIndex → RequirementInstance → Type 0
IsSound index i =
    ((i.phase ≡ "before-build") ⊎ (i.phase ≡ "before-merge"))
    × ((i.status ≡ "satisfied") ⊎ (i.status ≡ "unsatisfied"))
    × ((b : String) → Memᴰ b i.depends_on → DependsOn index.requirements i.requirement_id b)

abbrev pub AllSound : RuleIndex → List RequirementInstance → Type 0
AllSound index instances = (i : RequirementInstance) → Memᴰ i instances → IsSound index i

phase_cases :
    (p : String)
    → member p ("before-build" ∷ "before-merge" ∷ []) ≡ true
    → (p ≡ "before-build") ⊎ (p ≡ "before-merge")
phase_cases p h = ground (arith, eq_iff "before-build" p, eq_iff "before-merge" p)

module _ (schemas : SchemaRegistry) (index : RuleIndex) (compiled : IsCompiled schemas index) where
  pub selected-IsSound :
      (snapshot : ProjectSnapshot) (candidates : List (Option SignalCandidate))
      (i : RequirementInstance)
      → IsSelected snapshot index candidates i
      → IsSound index i
  unfolding depends_on
  selected-IsSound snapshot candidates i s =
      let defined =
        compiled.defined (s.rule.requirement_id, s.definition)
          (get-mem s.rule.requirement_id index.requirements s.known).0 in
      (
        rw (s.of_phase) (phase_cases s.definition.phase defined.phase_allowed),
        inr s.unsatisfied,
        λ b m.
            subst (λ id. DependsOn index.requirements id b) (sym (s.of_requirement ∙ defined.named))
              (rw (s.known, depends_on) (subst (λ l. Memᴰ b l) s.of_dependencies m)),
      )

governance-IsSound :
    (crates : Crates) (index : RuleIndex) (signal : String) (bindings : Map String)
    → IsSound index (impact_governance_instance crates signal bindings)
unfolding impact_governance_instance
governance-IsSound crates index signal bindings = (inl refl, inr refl, λ b m. elim m [ ])

filter_map-mem :
    {A B : Type 0} (f : A → Option B) (xs : List A) {b : B}
    → Memᴰ b (filter_map f xs)
    → (a : A) × (f a ≡ some b)
filter_map-mem f [] m = elim m [ ]
filter_map-mem f (x ∷ xs) {b} m = elim (Option-cases (f x)) [
  | inl n ↦ filter_map-mem f xs (rw (n, filter_map) at m)
  | inr (c, n) ↦ elim (Memᴰ.cases_cons (rw (n, filter_map) at m)) [
    | inl e ↦ (x, n ∙ rw e refl)
    | inr t ↦ filter_map-mem f xs t
  ]
]

governance_of-IsSound :
    (crates : Crates) (index : RuleIndex) (impact : Value) (i : RequirementInstance)
    → governance_of crates impact ≡ some i
    → IsSound index i
unfolding governance_of
governance_of-IsSound crates index impact i e = elim (Option-cases (string_field impact "signal")) [
  | inl n ↦ cc (rw (n, governance_of) at e)
  | inr (signal, n) ↦
      let bindings = string_map (get impact "bindings") in
      let q : impact_governance_instance crates signal bindings ≡ i =
        cc (rw (n, governance_of) at e) in
      subst (IsSound index) q (governance-IsSound crates index signal bindings)
]

pub governances-AllSound :
    (crates : Crates) (index : RuleIndex) (assessment : Value)
    → AllSound index (impact_governance_instances crates assessment)
unfolding impact_governance_instances
governances-AllSound crates index assessment i m =
    let (impact, e) = filter_map-mem (governance_of crates) _ m in
    governance_of-IsSound crates index impact i e

chosen-IsSound :
    (index : RuleIndex) (b : Bool) (i j : RequirementInstance)
    → IsSound index i
    → IsSound index j
    → IsSound index (if b then i else j)
chosen-IsSound index true i j h k = h
chosen-IsSound index false i j h k = k

pub applicability-IsSound :
    (crates : Crates) (index : RuleIndex) (snapshot : ProjectSnapshot) (candidate : SignalCandidate)
    → IsSound index (applicability_review crates snapshot candidate)
unfolding applicability_review signal_applicability_review_instance
applicability-IsSound crates index snapshot candidate =
    chosen-IsSound index _ _ _ (inl refl, inl refl, λ b m. elim m [ ])
      (inl refl, inr refl, λ b m. elim m [ ])

revalidation-IsSound :
    (crates : Crates) (index : RuleIndex) (clause : ClauseHealth)
    → IsSound index (contract_revalidation_instance crates clause)
unfolding contract_revalidation_instance
revalidation-IsSound crates index clause = (inr refl, inr refl, λ b m. elim m [ ])

pub revalidations-AllSound :
    (crates : Crates) (index : RuleIndex) (health : ContractHealthReport)
    (selected : List RequirementInstance)
    → AllSound index (contract_revalidation_instances crates health selected)
unfolding contract_revalidation_instances
revalidations-AllSound crates index health selected i m =
    let (clause, n, e) = mem-map (contract_revalidation_instance crates) _ m in
    subst (IsSound index) e (revalidation-IsSound crates index clause)

pub explicit-IsSound :
    (crates : Crates) (index : RuleIndex) (health : ContractHealthReport) (reference : String)
    → Returns (IsSound index) (explicit_instance crates health reference)
unfolding explicit_instance contract_revalidation_instance
explicit-IsSound crates index health reference =
    elim (Option-cases
      (find (λ (clause : ClauseHealth). clause.clause_ref == reference) health.clauses)) [
        | inl n ↦ rw (n, explicit_instance) fails
        | inr (clause, n) ↦ elim (Bool-cases (clause.evidence_mode == "review")) [
          | inl r ↦ rw (n, explicit_instance) (rw r fails)
          | inr r ↦
              rw (n, explicit_instance) (rw r (returns (inr refl, inr refl, λ b m. elim m [ ])))
        ]
      ]
