-- ===== src/Kernel/Collected.antt =====
-- What `evaluate_with_health` of src/kernel.rs collects is sound.
use mathlib.Core.List.{foldl}
use mathlib.Core.List.Memᴰ
use agentic_development_fram.Base.{
  ◌≡◌, refl, sym, subst, inl, inr, Option, none, some, List, [], ◌∷◌, ◌++◌, map, Memᴰ, mem-map,
  filter-mem, append-mem, Result, ok, >>=-eq-ok, Returns, Returns-ok, map_err, map_err-eq-ok,
  filter, try_map, ◌==◌, is_empty, Bool-cases,
}
use agentic_development_fram.Base.Order.{sort_by}
use agentic_development_fram.Base.Order.Sorted.{sort_by-mem}
use agentic_development_fram.Json.Canonical.{Crates}
use agentic_development_fram.Json.Value.{Value, nested_array}
use agentic_development_fram.Contracts.Health.{ContractHealthReport}
use agentic_development_fram.Schema.Registry.{SchemaRegistry}
use agentic_development_fram.Detection.Types.{DetectionReport, SignalCatalogRegistry}
use agentic_development_fram.Rules.Types.{RuleIndex}
use agentic_development_fram.Rules.Index.{IsCompiled}
use agentic_development_fram.Kernel.Types.{ProjectSnapshot, RequirementInstance}
use agentic_development_fram.Kernel.Freshness.{fresh_impact_assessment}
use agentic_development_fram.Kernel.Instances.{
  impact_governance_instances, contract_revalidation_instances, explicit_instance,
  explicit_contract_verification_instances,
}
use agentic_development_fram.Kernel.Selection.{instantiate}
use agentic_development_fram.Kernel.Selected.{instantiate-IsSelected}
use agentic_development_fram.Kernel.Collect.{
  applicability_review, add_explicit, add_contract_instances, collect_instances, instance_le,
  confirmed_candidates, is_retained, denied_candidates,
}
use agentic_development_fram.Kernel.Sound.{
  IsSound, AllSound, selected-IsSound, governances-AllSound, applicability-IsSound,
  revalidations-AllSound, explicit-IsSound,
}

try_map-all :
    {E A B : Type 0} (P : B → Type 0) (f : A → Result E B) (xs : List A)
    → ((a : A) → Returns P (f a))
    → {ys : List B} → try_map f xs ≡ ok ys
    → (b : B) → Memᴰ b ys
    → P b
try_map-all P f [] h {ys} e b m =
    let q : [] ≡ ys = cc e in elim (subst (λ l. Memᴰ b l) (sym q) m) [ ]
try_map-all P f (x ∷ xs) h {ys} e b m =
    let (y, e₁, e₂) = >>=-eq-ok (f x) _ e in
    let (rest, e₃, e₄) = >>=-eq-ok (try_map f xs) _ e₂ in
    let q : (y ∷ rest) ≡ ys = cc e₄ in
    elim (Memᴰ.cases_cons (subst (λ l. Memᴰ b l) (sym q) m)) [
      | inl p ↦ subst P (sym p) (Returns-ok P (h x) e₁)
      | inr t ↦ try_map-all P f xs h e₃ b t
    ]

add_explicit-AllSound :
    (index : RuleIndex) (instances : List RequirementInstance) (explicit : RequirementInstance)
    → AllSound index instances
    → IsSound index explicit
    → AllSound index (add_explicit instances explicit)
unfolding add_explicit
add_explicit-AllSound index [] explicit h k i m = elim (Memᴰ.cases_cons m) [
  | inl e ↦ subst (IsSound index) (sym e) k
  | inr t ↦ elim t [ ]
]
add_explicit-AllSound index (x ∷ rest) explicit h k i m =
    elim (Bool-cases (x.instance_key == explicit.instance_key)) [
      | inl e ↦ elim (Memᴰ.cases_cons (rw e at m)) [
        | inl q ↦ subst (IsSound index) (sym q) (h x (Memᴰ.head refl))
        | inr t ↦ h i (Memᴰ.tail t)
      ]
      | inr e ↦ elim (Memᴰ.cases_cons (rw e at m)) [
        | inl q ↦ subst (IsSound index) (sym q) (h x (Memᴰ.head refl))
        | inr t ↦ add_explicit-AllSound index rest explicit (λ j n. h j (Memᴰ.tail n)) k i t
      ]
    ]

add_all-AllSound :
    (index : RuleIndex) (explicits instances : List RequirementInstance)
    → AllSound index instances
    → AllSound index explicits
    → AllSound index (foldl add_explicit instances explicits)
add_all-AllSound index [] instances h k = h
add_all-AllSound index (x ∷ explicits) instances h k =
    add_all-AllSound index explicits (add_explicit instances x)
      (add_explicit-AllSound index instances x h (k x (Memᴰ.head refl))) (λ j n. k j (Memᴰ.tail n))

append-AllSound :
    (index : RuleIndex) (xs ys : List RequirementInstance)
    → AllSound index xs
    → AllSound index ys
    → AllSound index (xs ++ ys)
append-AllSound index xs ys h k i m = elim (append-mem xs ys m) [ inl n ↦ h i n | inr n ↦ k i n ]

add_contract-AllSound :
    (crates : Crates) (index : RuleIndex) (snapshot : ProjectSnapshot)
    (health : Option ContractHealthReport) (instances : List RequirementInstance)
    {all : List RequirementInstance}
    → AllSound index instances
    → add_contract_instances crates snapshot health instances ≡ ok all
    → AllSound index all
unfolding add_contract_instances explicit_contract_verification_instances
add_contract-AllSound crates index snapshot none instances h e =
    elim (Bool-cases (is_empty (nested_array snapshot.change ("verification_scope" ∷ [])))) [
      | inl n ↦ let q : instances ≡ _ = cc (rw n at e) in subst (AllSound index) q h
      | inr n ↦ cc (rw n at e)
    ]
add_contract-AllSound crates index snapshot (some health) instances {all} h e =
    let extended = instances ++ contract_revalidation_instances crates health instances in
    let (explicit, f, g) =
      >>=-eq-ok
        (map_err (λ e. (extended, e))
          (explicit_contract_verification_instances crates health snapshot.change))
        _ e in
    let q : foldl add_explicit extended explicit ≡ all = cc g in
    subst (AllSound index) q (
      add_all-AllSound index explicit extended
        (append-AllSound index instances _ h (revalidations-AllSound crates index health instances))
        (try_map-all (IsSound index) (explicit_instance crates health) _
          (explicit-IsSound crates index health)
          (map_err-eq-ok _ (explicit_contract_verification_instances crates health snapshot.change)
            f)))

governing-AllSound :
    (crates : Crates) (index : RuleIndex) (o : Option Value)
    → AllSound index
        (elim o [ none ↦ [] | some assessment ↦ impact_governance_instances crates assessment ])
governing-AllSound crates index none = λ i m. elim m [ ]
governing-AllSound crates index (some assessment) = governances-AllSound crates index assessment

-- The instances of an index that the Rule Compiler has made are sound.
pub collect-AllSound :
    (schemas : SchemaRegistry) (index : RuleIndex)
    → IsCompiled schemas index
    → (crates : Crates) (registry : SignalCatalogRegistry) (snapshot : ProjectSnapshot)
      (detection : DetectionReport) (health : Option ContractHealthReport)
      {collected : List RequirementInstance}
    → collect_instances crates registry snapshot index detection health ≡ ok collected
    → AllSound index collected
unfolding collect_instances
collect-AllSound schemas index compiled crates registry snapshot detection health {collected} e =
    let confirmed = confirmed_candidates crates registry snapshot detection in
    let (instances, f, g) = >>=-eq-ok (map_err _ (instantiate snapshot index confirmed)) _ e in
    let (all, k, l) = >>=-eq-ok (add_contract_instances crates snapshot health _) _ g in
    let q : sort_by instance_le all ≡ collected = cc l in
    let given : AllSound index instances = λ i m.
      selected-IsSound schemas index compiled snapshot (none ∷ map some confirmed) i (
        instantiate-IsSelected snapshot index confirmed
          (map_err-eq-ok _ (instantiate snapshot index confirmed) f) i m) in
    let sound =
      add_contract-AllSound crates index snapshot health _
        (append-AllSound index (filter (is_retained snapshot) instances) _
          (λ i m. given i (filter-mem (is_retained snapshot) instances m).0)
          (append-AllSound index _ _
            (governing-AllSound crates index (fresh_impact_assessment snapshot))
            (λ i m.
              let (c, n, p) =
                mem-map (applicability_review crates snapshot)
                  (denied_candidates snapshot detection) m in
              subst (IsSound index) p (applicability-IsSound crates index snapshot c))))
        k in
    λ i m. sound i (sort_by-mem instance_le all (subst (λ l. Memᴰ i l) (sym q) m))
