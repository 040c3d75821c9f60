-- ===== src/Contracts/Gate/Passed.antt =====
-- When the gate passes (`ContractHealthGateReport::build` of src/contract_health_gate.rs).
use agentic_development_fram.Base.{
  String, Bool, true, false, List, [], ◌∷◌, ◌≡◌, refl, ◌↔◌, Memᴰ, filter, is_empty, map,
  if◌then◌else◌, inl, inr, filter-mem, is_empty-filter, ◌==◌, sym, ◌∙◌, ap, List-cases,
}
use agentic_development_fram.Contracts.Scope.{member}
use agentic_development_fram.Contracts.Members.{member-mem, mem-member}
use agentic_development_fram.Contracts.Health.{ClauseHealth, ContractHealthReport}
use agentic_development_fram.Contracts.Gate.{ContractHealthPolicy, build, passed}

abbrev blocks : ContractHealthPolicy → ClauseHealth → Bool
blocks policy clause = member clause.status policy.fail_on

map-empty : {A B : Type 0} (f : A → B) (xs : List A) → is_empty (map f xs) ≡ is_empty xs
map-empty f [] = refl
map-empty f (x ∷ xs) = refl

status-passed : (b : Bool) → ((if b then "passed" else "failed") == "passed") ≡ b
status-passed true = refl
status-passed false = refl

passed-empty :
    (path : String) (policy : ContractHealthPolicy) (health : ContractHealthReport)
    → passed (build path policy health) ≡ is_empty (filter (blocks policy) health.clauses)
unfolding build passed
passed-empty path policy health =
    status-passed (
      is_empty (
        map (λ (clause : ClauseHealth). clause.clause_ref) (filter (blocks policy) health.clauses)))
    ∙ map-empty (λ (clause : ClauseHealth). clause.clause_ref)
        (filter (blocks policy) health.clauses)

-- The gate passes exactly if no clause of the report has a status on which the policy fails.
pub passed_iff :
    (path : String) (policy : ContractHealthPolicy) (health : ContractHealthReport)
    → (passed (build path policy health) ≡ true)
      ↔ ((clause : ClauseHealth) → Memᴰ clause health.clauses → ¬ Memᴰ clause.status policy.fail_on)
passed_iff path policy health = (
  λ h clause m n.
      let e =
        is_empty-filter (blocks policy) health.clauses (sym (passed-empty path policy health) ∙ h)
          m in
      cc (e, mem-member clause.status policy.fail_on n),
  λ h. elim (List-cases (filter (blocks policy) health.clauses)) [
    | inl e ↦ passed-empty path policy health ∙ ap is_empty e
    | inr (clause, rest, e) ↦
        let (m, b) = filter-mem (blocks policy) health.clauses (rw e (Memᴰ.head refl)) in
        absurd (h clause m (member-mem clause.status policy.fail_on b))
  ],
)
