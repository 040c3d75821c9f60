-- ===== src/Rules/Decides.antt =====
-- `assert_acyclic` of src/rules.rs decides whether the dependencies are acyclic.
use agentic_development_fram.Base.{
  String, suc, ◌≡◌, refl, ap, ◌↔◌, [], ◌∷◌, length, Memᴰ, ok, err, Result-cases, Option-cases,
  arith, inl, inr,
}
use agentic_development_fram.Base.Map
use agentic_development_fram.Base.Map.{Map, get-mem}
use agentic_development_fram.Rules.Types.{RequirementDefinition}
use agentic_development_fram.Rules.Cycles.{
  VisitError, cycle, out_of_fuel, Marks, depends_on, keys, no_marks, search_cycle,
}
use agentic_development_fram.Rules.Requirements.{assert_acyclic}
use agentic_development_fram.Rules.Acyclic.{
  DependsOn, IsClosed, Leads, one, more, IsFinished-acyclic,
}
use agentic_development_fram.Rules.Search.{visit-Extends, visit_all-Extends}
use agentic_development_fram.Rules.Reports.{IsReport, visit-report, visit_all-IsReport}

length-keys : {V : Type 0} (m : Map V) → length (keys m) ≡ length m
length-keys [] = refl
length-keys ((k, v) ∷ m) = ap suc (length-keys m)

module _ (requirements : Map RequirementDefinition) where
  depends_on-key : (a b : String) → DependsOn requirements a b → Memᴰ a (keys requirements)
  unfolding depends_on
  depends_on-key a b e = elim (Option-cases (Map.get a requirements)) [
    | inl n ↦ elim (rw (n, depends_on) at e) [ ]
    | inr (d, q) ↦ (get-mem a requirements q).1
  ]

  Leads-key : {a b : String} → Leads requirements a b → Memᴰ a (keys requirements)
  Leads-key {a} {b} (one e) = depends_on-key a b e
  Leads-key {a} (more {b = c} e l) = depends_on-key a c e

  search_cycle-ok :
      {m : Marks} → search_cycle requirements ≡ ok m → (a : String) → ¬ Leads requirements a a
  unfolding search_cycle
  search_cycle-ok {m} e a l =
      let (x, n) =
        visit_all-Extends requirements _ (visit-Extends requirements _) (keys requirements) no_marks
          m e tt in
      IsFinished-acyclic requirements m.visited x.finished a (n a (Leads-key l)) l

  search_cycle-err :
      IsClosed requirements
      → {e : VisitError} → search_cycle requirements ≡ err e
      → IsReport requirements e
  unfolding search_cycle
  search_cycle-err closed {e} r =
      visit_all-IsReport requirements _ (visit-report requirements closed _) (keys requirements)
        no_marks e r tt
        (λ d m. record {
          leads = λ v n. elim n [ ];
          known = λ v n. elim n [ ];
          here = m;
          distinct = tt;
          enough = omega (arith, length-keys requirements);
        })

  -- Where every dependency is a known requirement, `assert_acyclic` accepts if and only if no
  -- requirement leads back to itself along its dependencies.
  pub assert_acyclic_iff :
      IsClosed requirements
      → (assert_acyclic requirements ≡ ok tt) ↔ ((a : String) → ¬ Leads requirements a a)
  unfolding assert_acyclic
  assert_acyclic_iff closed = (
    λ e. elim (Result-cases (search_cycle requirements)) [
      | inl (m, q) ↦ search_cycle-ok q
      | inr (x, q) ↦ ground (arith, e, q)
    ],
    λ acyclic. elim (Result-cases (search_cycle requirements)) [
      | inl (m, q) ↦ rw (q, assert_acyclic) refl
      | inr (x, q) ↦ absurd (found x (search_cycle-err closed q) acyclic)
    ],
  )
    where
      found :
          (x : VisitError) → IsReport requirements x → ((a : String) → ¬ Leads requirements a a) → ⊥
      found (cycle a) l h = h a l
      found out_of_fuel l h = l
