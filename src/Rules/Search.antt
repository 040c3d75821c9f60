-- ===== src/Rules/Search.antt =====
-- One visit of the cycle search of src/rules.rs: what it leaves in the marks.
use agentic_development_fram.Base.{
  String, ℕ, zero, suc, ◌≡◌, refl, ◌∙◌, List, [], ◌∷◌, Memᴰ, Result, ok, >>=-eq-ok, Bool-cases, inl,
  inr,
}
use agentic_development_fram.Base.Map.{Map}
use agentic_development_fram.Contracts.Scope.{member}
use agentic_development_fram.Rules.Types.{RequirementDefinition}
use agentic_development_fram.Rules.Cycles.{
  VisitError, Marks, depends_on, visit_all, visit, enter, leave,
}
use agentic_development_fram.Rules.Acyclic.{member-mem, leave-enter, IsFinished}

module _ (requirements : Map RequirementDefinition) where
  -- What a visit leaves: the path as it was, and more finished ids in their order.
  pub record Extends (before after : Marks) : Type 0 where
    pub path_kept : after.visiting ≡ before.visiting
    pub finished : IsFinished requirements after.visited
    pub kept : (x : String) → Memᴰ x before.visited → Memᴰ x after.visited

  abbrev pub Visits : (String → Marks → Result VisitError Marks) → Type 0
  Visits visit_one =
      (id : String) (m m' : Marks)
      → visit_one id m ≡ ok m'
      → IsFinished requirements m.visited
      → Extends m m' × Memᴰ id m'.visited

  pub visit_all-Extends :
      (visit_one : String → Marks → Result VisitError Marks)
      → Visits visit_one
      → (ids : List String) (m m' : Marks) → visit_all visit_one ids m ≡ ok m'
      → IsFinished requirements m.visited
      → Extends m m' × ((id : String) → Memᴰ id ids → Memᴰ id m'.visited)
  unfolding visit_all
  visit_all-Extends visit_one h [] m m' e f =
      let q : m ≡ m' = cc e in
      (rw (← q) (record { path_kept = refl; finished = f; kept = λ x n. n }), λ id n. elim n [ ])
  visit_all-Extends visit_one h (id ∷ ids) m m' e f =
      let (m₁, e₁, e₂) = >>=-eq-ok (visit_one id m) _ e in
      let (x₁, n₁) = h id m m₁ e₁ f in
      let (x₂, n₂) = visit_all-Extends visit_one h ids m₁ m' e₂ x₁.finished in
      (
        record {
          path_kept = x₂.path_kept ∙ x₁.path_kept;
          finished = x₂.finished;
          kept = λ x n. x₂.kept x (x₁.kept x n);
        },
        all_there id ids m₁ m' n₁ x₂ n₂,
      )
    where
      all_there :
          (id : String) (ids : List String) (m₁ m' : Marks)
          → Memᴰ id m₁.visited
          → Extends m₁ m'
          → ((j : String) → Memᴰ j ids → Memᴰ j m'.visited)
          → (j : String) → Memᴰ j (id ∷ ids)
          → Memᴰ j m'.visited
      all_there id ids m₁ m' n x later j (Memᴰ.head q) = rw q (x.kept id n)
      all_there id ids m₁ m' n x later j (Memᴰ.tail k) = later j k

  pub visit-Extends : (fuel : ℕ) → Visits (visit requirements fuel)
  unfolding visit
  visit-Extends zero id m m' e f = cc
  visit-Extends (suc fuel) id m m' e f = elim (Bool-cases (member id m.visiting)) [
    | inl open_path ↦ cc (rw open_path at e)
    | inr fresh ↦ elim (Bool-cases (member id m.visited)) [
      | inl done ↦
          let q : m ≡ m' = cc (rw (fresh, done) at e) in
          rw (← q) (
            record { path_kept = refl; finished = f; kept = λ x n. n },
            member-mem id m.visited done,
          )
      | inr left ↦
          let (m₁, e₁, e₂) =
            >>=-eq-ok
              (visit_all (visit requirements fuel) (depends_on requirements id) (enter id m)) _
              (rw (fresh, left) at e) in
          let (x, n) =
            visit_all-Extends (visit requirements fuel) (visit-Extends fuel)
              (depends_on requirements id) (enter id m) m₁ e₁ f in
          let q : leave id m₁ ≡ m' = cc e₂ in
          rw (← q) (
            record {
              path_kept = rw x.path_kept (leave-enter id m.visiting fresh);
              finished = (λ b d. n b d, x.finished);
              kept = λ y k. Memᴰ.tail (x.kept y k);
            },
            Memᴰ.head refl,
          )
    ]
  ]
