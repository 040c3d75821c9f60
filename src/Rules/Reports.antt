-- ===== src/Rules/Reports.antt =====
-- The cycle search of src/rules.rs reports only ids on a cycle, and has fuel enough.
use agentic_development_fram.Base.{
  String, ℕ, zero, suc, ◌+◌, ◌<◌, false, ◌≡◌, refl, List, [], ◌∷◌, length, Memᴰ, err, >>=-eq-err,
  Bool-cases, Result-cases, arith, inl, inr,
}
use agentic_development_fram.Base.Map.{Map}
use agentic_development_fram.Base.Pigeon.{Distinct, Distinct-length}
use agentic_development_fram.Contracts.Scope.{member}
use agentic_development_fram.Rules.Types.{RequirementDefinition}
use agentic_development_fram.Rules.Cycles.{
  VisitError, cycle, out_of_fuel, Marks, depends_on, visit_all, visit, enter, keys,
}
use agentic_development_fram.Rules.Acyclic.{
  member-mem, mem-member, DependsOn, Leads, one, Leads-snoc,
}
use agentic_development_fram.Rules.Search.{visit-Extends}
use agentic_development_fram.Rules.Acyclic.{IsFinished, IsClosed}

module _ (requirements : Map RequirementDefinition) where
  -- What an error says: the id leads back to itself, and the fuel has not run out.
  abbrev pub IsReport : VisitError → Type 0
  IsReport (cycle x) = Leads requirements x x
  IsReport out_of_fuel = ⊥

  -- The path to `id`: distinct ids of the index, each of which leads to `id`; with the fuel, it is
  -- longer than the index is large.
  pub record IsPath (fuel : ℕ) (id : String) (visiting : List String) : Type 0 where
    pub leads : (v : String) → Memᴰ v visiting → Leads requirements v id
    pub known : (v : String) → Memᴰ v visiting → Memᴰ v (keys requirements)
    pub here : Memᴰ id (keys requirements)
    pub distinct : Distinct visiting
    pub enough : length (keys requirements) < fuel + length visiting

  deeper :
      IsClosed requirements
      → (fuel : ℕ) (id : String) (visiting : List String) → member id visiting ≡ false
      → IsPath (suc fuel) id visiting
      → (d : String) → DependsOn requirements id d
      → IsPath fuel d (id ∷ visiting)
  deeper closed fuel id visiting fresh p d e = record {
    leads = leads_on;
    known = known_on;
    here = closed id d e;
    distinct = (λ m. cc (fresh, mem-member id visiting m), p.distinct);
    enough = omega (arith, p.enough);
  }
    where
      leads_on : (v : String) → Memᴰ v (id ∷ visiting) → Leads requirements v d
      leads_on v (Memᴰ.head q) = rw q (one e)
      leads_on v (Memᴰ.tail m) = Leads-snoc requirements (p.leads v m) e

      known_on : (v : String) → Memᴰ v (id ∷ visiting) → Memᴰ v (keys requirements)
      known_on v (Memᴰ.head q) = rw q p.here
      known_on v (Memᴰ.tail m) = p.known v m

  abbrev pub Reports : ℕ → Type 0
  Reports fuel =
      (id : String) (m : Marks) (e : VisitError)
      → visit requirements fuel id m ≡ err e
      → IsFinished requirements m.visited
      → IsPath fuel id m.visiting
      → IsReport e

  pub visit_all-IsReport :
      (fuel : ℕ)
      → Reports fuel
      → (ids : List String) (m : Marks) (e : VisitError)
      → visit_all (visit requirements fuel) ids m ≡ err e
      → IsFinished requirements m.visited
      → ((d : String) → Memᴰ d ids → IsPath fuel d m.visiting)
      → IsReport e
  unfolding visit_all
  visit_all-IsReport fuel h [] m e r f p = cc
  visit_all-IsReport fuel h (id ∷ ids) m e r f p =
      elim (Result-cases (visit requirements fuel id m)) [
        | inr (x, q) ↦
            let s : x ≡ e = cc (rw q at r) in rw (← s) (h id m x q f (p id (Memᴰ.head refl)))
        | inl (m₁, q) ↦
            let after = (visit-Extends requirements fuel id m m₁ q f).0 in
            visit_all-IsReport fuel h ids m₁ e (rw q at r) after.finished
              (λ d n. rw after.path_kept (p d (Memᴰ.tail n)))
      ]

  pub visit-report : IsClosed requirements → (fuel : ℕ) → Reports fuel
  unfolding visit
  visit-report closed zero id m e r f p =
      let short = Distinct-length m.visiting (keys requirements) p.distinct p.known in
      absurd (omega (arith, short, p.enough))
  visit-report closed (suc fuel) id m e r f p = elim (Bool-cases (member id m.visiting)) [
    | inl open_path ↦
        let s : cycle id ≡ e = cc (rw open_path at r) in
        rw (← s) (p.leads id (member-mem id m.visiting open_path))
    | inr fresh ↦ elim (Bool-cases (member id m.visited)) [
      | inl done ↦ cc (rw (fresh, done) at r)
      | inr left ↦
          visit_all-IsReport fuel (visit-report closed fuel) (depends_on requirements id)
            (enter id m) e (>>=-eq-err _ _ (λ m' q. cc q) (rw (fresh, left) at r)) f
            (deeper closed fuel id m.visiting fresh p)
    ]
  ]
