-- ===== src/Kernel/Activated.antt =====
-- Every active rule gives an instance (`instantiate` of src/kernel.rs).
use mathlib.Core.List.Memᴰ
use agentic_development_fram.Base.{
  String, true, ◌≡◌, refl, sym, subst, inl, inr, Option, none, some, List, [], ◌∷◌, map, Memᴰ, ok,
  >>=-eq-ok, ok_or, ok_or-eq-ok, try_map, Returns-ok, map-mem, Bool-cases, if◌then◌else◌,
}
use agentic_development_fram.Base.Order.{sort}
use agentic_development_fram.Base.Map
use agentic_development_fram.Base.Map.{Map, get-insert, get-mem}
use agentic_development_fram.Detection.Types.{SignalCandidate}
use agentic_development_fram.Rules.Types.{RequirementDefinition, ActivationRule, RuleIndex}
use agentic_development_fram.Kernel.Types.{ProjectSnapshot, RequirementInstance}
use agentic_development_fram.Kernel.Instances.{values}
use agentic_development_fram.Kernel.Selection.{
  new_instance, resolve_subject, is_activated, join_key, select_rule, select_rules,
  select_candidates, instantiate,
}
use agentic_development_fram.Kernel.Merged.{AreSelected}
use agentic_development_fram.Kernel.Selected.{select_candidates-AreSelected}
use agentic_development_fram.Kernel.Held.{IsHeld, merge-IsHeld}

-- What a rule gives: its requirement is known, its subjects resolve, and the instance of both is
-- held.
record IsGiven (snapshot : ProjectSnapshot) (index : RuleIndex) (candidate : Option SignalCandidate)
    (rule : ActivationRule) (selected : Map RequirementInstance) : Type 0 where
  definition : RequirementDefinition
  known : Map.get rule.requirement_id index.requirements ≡ some definition
  subjects : List String
  resolved : try_map (resolve_subject snapshot candidate) rule.subjects ≡ ok subjects
  given :
      IsHeld (join_key definition.id (sort subjects)) definition.definition_digest rule.id selected

module _ (snapshot : ProjectSnapshot) (index : RuleIndex) where
  -- The later selection keeps what is held.
  abbrev Keeps : Map RequirementInstance → Map RequirementInstance → Type 0
  Keeps selected selected' =
      (key digest r : String) → IsHeld key digest r selected → IsHeld key digest r selected'

  IsGiven-kept :
      (candidate : Option SignalCandidate) (rule : ActivationRule)
      {selected selected' : Map RequirementInstance}
      → Keeps selected selected'
      → IsGiven snapshot index candidate rule selected
      → IsGiven snapshot index candidate rule selected'
  IsGiven-kept candidate rule k g = record {
    definition = g.definition;
    known = g.known;
    subjects = g.subjects;
    resolved = g.resolved;
    given = k _ _ _ g.given;
  }

  select_rule-IsGiven :
      (candidate : Option SignalCandidate) (rule : ActivationRule)
      (selected : Map RequirementInstance) {selected' : Map RequirementInstance}
      → select_rule snapshot index candidate rule selected ≡ ok selected'
      → IsGiven snapshot index candidate rule selected' × Keeps selected selected'
  unfolding select_rule new_instance
  select_rule-IsGiven candidate rule selected e =
      let (definition, f, g) =
        >>=-eq-ok (ok_or (Map.get rule.requirement_id index.requirements) _) _ e in
      let (subjects, r, h) =
        >>=-eq-ok (try_map (resolve_subject snapshot candidate) rule.subjects) _ g in
      let (held, kept) =
        merge-IsHeld rule.id
          (new_instance definition (sort subjects) (join_key definition.id (sort subjects)) rule.id)
          selected (Memᴰ.head refl) h in
      (
        record {
          definition = definition;
          known = ok_or-eq-ok (Map.get rule.requirement_id index.requirements) _ f;
          subjects = subjects;
          resolved = r;
          given = held;
        },
        kept,
      )

  select_rules-IsGiven :
      (candidate : Option SignalCandidate) (rules : List ActivationRule)
      (selected : Map RequirementInstance) {selected' : Map RequirementInstance}
      → select_rules snapshot index candidate rules selected ≡ ok selected'
      → ((rule : ActivationRule)
          → Memᴰ rule rules
          → is_activated snapshot candidate rule ≡ true
          → IsGiven snapshot index candidate rule selected')
        × Keeps selected selected'
  unfolding select_rules
  select_rules-IsGiven candidate [] selected e =
      let q : selected ≡ _ = cc e in
      (λ rule m. elim m [ ], λ key digest r h. subst (IsHeld key digest r) q h)
  select_rules-IsGiven candidate (r ∷ rules) selected {selected'} e =
      let (middle, f, g) =
        >>=-eq-ok
          (if is_activated snapshot candidate r
            then select_rule snapshot index candidate r selected
            else ok selected)
          _ e in
      let (given, kept) = select_rules-IsGiven candidate rules middle g in
      elim (Bool-cases (is_activated snapshot candidate r)) [
        | inl active ↦
            let (first, held) = select_rule-IsGiven candidate r selected (rw active at f) in
            (
              λ rule m a. elim (Memᴰ.cases_cons m) [
                | inl q ↦
                    subst (λ rule. IsGiven snapshot index candidate rule selected') (sym q)
                      (IsGiven-kept candidate r kept first)
                | inr t ↦ given rule t a
              ],
              λ key digest s h. kept key digest s (held key digest s h),
            )
        | inr passive ↦
            let q : selected ≡ middle = cc (rw passive at f) in
            (
              λ rule m a. elim (Memᴰ.cases_cons m) [
                | inl p ↦ cc (rw p at a, passive)
                | inr t ↦ given rule t a
              ],
              λ key digest s h. kept key digest s (subst (IsHeld key digest s) q h),
            )
      ]

  select_candidates-IsGiven :
      (candidates : List (Option SignalCandidate)) (selected : Map RequirementInstance)
      {selected' : Map RequirementInstance}
      → select_candidates snapshot index candidates selected ≡ ok selected'
      → ((candidate : Option SignalCandidate) (rule : ActivationRule)
          → Memᴰ candidate candidates
          → Memᴰ rule index.rules
          → is_activated snapshot candidate rule ≡ true
          → IsGiven snapshot index candidate rule selected')
        × Keeps selected selected'
  unfolding select_candidates
  select_candidates-IsGiven [] selected e =
      let q : selected ≡ _ = cc e in
      (λ candidate rule m. elim m [ ], λ key digest r h. subst (IsHeld key digest r) q h)
  select_candidates-IsGiven (c ∷ candidates) selected {selected'} e =
      let (middle, f, g) = >>=-eq-ok (select_rules snapshot index c index.rules selected) _ e in
      let (first, held) = select_rules-IsGiven c index.rules selected f in
      let (given, kept) = select_candidates-IsGiven candidates middle g in
      (
        λ candidate rule m r a. elim (Memᴰ.cases_cons m) [
          | inl q ↦
              subst (λ candidate. IsGiven snapshot index candidate rule selected') (sym q)
                (IsGiven-kept c rule kept
                  (first rule r (subst (λ c. is_activated snapshot c rule ≡ true) q a)))
          | inr t ↦ given candidate rule t r a
        ],
        λ key digest s h. kept key digest s (held key digest s h),
      )

-- What an active rule gives the instances: one with the key of its requirement and its subjects,
-- of the requirement's definition, which names the rule.
pub record IsActivated (snapshot : ProjectSnapshot) (index : RuleIndex)
    (candidate : Option SignalCandidate) (rule : ActivationRule)
    (instances : List RequirementInstance) : Type 0 where
  pub definition : RequirementDefinition
  pub known : Map.get rule.requirement_id index.requirements ≡ some definition
  pub subjects : List String
  pub resolved : try_map (resolve_subject snapshot candidate) rule.subjects ≡ ok subjects
  pub instance_of : RequirementInstance
  pub listed : Memᴰ instance_of instances
  pub of_definition : instance_of.definition_digest ≡ definition.definition_digest
  pub of_key : instance_of.instance_key ≡ join_key definition.id (sort subjects)
  pub by_rule : Memᴰ rule.id instance_of.selected_by

pub instantiate-IsActivated :
    (snapshot : ProjectSnapshot) (index : RuleIndex) (confirmed : List SignalCandidate)
    {instances : List RequirementInstance}
    → instantiate snapshot index confirmed ≡ ok instances
    → (candidate : Option SignalCandidate) (rule : ActivationRule)
    → Memᴰ candidate (none ∷ map some confirmed)
    → Memᴰ rule index.rules
    → is_activated snapshot candidate rule ≡ true
    → IsActivated snapshot index candidate rule instances
unfolding instantiate
instantiate-IsActivated snapshot index confirmed {instances} e candidate rule m r a =
    let candidates = none ∷ map some confirmed in
    let (selected, f, g) = >>=-eq-ok (select_candidates snapshot index candidates []) _ e in
    let q : values selected ≡ instances = cc g in
    let (all_given, kept) = select_candidates-IsGiven snapshot index candidates [] f in
    let given = all_given candidate rule m r a in
    let key = join_key given.definition.id (sort given.subjects) in
    let entry = (get-mem key selected given.given.found).0 in
    let named =
      Returns-ok (AreSelected snapshot index candidates)
        (select_candidates-AreSelected snapshot index candidates candidates [] (λ c k. k)
          (λ e k. elim k [ ]))
        f in
    record {
      definition = given.definition;
      known = given.known;
      subjects = given.subjects;
      resolved = given.resolved;
      instance_of = given.given.held;
      listed =
          subst (λ l. Memᴰ given.given.held l) q
            (map-mem (λ (e : String × RequirementInstance). e.1) selected entry);
      of_definition = given.given.of_definition;
      of_key = (named (key, given.given.held) entry).0;
      by_rule = given.given.by_rule;
    }

-- If the Rules are applied without an error, then for each rule that is active for no candidate or
-- for a confirmed one, the requirement is known and the subjects resolve, and there is an instance
-- of this definition with the key that the requirement and the sorted subjects make.
pub instantiate_complete :
    (snapshot : ProjectSnapshot) (index : RuleIndex) (confirmed : List SignalCandidate)
    {instances : List RequirementInstance}
    → instantiate snapshot index confirmed ≡ ok instances
    → (candidate : Option SignalCandidate) (rule : ActivationRule)
    → Memᴰ candidate (none ∷ map some confirmed)
    → Memᴰ rule index.rules
    → is_activated snapshot candidate rule ≡ true
    → (definition : RequirementDefinition) × (subjects : List String) × (Map.get rule.requirement_id
          index.requirements
        ≡ some definition)
      × (try_map (resolve_subject snapshot candidate) rule.subjects ≡ ok subjects)
      × ((i : RequirementInstance) × Memᴰ i instances
          × (i.definition_digest ≡ definition.definition_digest)
          × (i.instance_key ≡ join_key definition.id (sort subjects)))
instantiate_complete snapshot index confirmed e candidate rule m r a =
    let given = instantiate-IsActivated snapshot index confirmed e candidate rule m r a in
    (
      given.definition,
      given.subjects,
      given.known,
      given.resolved,
      (given.instance_of, given.listed, given.of_definition, given.of_key),
    )
