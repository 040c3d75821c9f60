-- ===== src/Kernel/Selected.antt =====
-- Every instance that the Rules give comes from an active rule and its requirement
-- (`instantiate` of src/kernel.rs).
use agentic_development_fram.Base.{
  true, ◌≡◌, refl, sym, subst, inl, inr, Option, none, some, List, [], ◌∷◌, map, Memᴰ, mem-map, ok,
  >>=-eq-ok, Returns, returns, Returns-bind, Returns-ok, ok_or, ok_or-eq-ok, try_map, Bool-cases,
  if◌then◌else◌,
}
use agentic_development_fram.Base.Order.{sort}
use agentic_development_fram.Base.Map
use agentic_development_fram.Base.Map.{Map, get-mem, mem-insert}
use agentic_development_fram.Detection.Types.{SignalCandidate}
use agentic_development_fram.Rules.Types.{ActivationRule, RuleIndex}
use agentic_development_fram.Kernel.Types.{ProjectSnapshot, RequirementInstance}
use agentic_development_fram.Kernel.Instances.{values}
use agentic_development_fram.Kernel.Selection.{
  new_instance, resolve_subject, is_activated, join_key, select_rule, select_rules,
  select_candidates, instantiate,
}
use agentic_development_fram.Kernel.Merged.{
  IsNamed, IsSelected, AreSelected, alone, merge-AreSelected,
}

module _ (snapshot : ProjectSnapshot) (index : RuleIndex)
    (candidates : List (Option SignalCandidate)) where
  select_rule-AreSelected :
      (candidate : Option SignalCandidate) (rule : ActivationRule)
      (selected : Map RequirementInstance)
      → Memᴰ candidate candidates
      → Memᴰ rule index.rules
      → is_activated snapshot candidate rule ≡ true
      → AreSelected snapshot index candidates selected
      → Returns
          (AreSelected snapshot index candidates)
          (select_rule snapshot index candidate rule selected)
  unfolding select_rule new_instance
  select_rule-AreSelected candidate rule selected c r active h =
      Returns-bind (ok_or (Map.get rule.requirement_id index.requirements) _) _ λ definition e.
        Returns-bind (try_map (resolve_subject snapshot candidate) rule.subjects) _ λ subjects f.
          let made =
            new_instance definition (sort subjects) (join_key definition.id (sort subjects))
              rule.id in
          let by : IsNamed snapshot index candidates made.instance_key rule.id = record {
            candidate = candidate;
            listed = c;
            rule = rule;
            ruled = r;
            named = refl;
            active = active;
            definition = definition;
            known = ok_or-eq-ok (Map.get rule.requirement_id index.requirements) _ e;
            subjects = subjects;
            resolved = f;
            of_key = refl;
          } in
          merge-AreSelected snapshot index candidates rule.id made selected h
            (record {
              candidate = candidate;
              listed = c;
              rule = rule;
              ruled = r;
              active = active;
              definition = definition;
              known = ok_or-eq-ok (Map.get rule.requirement_id index.requirements) _ e;
              of_requirement = refl;
              of_definition = refl;
              of_phase = refl;
              of_role = refl;
              of_schema = refl;
              of_dependencies = refl;
              of_context = refl;
              of_assurance = refl;
              subjects = subjects;
              resolved = f;
              of_subjects = refl;
              of_key = refl;
              named_by = alone snapshot index candidates rule.id made by;
              unsatisfied = refl;
            })
            by

  select_rules-AreSelected :
      (candidate : Option SignalCandidate) (rules : List ActivationRule)
      (selected : Map RequirementInstance)
      → Memᴰ candidate candidates
      → ((r : ActivationRule) → Memᴰ r rules → Memᴰ r index.rules)
      → AreSelected snapshot index candidates selected
      → Returns
          (AreSelected snapshot index candidates)
          (select_rules snapshot index candidate rules selected)
  unfolding select_rules
  select_rules-AreSelected candidate [] selected c r h = returns h
  select_rules-AreSelected candidate (rule ∷ rules) selected c r h =
      Returns-bind
        (if is_activated snapshot candidate rule
          then select_rule snapshot index candidate rule selected
          else ok selected)
        _
        λ selected' e.
          select_rules-AreSelected candidate rules selected' c (λ r' m. r r' (Memᴰ.tail m))
            (elim (Bool-cases (is_activated snapshot candidate rule)) [
              | inl active ↦
                  Returns-ok (AreSelected snapshot index candidates)
                    (select_rule-AreSelected candidate rule selected c (r rule (Memᴰ.head refl))
                      active h)
                    (rw active at e)
              | inr passive ↦
                  let q : selected ≡ selected' = cc (rw passive at e) in
                  subst (AreSelected snapshot index candidates) q h
            ])

  pub select_candidates-AreSelected :
      (some_candidates : List (Option SignalCandidate)) (selected : Map RequirementInstance)
      → ((c : Option SignalCandidate) → Memᴰ c some_candidates → Memᴰ c candidates)
      → AreSelected snapshot index candidates selected
      → Returns
          (AreSelected snapshot index candidates)
          (select_candidates snapshot index some_candidates selected)
  unfolding select_candidates
  select_candidates-AreSelected [] selected c h = returns h
  select_candidates-AreSelected (candidate ∷ rest) selected c h =
      Returns-bind (select_rules snapshot index candidate index.rules selected) _ λ selected' e.
        select_candidates-AreSelected rest selected' (λ d m. c d (Memᴰ.tail m))
          (Returns-ok (AreSelected snapshot index candidates)
            (select_rules-AreSelected candidate index.rules selected (c candidate (Memᴰ.head refl))
              (λ r m. m) h)
            e)

-- Every instance that the Rules give is of the requirement of a rule that is active for no
-- candidate or for one of the confirmed ones. It has the id, the definition digest, the phase, the
-- role, the result schema, the dependencies, the context and the assurance of this requirement in the
-- index, its subjects are those of the rule, resolved and sorted, its key is made of the requirement
-- and these subjects, and it is unsatisfied at first. Each rule that it names as selecting it is
-- active too, and selects an instance with its key.
pub instantiate-IsSelected :
    (snapshot : ProjectSnapshot) (index : RuleIndex) (confirmed : List SignalCandidate)
    {instances : List RequirementInstance}
    → instantiate snapshot index confirmed ≡ ok instances
    → (i : RequirementInstance) → Memᴰ i instances
    → IsSelected snapshot index (none ∷ map some confirmed) i
unfolding instantiate
instantiate-IsSelected snapshot index confirmed {instances} e i m =
    let (selected, f, g) =
      >>=-eq-ok (select_candidates snapshot index (none ∷ map some confirmed) []) _ e in
    let q : values selected ≡ instances = cc g in
    let (entry, n, p) = mem-map _ selected (subst (λ l. Memᴰ i l) (sym q) m) in
    let h =
      Returns-ok (AreSelected snapshot index (none ∷ map some confirmed))
        (select_candidates-AreSelected snapshot index (none ∷ map some confirmed)
          (none ∷ map some confirmed) [] (λ c k. k) (λ e k. elim k [ ]))
        f in
    subst (IsSelected snapshot index (none ∷ map some confirmed)) p (h entry n).1
