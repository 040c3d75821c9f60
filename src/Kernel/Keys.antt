-- ===== src/Kernel/Keys.antt =====
-- The Rules give their instances in the order of the keys, and none twice (`instantiate` of
-- src/kernel.rs).
use agentic_development_fram.Base.{
  String, true, ◌≡◌, refl, ap, subst, inl, inr, Option, none, some, List, [], ◌∷◌, map, Memᴰ, ◌==◌,
  ok, >>=-eq-ok, Returns, returns, fails, Returns-bind, Returns-ok, ok_or, try_map, Bool-cases,
  Option-cases, if◌then◌else◌,
}
use agentic_development_fram.Base.Order.{sort}
use agentic_development_fram.Base.Map
use agentic_development_fram.Base.Map.{Map}
use agentic_development_fram.Base.Map.Ascending.{IsAscending, keys_of, insert-IsAscending}
use agentic_development_fram.Detection.Types.{SignalCandidate}
use agentic_development_fram.Rules.Types.{ActivationRule, RuleIndex}
use agentic_development_fram.Kernel.Types.{ProjectSnapshot, RequirementInstance}
use agentic_development_fram.Kernel.Instances.{values}
use agentic_development_fram.Kernel.Selection.{
  new_instance, resolve_subject, is_activated, join_key, merge_instance, select_rule, select_rules,
  select_candidates, instantiate,
}
use agentic_development_fram.Kernel.Activated.{IsActivated, instantiate-IsActivated}
use agentic_development_fram.Kernel.Merged.{AreSelected}
use agentic_development_fram.Kernel.Selected.{select_candidates-AreSelected}

abbrev HasOrder : Map RequirementInstance → Type 0
HasOrder selected = IsAscending (keys_of selected)

merge-HasOrder :
    (rule_id : String) (i : RequirementInstance) (selected : Map RequirementInstance)
    → HasOrder selected
    → Returns HasOrder (merge_instance rule_id i selected)
unfolding merge_instance
merge-HasOrder rule_id i selected h = elim (Option-cases (Map.get i.instance_key selected)) [
  | inl n ↦ rw (n, merge_instance) (returns (insert-IsAscending i.instance_key i selected h))
  | inr (existing, n) ↦ elim (Bool-cases (existing.definition_digest == i.definition_digest)) [
    | inl same ↦
        rw (n, merge_instance) (rw same (returns (insert-IsAscending i.instance_key _ selected h)))
    | inr other ↦ rw (n, merge_instance) (rw other fails)
  ]
]

module _ (snapshot : ProjectSnapshot) (index : RuleIndex) where
  select_rule-HasOrder :
      (candidate : Option SignalCandidate) (rule : ActivationRule)
      (selected : Map RequirementInstance)
      → HasOrder selected
      → Returns HasOrder (select_rule snapshot index candidate rule selected)
  unfolding select_rule
  select_rule-HasOrder candidate rule selected h =
      Returns-bind (ok_or (Map.get rule.requirement_id index.requirements) _) _ λ definition _.
        Returns-bind (try_map (resolve_subject snapshot candidate) rule.subjects) _ λ subjects _.
          merge-HasOrder rule.id
            (new_instance definition (sort subjects) (join_key definition.id (sort subjects))
              rule.id)
            selected h

  select_rules-HasOrder :
      (candidate : Option SignalCandidate) (rules : List ActivationRule)
      (selected : Map RequirementInstance)
      → HasOrder selected
      → Returns HasOrder (select_rules snapshot index candidate rules selected)
  unfolding select_rules
  select_rules-HasOrder candidate [] selected h = returns h
  select_rules-HasOrder candidate (rule ∷ rules) selected h =
      Returns-bind
        (if is_activated snapshot candidate rule
          then select_rule snapshot index candidate rule selected
          else ok selected)
        _
        λ selected' e.
          select_rules-HasOrder candidate rules selected'
            (elim (Bool-cases (is_activated snapshot candidate rule)) [
              | inl active ↦
                  Returns-ok HasOrder (select_rule-HasOrder candidate rule selected h)
                    (rw active at e)
              | inr passive ↦
                  let q : selected ≡ selected' = cc (rw passive at e) in subst HasOrder q h
            ])

  select_candidates-HasOrder :
      (candidates : List (Option SignalCandidate)) (selected : Map RequirementInstance)
      → HasOrder selected
      → Returns HasOrder (select_candidates snapshot index candidates selected)
  unfolding select_candidates
  select_candidates-HasOrder [] selected h = returns h
  select_candidates-HasOrder (candidate ∷ rest) selected h =
      Returns-bind (select_rules snapshot index candidate index.rules selected) _ λ selected' e.
        select_candidates-HasOrder rest selected'
          (Returns-ok HasOrder (select_rules-HasOrder candidate index.rules selected h) e)

-- The keys of the entries are those of the instances.
keys_of-values :
    (selected : Map RequirementInstance)
    → ((e : String × RequirementInstance) → Memᴰ e selected → e.1.instance_key ≡ e.0)
    → keys_of selected ≡ map (λ (i : RequirementInstance). i.instance_key) (values selected)
keys_of-values [] h = refl
keys_of-values ((k, i) ∷ selected) h =
    rw (h (k, i) (Memᴰ.head refl))
      (ap (λ ks. k ∷ ks) (keys_of-values selected (λ e m. h e (Memᴰ.tail m))))

-- The instances stand in the order of their keys, none twice, and one of them is what the rule
-- gives.
pub record IsMerged (snapshot : ProjectSnapshot) (index : RuleIndex)
    (candidate : Option SignalCandidate) (rule : ActivationRule)
    (instances : List RequirementInstance) : Type 0 where
  pub is_ascending : IsAscending (map (λ (i : RequirementInstance). i.instance_key) instances)
  pub is_activated_by : IsActivated snapshot index candidate rule instances

ascending :
    (snapshot : ProjectSnapshot) (index : RuleIndex) (confirmed : List SignalCandidate)
    {instances : List RequirementInstance}
    → instantiate snapshot index confirmed ≡ ok instances
    → IsAscending (map (λ (i : RequirementInstance). i.instance_key) instances)
unfolding instantiate
ascending snapshot index confirmed e =
    let candidates = none ∷ map some confirmed in
    let (selected, f, g) = >>=-eq-ok (select_candidates snapshot index candidates []) _ e in
    let q : values selected ≡ _ = cc g in
    let named =
      Returns-ok (AreSelected snapshot index candidates)
        (select_candidates-AreSelected snapshot index candidates candidates [] (λ c k. k)
          (λ e k. elim k [ ]))
        f in
    subst (λ l. IsAscending (map (λ (i : RequirementInstance). i.instance_key) l)) q
      (subst IsAscending (keys_of-values selected (λ e m. (named e m).0))
        (Returns-ok HasOrder (select_candidates-HasOrder snapshot index candidates [] tt) f))

-- The instances that the Rules give stand in the order of their keys, and no key is there twice: a
-- rule that selects an instance again is merged into it. For each rule that is active for no
-- candidate or for a confirmed one, the instance with the key of its requirement and its sorted
-- subjects is there, and names the rule among those that selected it.
pub instantiate-IsMerged :
    (snapshot : ProjectSnapshot) (index : RuleIndex) (confirmed : List SignalCandidate)
    {instances : List RequirementInstance}
    → instantiate snapshot index confirmed ≡ ok instances
    → (candidate : Option SignalCandidate) (rule : ActivationRule)
    → Memᴰ candidate (none ∷ map some confirmed)
    → Memᴰ rule index.rules
    → is_activated snapshot candidate rule ≡ true
    → IsMerged snapshot index candidate rule instances
instantiate-IsMerged snapshot index confirmed e candidate rule m r a = record {
  is_ascending = ascending snapshot index confirmed e;
  is_activated_by = instantiate-IsActivated snapshot index confirmed e candidate rule m r a;
}
