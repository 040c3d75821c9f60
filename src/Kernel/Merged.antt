-- ===== src/Kernel/Merged.antt =====
-- What the instances that the Rules select are, and that a merge keeps it (`instantiate` of
-- src/kernel.rs).
use mathlib.Core.List.Memᴰ
use agentic_development_fram.Base.{
  String, true, ◌≡◌, refl, sym, subst, inl, inr, Option, some, List, [], ◌∷◌, ◌++◌, Memᴰ,
  append-mem, ◌==◌, ok, Returns, returns, fails, try_map, Bool-cases, Option-cases,
}
use agentic_development_fram.Base.Order.{sort, dedup}
use agentic_development_fram.Base.Order.Sorted.{dedup-sort-mem}
use agentic_development_fram.Base.Map
use agentic_development_fram.Base.Map.{Map, get-mem, mem-insert}
use agentic_development_fram.Detection.Types.{SignalCandidate}
use agentic_development_fram.Rules.Types.{RequirementDefinition, ActivationRule, RuleIndex}
use agentic_development_fram.Kernel.Types.{ProjectSnapshot, RequirementInstance}
use agentic_development_fram.Kernel.Selection.{
  resolve_subject, is_activated, join_key, merge_instance,
}

-- The rule of that name is active, and selects the instance with the key.
pub record IsNamed (snapshot : ProjectSnapshot) (index : RuleIndex)
    (candidates : List (Option SignalCandidate)) (key name : String) : Type 0 where
  pub candidate : Option SignalCandidate
  pub listed : Memᴰ candidate candidates
  pub rule : ActivationRule
  pub ruled : Memᴰ rule index.rules
  pub named : name ≡ rule.id
  pub active : is_activated snapshot candidate rule ≡ true
  pub definition : RequirementDefinition
  pub known : Map.get rule.requirement_id index.requirements ≡ some definition
  pub subjects : List String
  pub resolved : try_map (resolve_subject snapshot candidate) rule.subjects ≡ ok subjects
  pub of_key : key ≡ join_key definition.id (sort subjects)

-- The instance is one of a requirement that an active rule selects, with every field as the
-- requirement and the rule's subjects say, and the rules that it names select it.
pub record IsSelected (snapshot : ProjectSnapshot) (index : RuleIndex)
    (candidates : List (Option SignalCandidate)) (i : RequirementInstance) : Type 0 where
  pub candidate : Option SignalCandidate
  pub listed : Memᴰ candidate candidates
  pub rule : ActivationRule
  pub ruled : Memᴰ rule index.rules
  pub active : is_activated snapshot candidate rule ≡ true
  pub definition : RequirementDefinition
  pub known : Map.get rule.requirement_id index.requirements ≡ some definition
  pub of_requirement : i.requirement_id ≡ definition.id
  pub of_definition : i.definition_digest ≡ definition.definition_digest
  pub of_phase : i.phase ≡ definition.phase
  pub of_role : i.role ≡ definition.role
  pub of_schema : i.result_schema ≡ definition.result_schema
  pub of_dependencies : i.depends_on ≡ definition.depends_on
  pub of_context : i.context ≡ definition.context
  pub of_assurance : i.assurance ≡ definition.assurance
  pub subjects : List String
  pub resolved : try_map (resolve_subject snapshot candidate) rule.subjects ≡ ok subjects
  pub of_subjects : i.subject_refs ≡ sort subjects
  pub of_key : i.instance_key ≡ join_key definition.id (sort subjects)
  pub named_by :
      (name : String)
      → Memᴰ name i.selected_by
      → IsNamed snapshot index candidates i.instance_key name
  pub unsatisfied : i.status ≡ "unsatisfied"

module _ (snapshot : ProjectSnapshot) (index : RuleIndex)
    (candidates : List (Option SignalCandidate)) where
  -- Each entry of the map stands under its own key.
  abbrev pub AreSelected : Map RequirementInstance → Type 0
  AreSelected selected =
      (e : String × RequirementInstance)
      → Memᴰ e selected
      → (e.1.instance_key ≡ e.0) × IsSelected snapshot index candidates e.1

  insert-AreSelected :
      (selected : Map RequirementInstance) (i : RequirementInstance)
      → AreSelected selected
      → IsSelected snapshot index candidates i
      → AreSelected (Map.insert i.instance_key i selected)
  insert-AreSelected selected i h s e m = elim (mem-insert i.instance_key i selected m) [
    | inl q ↦
        subst
          (λ (e : String × RequirementInstance).
            (e.1.instance_key ≡ e.0) × IsSelected snapshot index candidates e.1)
          (sym q) (refl, s)
    | inr n ↦ h e n
  ]

  renamed-IsSelected :
      (i : RequirementInstance) (rules : List String)
      → ((name : String) → Memᴰ name rules → IsNamed snapshot index candidates i.instance_key name)
      → IsSelected snapshot index candidates i
      → IsSelected snapshot index candidates (record i { selected_by = rules })
  renamed-IsSelected i rules n s = record {
    candidate = s.candidate;
    listed = s.listed;
    rule = s.rule;
    ruled = s.ruled;
    active = s.active;
    definition = s.definition;
    known = s.known;
    of_requirement = s.of_requirement;
    of_definition = s.of_definition;
    of_phase = s.of_phase;
    of_role = s.of_role;
    of_schema = s.of_schema;
    of_dependencies = s.of_dependencies;
    of_context = s.of_context;
    of_assurance = s.of_assurance;
    subjects = s.subjects;
    resolved = s.resolved;
    of_subjects = s.of_subjects;
    of_key = s.of_key;
    named_by = n;
    unsatisfied = s.unsatisfied;
  }

  pub alone :
      (rule_id : String) (i : RequirementInstance)
      → IsNamed snapshot index candidates i.instance_key rule_id
      → (name : String) → Memᴰ name (rule_id ∷ [])
      → IsNamed snapshot index candidates i.instance_key name
  alone rule_id i by name m = elim (Memᴰ.cases_cons m) [
    | inl e ↦ subst (IsNamed snapshot index candidates i.instance_key) (sym e) by
    | inr t ↦ elim t [ ]
  ]

  pub merge-AreSelected :
      (rule_id : String) (i : RequirementInstance) (selected : Map RequirementInstance)
      → AreSelected selected
      → IsSelected snapshot index candidates i
      → IsNamed snapshot index candidates i.instance_key rule_id
      → Returns AreSelected (merge_instance rule_id i selected)
  unfolding merge_instance
  merge-AreSelected rule_id i selected h s by =
      elim (Option-cases (Map.get i.instance_key selected)) [
        | inl n ↦ rw (n, merge_instance) (returns (insert-AreSelected selected i h s))
        | inr (existing, n) ↦
            elim (Bool-cases (existing.definition_digest == i.definition_digest)) [
              | inr other ↦ rw (n, merge_instance) (rw other fails)
              | inl same ↦
                  let (key, was) =
                    h (i.instance_key, existing) (get-mem i.instance_key selected n).0 in
                  let rules = dedup (sort (existing.selected_by ++ rule_id ∷ [])) in
                  let names : (name : String)
                      → Memᴰ name rules
                      → IsNamed snapshot index candidates existing.instance_key name =
                    λ name m.
                      elim (append-mem existing.selected_by (rule_id ∷ [])
                        (dedup-sort-mem (existing.selected_by ++ rule_id ∷ []) m)) [
                          | inl n ↦ was.named_by name n
                          | inr n ↦
                              subst (λ k. IsNamed snapshot index candidates k name) (sym key)
                                (alone rule_id i by name n)
                        ] in
                  rw (n, merge_instance)
                    (rw same (
                      returns (
                        subst
                          (λ k.
                            AreSelected
                              (Map.insert k (record existing { selected_by = rules }) selected))
                          key
                          (insert-AreSelected selected (record existing { selected_by = rules }) h
                            (renamed-IsSelected existing rules names was)))))
            ]
      ]
