-- ===== src/Kernel/Selection.antt =====
-- The Rules' own instances: `instantiate`, `new_instance` and `resolve_subject` of src/kernel.rs.
use agentic_development_fram.Base.{
  String, Bool, not, ◌&&◌, Option, none, some, List, [], ◌∷◌, ◌++◌, map, try_map, ◌==◌, ◌<>◌,
  is_some, is_some_and, strip_prefix, Result, ok, err, ◌>>=◌, ok_or, if◌then◌else◌,
}
use agentic_development_fram.Base.Order.{sort, dedup}
use agentic_development_fram.Base.Map
use agentic_development_fram.Base.Map.{Map}
use agentic_development_fram.Detection.Types.{SignalCandidate}
use agentic_development_fram.Rules.Types.{RequirementDefinition, ActivationRule, RuleIndex}
use agentic_development_fram.Kernel.Types.{ProjectSnapshot, RequirementInstance}
use agentic_development_fram.Kernel.Freshness.{repository_phase}
use agentic_development_fram.Kernel.Instances.{values}

unfoldable pub new_instance :
    RequirementDefinition → List String → String → String → RequirementInstance
new_instance definition subject_refs instance_key rule_id = record {
  requirement_id = definition.id;
  subject_refs = subject_refs;
  instance_key = instance_key;
  selected_by = rule_id ∷ [];
  definition_digest = definition.definition_digest;
  phase = definition.phase;
  role = definition.role;
  result_schema = definition.result_schema;
  depends_on = definition.depends_on;
  context = definition.context;
  assurance = definition.assurance;
  status = "unsatisfied";
}

unfoldable pub resolve_binding :
    String → Option String → Option SignalCandidate → Result String String
resolve_binding expression (some key) (some candidate) =
    ok_or (Map.get key candidate.bindings) ("Signal bindingがありません: " <> key)
resolve_binding expression _ _ = err ("解決できないsubject式です: " <> expression)

unfoldable pub resolve_subject :
    ProjectSnapshot → Option SignalCandidate → String → Result String String
resolve_subject snapshot candidate expression =
    if expression == "change.id"
    then ok snapshot.change_id
    else resolve_binding expression (strip_prefix expression "binding.") candidate

abbrev has_signal : Option String → SignalCandidate → Bool
has_signal signal candidate = is_some_and signal (λ s. s == candidate.signal)

-- The three `continue`s of the inner loop, as the test that none of them is taken.
unfoldable pub is_activated : ProjectSnapshot → Option SignalCandidate → ActivationRule → Bool
is_activated snapshot candidate rule =
    not (rule.condition == "always" && is_some candidate)
    && not (rule.condition == "signal" && not (is_some_and candidate (has_signal rule.signal)))
    && not (is_some_and rule.repository_phase (λ phase. not (phase == repository_phase snapshot)))

-- `join("|")` of the requirement's id and the subjects
unfoldable pub join_key : String → List String → String
join_key key [] = key
join_key key (s ∷ ss) = join_key (key <> "|" <> s) ss

-- The `if let` on the instance that already has the key.
unfoldable pub merge_instance :
    String → RequirementInstance → Map RequirementInstance → Result String (Map RequirementInstance)
merge_instance rule_id instance selected = elim (Map.get instance.instance_key selected) [
  | none ↦ ok (Map.insert instance.instance_key instance selected)
  | some existing ↦
      if existing.definition_digest == instance.definition_digest
      then ok (
          Map.insert instance.instance_key
            (record existing { selected_by = dedup (sort (existing.selected_by ++ rule_id ∷ [])) })
            selected)
      else err ("Requirement Instanceの定義が競合しています: " <> instance.instance_key)
]

-- The body of the inner loop behind the `continue`s. A rule whose requirement the index lacks, at
-- which the source panics, is an error here: the Rule Compiler makes no such index.
unfoldable pub select_rule :
    ProjectSnapshot
    → RuleIndex
    → Option SignalCandidate
    → ActivationRule
    → Map RequirementInstance
    → Result String (Map RequirementInstance)
select_rule snapshot index candidate rule selected =
    ok_or (Map.get rule.requirement_id index.requirements) "no entry found for key"
    >>= λ (definition : RequirementDefinition).
        try_map (resolve_subject snapshot candidate) rule.subjects >>= λ subjects.
        merge_instance rule.id
          (new_instance definition (sort subjects) (join_key definition.id (sort subjects)) rule.id)
          selected

unfoldable pub select_rules :
    ProjectSnapshot
    → RuleIndex
    → Option SignalCandidate
    → List ActivationRule
    → Map RequirementInstance
    → Result String (Map RequirementInstance)
select_rules snapshot index candidate [] selected = ok selected
select_rules snapshot index candidate (rule ∷ rules) selected =
    (if is_activated snapshot candidate rule
      then select_rule snapshot index candidate rule selected
      else ok selected)
    >>= λ selected'. select_rules snapshot index candidate rules selected'

unfoldable pub select_candidates :
    ProjectSnapshot
    → RuleIndex
    → List (Option SignalCandidate)
    → Map RequirementInstance
    → Result String (Map RequirementInstance)
select_candidates snapshot index [] selected = ok selected
select_candidates snapshot index (candidate ∷ candidates) selected =
    select_rules snapshot index candidate index.rules selected >>= λ selected'.
    select_candidates snapshot index candidates selected'

unfoldable pub instantiate :
    ProjectSnapshot → RuleIndex → List SignalCandidate → Result String (List RequirementInstance)
instantiate snapshot index confirmed =
    select_candidates snapshot index (none ∷ map some confirmed) [] >>= λ selected.
    ok (values selected)
