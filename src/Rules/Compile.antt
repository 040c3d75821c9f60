-- ===== src/Rules/Compile.antt =====
-- The Rule Compiler: `compile_rule_index_with_registry`, `validate_subjects` and
-- `normalized_value` of src/rules.rs. An error is its message.
use agentic_development_fram.Base.{
  String, Bool, not, ◌&&◌, Option, none, some, List, [], ◌∷◌, ◌++◌, map, ◌==◌, ◌<>◌, is_some,
  is_some_and, unwrap_or, strip_prefix, Result, ok, ◌>>=◌, ◌>>◌, guard, ok_or, map_err,
  if◌then◌else◌,
}
use agentic_development_fram.Base.Order.{sort_by, text_le}
use agentic_development_fram.Base.Map
use agentic_development_fram.Base.Map.{Map}
use agentic_development_fram.Json.Value.{Value, string, null, array, items, as_object}
use agentic_development_fram.Json.Canonical.{Crates, canonical_digest}
use agentic_development_fram.Contracts.Scope.{member}
use agentic_development_fram.Schema.Registry.{SchemaRegistry}
use agentic_development_fram.Detection.Types.{
  SignalCatalogRegistry, SignalDefinition, signal_definition,
}
use agentic_development_fram.Rules.Types.{
  Assurance, attestation, evidence_backed, RequirementDefinition, ActivationRule, RuleIndex,
}
use agentic_development_fram.Rules.Fields.{
  optional_array, optional_string_array, required_string, optional_string, require_object,
}
use agentic_development_fram.Rules.Requirements.{
  assert_acyclic, compile_requirements, floating_point_message,
}
use agentic_development_fram.Kernel.Candidates.{json_object, json_texts}

unfoldable pub validate_subject :
    String → Option SignalDefinition → String → Result String (Unit {0})
validate_subject rule_id signal subject = if subject == "change.id" then ok tt else (do
  binding ←
      ok_or (strip_prefix subject "binding.") (rule_id <> " has unsupported subject: " <> subject)
  definition ← ok_or signal (rule_id <> " cannot use binding subject without signal: " <> subject)
  guard (member binding definition.bindings)
      (rule_id <> " refers to unknown " <> definition.id <> " binding: " <> binding))

unfoldable pub validate_subjects :
    String → List String → Option SignalDefinition → Result String (Unit {0})
validate_subjects rule_id [] signal = ok tt
validate_subjects rule_id (subject ∷ subjects) signal =
    validate_subject rule_id signal subject >> validate_subjects rule_id subjects signal

-- `signal_registry.signal_definition(…)` of the rule's signal, where it has one
unfoldable pub rule_signal :
    SignalCatalogRegistry → String → Option String → Result String (Option SignalDefinition)
rule_signal signals rule_id none = ok none
rule_signal signals rule_id (some signal) =
    ok_or (signal_definition signals signal) (rule_id <> " refers to unknown signal: " <> signal)
    >>= λ definition. ok (some definition)

abbrev pub is_named : Option String → Bool
is_named signal = is_some_and signal (λ s. not (s == ""))

-- The body of the loop over the rules; `rule_ids` are the ids so far.
unfoldable pub compile_rule :
    SignalCatalogRegistry
    → Map RequirementDefinition
    → List String
    → Value
    → Result String ActivationRule
compile_rule signals requirements rule_ids source = do
  raw ← require_object source "rule"
  id ← required_string raw "id"
  guard (not (member id rule_ids)) ("duplicate rule: " <> id)
  requirement_id ← required_string raw "requirement"
  guard (is_some (Map.get requirement_id requirements))
      (id <> " refers to unknown requirement: " <> requirement_id)
  condition_text ← optional_string raw "when"
  let condition = unwrap_or condition_text "signal"
  guard (member condition ("always" ∷ "signal" ∷ [])) ("unsupported rule condition: " <> condition)
  signal ← optional_string raw "signal"
  guard (not (condition == "signal" && not (is_named signal))) (id <> " requires signal")
  guard (not (condition == "always" && is_some signal)) (id <> " cannot use signal with always")
  definition ← rule_signal signals id signal
  subjects ← optional_string_array raw "subjects"
  validate_subjects id subjects definition
  repository_phase ← optional_string raw "repository_phase"
  ok (record {
    id = id;
    requirement_id = requirement_id;
    condition = condition;
    signal = signal;
    repository_phase = repository_phase;
    subjects = subjects;
  })

unfoldable pub compile_rules :
    SignalCatalogRegistry
    → Map RequirementDefinition
    → List Value
    → List String
    → Result String (List ActivationRule)
compile_rules signals requirements [] rule_ids = ok []
compile_rules signals requirements (raw ∷ raws) rule_ids =
    compile_rule signals requirements rule_ids raw >>= λ rule.
    compile_rules signals requirements raws (rule.id ∷ rule_ids) >>= λ rules. ok (rule ∷ rules)

-- The check of the dependencies of one requirement, and of all.
unfoldable pub check_dependencies :
    Map RequirementDefinition → String → List String → Result String (Unit {0})
check_dependencies requirements id [] = ok tt
check_dependencies requirements id (dependency ∷ dependencies) =
    guard (is_some (Map.get dependency requirements))
      (id <> " refers to unknown dependency: " <> dependency)
    >> check_dependencies requirements id dependencies

unfoldable pub check_all_dependencies :
    Map RequirementDefinition → List (String × RequirementDefinition) → Result String (Unit {0})
check_all_dependencies requirements [] = ok tt
check_all_dependencies requirements ((id, definition) ∷ rest) =
    check_dependencies requirements definition.id definition.depends_on
    >> check_all_dependencies requirements rest

-- `serde`'s form of a definition and of a rule
abbrev assurance_field : Assurance → Map Value
assurance_field attestation = []
assurance_field evidence_backed = ("assurance", string "evidence-backed") ∷ []

unfoldable pub definition_value : RequirementDefinition → Value
definition_value d = json_object (
    ("id", string d.id)
    ∷ ("phase", string d.phase)
    ∷ ("role", string d.role)
    ∷ ("result_schema", string d.result_schema)
    ∷ ("depends_on", json_texts d.depends_on)
    ∷ ("context", json_texts d.context)
    ∷ (assurance_field d.assurance ++ ("definition_digest", string d.definition_digest) ∷ []))

abbrev option_value : Option String → Value
option_value none = null
option_value (some s) = string s

unfoldable pub rule_value : ActivationRule → Value
rule_value r = json_object (
    ("id", string r.id)
    ∷ ("requirement", string r.requirement_id)
    ∷ ("condition", string r.condition)
    ∷ ("signal", option_value r.signal)
    ∷ ("repository_phase", option_value r.repository_phase)
    ∷ ("subjects", json_texts r.subjects)
    ∷ [])

abbrev rule_le : ActivationRule → ActivationRule → Bool
rule_le a b = text_le a.id b.id

unfoldable pub normalized_value : Map RequirementDefinition → List ActivationRule → Value
normalized_value requirements rules = json_object (
    ("requirements", array (items (map definition_value (map (λ entry. entry.1) requirements))))
    ∷ ("rules", array (items (map rule_value (sort_by rule_le rules))))
    ∷ [])

unfoldable pub compile_rule_index_with_registry :
    Crates → Value → SchemaRegistry → SignalCatalogRegistry → Result String RuleIndex
compile_rule_index_with_registry crates source schemas signals = do
  object ← ok_or (as_object source) "rule source must be a mapping"
  raw_requirements ← optional_array object "requirements"
  requirements ← compile_requirements crates schemas raw_requirements []
  check_all_dependencies requirements requirements
  assert_acyclic requirements
  raw_rules ← optional_array object "rules"
  rules ← compile_rules signals requirements raw_rules []
  digest ←
      map_err floating_point_message (canonical_digest crates (normalized_value requirements rules))
  ok (record { requirements = requirements; rules = rules; digest = digest })
