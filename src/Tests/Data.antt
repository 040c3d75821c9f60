-- ===== src/Tests/Data.antt =====
-- A small project: a rule source with two requirements, and the schemas and signals that it needs
-- (the inputs of src/rules.rs).
use Prim.Native.String.{len}
use agentic_development_fram.Base.{String, none, List, [], ◌∷◌, ◌<>◌, decimal}
use agentic_development_fram.Json.Value.{Value, string, array, items}
use agentic_development_fram.Json.Canonical.{Crates}
use agentic_development_fram.Schema.Registry.{SchemaRegistry}
use agentic_development_fram.Detection.Types.{SignalCatalogRegistry}
use agentic_development_fram.Rules.Types.{
  attestation, RequirementDefinition, ActivationRule, RuleIndex,
}
use agentic_development_fram.Kernel.Candidates.{json_object, json_texts}

-- In place of the crates: quotation marks, and a hash that is the length.
abbrev pub test_crates : Crates
test_crates = record { quote = λ s. "'" <> s <> "'"; sha256_hex = λ s. decimal (len s) }

abbrev pub list_of : List Value → Value
list_of values = array (items values)

abbrev allowed_roles_of : String → Value
allowed_roles_of role = json_object (("x-allowed-roles", json_texts (role ∷ [])) ∷ [])

abbrev pub test_schemas : SchemaRegistry
test_schemas = record {
  record_schemas = [];
  result_payload_schemas =
      ("result.analysis", allowed_roles_of "Analyst")
      ∷ ("result.evidence", allowed_roles_of "Builder")
      ∷ [];
  digest = "sha256:schemas";
}

abbrev pub test_signals : SignalCatalogRegistry
test_signals = record {
  signals =
      (
        "data.write",
        record {
          id = "data.write";
          domain = "data";
          detector_id = "detector.data";
          detector_version = "1";
          bindings = "table" ∷ [];
          activates = "data.write" ∷ [];
        },
      )
      ∷ [];
}

abbrev pub requirement_source : String → String → String → String → List String → Value
requirement_source id phase role result_schema depends_on = json_object (
    ("id", string id)
    ∷ ("phase", string phase)
    ∷ ("role", string role)
    ∷ ("result_schema", string result_schema)
    ∷ ("depends_on", json_texts depends_on)
    ∷ [])

abbrev pub rule_source : String → String → Value
rule_source id requirement = json_object (
    ("id", string id)
    ∷ ("requirement", string requirement)
    ∷ ("when", string "always")
    ∷ ("subjects", json_texts ("change.id" ∷ []))
    ∷ [])

-- `tests-recorded` before the merge depends on `impact-analysed` before the build.
abbrev pub test_source : Value
test_source = json_object (
    (
      "requirements",
      list_of (
          requirement_source "impact-analysed" "before-build" "Analyst" "result.analysis" []
          ∷ requirement_source "tests-recorded" "before-merge" "Builder" "result.evidence"
              ("impact-analysed" ∷ [])
          ∷ []),
    )
    ∷ (
      "rules",
      list_of (
          rule_source "rule.analysis" "impact-analysed"
          ∷ rule_source "rule.tests" "tests-recorded"
          ∷ []),
    )
    ∷ [])

abbrev pub analysis_definition : RequirementDefinition
analysis_definition = record {
  id = "impact-analysed";
  phase = "before-build";
  role = "Analyst";
  result_schema = "result.analysis";
  depends_on = [];
  context = [];
  assurance = attestation;
  definition_digest = "sha256:127";
}

abbrev pub tests_definition : RequirementDefinition
tests_definition = record {
  id = "tests-recorded";
  phase = "before-merge";
  role = "Builder";
  result_schema = "result.evidence";
  depends_on = "impact-analysed" ∷ [];
  context = [];
  assurance = attestation;
  definition_digest = "sha256:143";
}

abbrev pub always_rule : String → String → ActivationRule
always_rule id requirement_id = record {
  id = id;
  requirement_id = requirement_id;
  condition = "always";
  signal = none;
  repository_phase = none;
  subjects = "change.id" ∷ [];
}

-- What the Rule Compiler makes of `test_source`.
abbrev pub test_index : RuleIndex
test_index = record {
  requirements =
      ("impact-analysed", analysis_definition) ∷ ("tests-recorded", tests_definition) ∷ [];
  rules =
      always_rule "rule.analysis" "impact-analysed"
      ∷ always_rule "rule.tests" "tests-recorded"
      ∷ [];
  digest = "sha256:640";
}
