-- ===== src/Tests/Compiler.antt =====
-- Runs of the Rule Compiler (src/rules.rs).
use agentic_development_fram.Base.{decimal, [], ◌∷◌, String, ◌≡◌, refl, Result, ok, err}
use agentic_development_fram.Base.Order.{sort_by, insert_sorted, sort, dedup}
use agentic_development_fram.Base.Map.{get, insert}
use agentic_development_fram.Json.Value
use agentic_development_fram.Json.Value.{Value, index}
use agentic_development_fram.Json.Canonical.{
  write_number, write_entries, join_items, write_canonical, canonical_json, canonical_digest,
}
use agentic_development_fram.Schema.Registry.{supports_result_schema, supports_result_role}
use agentic_development_fram.Detection.Types.{signal_definition}
use agentic_development_fram.Rules.Types.{RuleIndex}
use agentic_development_fram.Rules.Fields.{
  optional_array, optional_string_array, required_string, optional_string, require_object,
}
use agentic_development_fram.Rules.Cycles.{depends_on, visit_all, visit, search_cycle}
use agentic_development_fram.Rules.Requirements.{
  assert_acyclic, parse_assurance, definition_body, compile_requirement, compile_requirements,
}
use agentic_development_fram.Rules.Compile.{
  validate_subject, validate_subjects, rule_signal, compile_rule, compile_rules, check_dependencies,
  check_all_dependencies, definition_value, rule_value, normalized_value,
  compile_rule_index_with_registry,
}
use agentic_development_fram.Tests.Data.{
  test_crates, test_schemas, test_signals, test_source, test_index, requirement_source, rule_source,
  list_of,
}
use agentic_development_fram.Kernel.Candidates.{json_object}

-- The Rule Compiler with the registries of the project.
unfoldable pub run_compiler : Value → Result String RuleIndex
unfolding compile_rule_index_with_registry compile_rules compile_rule compile_requirements
    compile_requirement check_all_dependencies check_dependencies validate_subjects validate_subject
    rule_signal signal_definition definition_value rule_value normalized_value assert_acyclic
    parse_assurance definition_body depends_on visit_all visit search_cycle optional_array
    optional_string_array required_string optional_string require_object supports_result_schema
    supports_result_role write_number write_entries join_items write_canonical canonical_json
    canonical_digest index Value.get get insert insert_sorted sort_by sort dedup decimal
run_compiler source = compile_rule_index_with_registry test_crates source test_schemas test_signals

-- The source compiles to the index of the project.
pub compiled_index :
    compile_rule_index_with_registry test_crates test_source test_schemas test_signals
    ≡ ok test_index
unfolding run_compiler
compiled_index = refl

-- A requirement that depends on itself through another is refused.
cyclic_source :
    run_compiler (
      json_object (
        (
          "requirements",
          list_of (
              requirement_source "a" "before-build" "Analyst" "result.analysis" ("b" ∷ [])
              ∷ requirement_source "b" "before-build" "Analyst" "result.analysis" ("a" ∷ [])
              ∷ []),
        )
        ∷ []))
    ≡ err "dependency cycle at: a"
unfolding run_compiler
cyclic_source = refl

unknown_requirement :
    run_compiler (json_object (("rules", list_of (rule_source "r" "missing" ∷ [])) ∷ []))
    ≡ err "r refers to unknown requirement: missing"
unfolding run_compiler
unknown_requirement = refl
