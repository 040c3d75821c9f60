-- ===== src/Rules/Requirements.antt =====
-- The requirements of a rule source: the first loop of `compile_rule_index_with_registry` in
-- src/rules.rs. An error is its message.
use agentic_development_fram.Base.{
  String, Bool, true, false, not, ◌&&◌, Option, none, some, List, [], ◌∷◌, filter, is_empty, ◌==◌,
  ◌<>◌, is_some, Result, ok, err, ◌>>=◌, ◌>>◌, guard, map_err, if◌then◌else◌,
}
use agentic_development_fram.Base.Order.{sort, dedup}
use agentic_development_fram.Base.Map
use agentic_development_fram.Base.Map.{Map}
use agentic_development_fram.Json.Value.{Value, string}
use agentic_development_fram.Json.Canonical.{Crates, CanonicalError, canonical_digest}
use agentic_development_fram.Contracts.Scope.{member}
use agentic_development_fram.Schema.Registry.{
  SchemaRegistry, supports_result_schema, supports_result_role,
}
use agentic_development_fram.Rules.Types.{
  Assurance, attestation, evidence_backed, RequirementDefinition,
}
use agentic_development_fram.Rules.Fields.{
  optional_string_array, required_string, optional_string, require_object,
}
use agentic_development_fram.Rules.Cycles.{cycle, out_of_fuel, depends_on, search_cycle}
use agentic_development_fram.Kernel.Candidates.{json_object, json_texts}

abbrev pub allowed_phases : List String
allowed_phases = "before-build" ∷ "before-merge" ∷ []

abbrev pub allowed_roles : List String
allowed_roles = "Analyst" ∷ "Human" ∷ "Builder" ∷ "Challenger" ∷ []

abbrev pub allowed_context_selectors : List String
allowed_context_selectors =
    "change" ∷ "repository-artifacts" ∷ "affected-code" ∷ "matching-contracts"
    ∷ "matching-decisions" ∷ "dependency-results" ∷ "matching-evidence" ∷ "contracts" ∷ "decisions"
    ∷ "results" ∷ "evidence" ∷ "impact-assessment" ∷ []

abbrev pub floating_point_message : CanonicalError → String
floating_point_message e = "canonical-json-v1: floating-point-not-supported"

-- `assert_acyclic` with the message of its error
unfoldable pub assert_acyclic : Map RequirementDefinition → Result String (Unit {0})
assert_acyclic requirements = elim (search_cycle requirements) [
  | ok marks ↦ ok tt
  | err e ↦ elim e [
    | cycle id ↦ err ("dependency cycle at: " <> id)
    | out_of_fuel ↦ err "out of fuel"
  ]
]

unfoldable pub parse_assurance : Option String → Result String Assurance
parse_assurance none = ok attestation
parse_assurance (some value) =
    if value == "attestation"
    then ok attestation
    else if value == "evidence-backed"
    then ok evidence_backed
    else err ("unsupported assurance: " <> value)

abbrev pub is_evidence_backed : Assurance → Bool
is_evidence_backed attestation = false
is_evidence_backed evidence_backed = true

abbrev pub join_comma : List String → String
join_comma [] = ""
join_comma (s ∷ []) = s
join_comma (s ∷ t ∷ ts) = s <> ", " <> join_comma (t ∷ ts)

abbrev assurance_entries : Assurance → Map Value
assurance_entries attestation = []
assurance_entries evidence_backed = ("assurance", string "evidence-backed") ∷ []

unfoldable pub definition_body :
    String → String → String → String → List String → List String → Assurance → Value
definition_body id phase role result_schema depends_on context assurance = json_object (
    ("id", string id)
    ∷ ("phase", string phase)
    ∷ ("role", string role)
    ∷ ("result_schema", string result_schema)
    ∷ ("depends_on", json_texts depends_on)
    ∷ ("context", json_texts context)
    ∷ assurance_entries assurance)

-- The body of the loop over the requirements.
unfoldable pub compile_requirement :
    Crates
    → SchemaRegistry
    → Map RequirementDefinition
    → Value
    → Result String (Map RequirementDefinition)
compile_requirement crates schemas requirements source = do
  raw ← require_object source "requirement"
  id ← required_string raw "id"
  guard (not (is_some (Map.get id requirements))) ("duplicate requirement: " <> id)
  phase ← required_string raw "phase"
  guard (member phase allowed_phases) ("invalid phase: " <> phase)
  role ← required_string raw "role"
  guard (member role allowed_roles) ("invalid role: " <> role)
  result_schema ← required_string raw "result_schema"
  guard (supports_result_schema schemas result_schema)
      (id <> " refers to unsupported Result schema: " <> result_schema)
  guard (supports_result_role schemas result_schema role)
      (id <> " cannot use role " <> role <> " with " <> result_schema)
  assurance_text ← optional_string raw "assurance"
  assurance ← parse_assurance assurance_text
  guard (not (is_evidence_backed assurance && not (result_schema == "result.evidence"))) (
      id <> " uses evidence-backed assurance with " <> result_schema
      <> "; result.evidence is required")
  dependencies ← optional_string_array raw "depends_on"
  context ← optional_string_array raw "context"
  let unknown = filter (λ selector. not (member selector allowed_context_selectors)) context
  guard (is_empty unknown) ("unknown context selector: " <> join_comma (dedup (sort unknown)))
  let body =
      definition_body id phase role result_schema (sort dependencies) (sort context) assurance
  digest ← map_err floating_point_message (canonical_digest crates body)
  ok (
      Map.insert id
        (record {
          id = id;
          phase = phase;
          role = role;
          result_schema = result_schema;
          depends_on = sort dependencies;
          context = sort context;
          assurance = assurance;
          definition_digest = digest;
        })
        requirements)

unfoldable pub compile_requirements :
    Crates
    → SchemaRegistry
    → List Value
    → Map RequirementDefinition
    → Result String (Map RequirementDefinition)
compile_requirements crates schemas [] requirements = ok requirements
compile_requirements crates schemas (raw ∷ raws) requirements =
    compile_requirement crates schemas requirements raw >>= λ requirements'.
    compile_requirements crates schemas raws requirements'
