-- ===== src/Schema/Load.antt =====
-- Loading the schema bundle: `SchemaRegistry::load` of src/schema.rs, on the files as they are read.
pub mod Loaded
pub mod Read
use agentic_development_fram.Base.{
  String, Bool, true, false, not, ◌&&◌, Option, none, some, List, [], ◌∷◌, Result, ok, err, ok_or,
  guard, map_err, ◌>>=◌, ◌>>◌, all, is_empty, is_some, and_then, map, if◌then◌else◌,
}
use agentic_development_fram.Base.Map
use agentic_development_fram.Base.Map.{Map}
use agentic_development_fram.Base.Map.Ascending.{keys_of}
use agentic_development_fram.Contracts.Scope.{member}
use agentic_development_fram.Json.Value.{
  Value, object, string, fields, as_str, as_array, as_object, get,
}
use agentic_development_fram.Json.Canonical.{Crates, canonical_digest}
use agentic_development_fram.Schema.Registry.{SchemaRegistry}

abbrev pub schema_bundle_version : String
schema_bundle_version = "5"

abbrev pub record_kinds : List String
record_kinds = "change" ∷ "contract" ∷ "decision" ∷ "evidence" ∷ "result" ∷ []

abbrev pub result_schema_ids : List String
result_schema_ids =
    "result.analysis" ∷ "result.build" ∷ "result.challenge" ∷ "result.evidence"
    ∷ "result.human-answer" ∷ "result.impact-assessment" ∷ "result.risk-signal-review" ∷ []

-- The files below the schema root: what `read_json` gives for a record kind's file, and for each
-- `*.schema.json` of `result-payloads`, in the order of their paths, or why they cannot be listed.
pub record SchemaFiles : Type 0 where
  pub record_schema : String → Result String Value
  pub payload_schemas : Result String (List (Result String Value))

-- `SchemaRegistryError`
pub data RegistryError : Type 0 where
  unreadable : String → RegistryError
  not_an_object no_identity invalid_roles no_allowed_role no_digest : RegistryError
  duplicate inexact_keys : String → RegistryError

unfoldable pub require_object : Value → Result RegistryError (Map Value)
require_object value = ok_or (as_object value) not_an_object

unfoldable pub load_records :
    SchemaFiles → List String → Map Value → Result RegistryError (Map Value)
load_records files [] schemas = ok schemas
load_records files (kind ∷ kinds) schemas =
    map_err unreadable (files.record_schema kind) >>= λ schema.
    require_object schema >>= λ entries. load_records files kinds (Map.insert kind schema schemas)

abbrev pub is_string : Value → Bool
is_string value = is_some (as_str value)

-- The `x-allowed-roles` that pass the filter.
unfoldable pub allowed_roles : Map Value → Option (List Value)
allowed_roles entries = elim (Map.get "x-allowed-roles" entries) [
  | none ↦ none
  | some value ↦ elim (as_array value) [
    | none ↦ none
    | some roles ↦ if not (is_empty roles) && all is_string roles then some roles else none
  ]
]

unfoldable pub identity : Map Value → Option String
identity entries = and_then (Map.get "x-result-schema" entries) as_str

unfoldable pub add_payload : Value → Map Value → Result RegistryError (Map Value)
add_payload schema schemas = require_object schema >>= λ entries.
    ok_or (identity entries) no_identity >>= λ result_schema.
    ok_or (allowed_roles entries) invalid_roles >>= λ roles.
    guard (not (is_empty roles)) no_allowed_role
    >> (guard (not (is_some (Map.get result_schema schemas))) (duplicate result_schema)
        >> ok (Map.insert result_schema schema schemas))

unfoldable pub load_payloads :
    List (Result String Value) → Map Value → Result RegistryError (Map Value)
load_payloads [] schemas = ok schemas
load_payloads (file ∷ files) schemas = map_err unreadable file >>= λ schema.
    add_payload schema schemas >>= λ added. load_payloads files added

-- `assert_exact_keys`: the two sets have the same members.
unfoldable pub assert_exact_keys :
    String → List String → List String → Result RegistryError (Unit {0})
assert_exact_keys label actual expected =
    guard (all (λ key. member key expected) actual && all (λ key. member key actual) expected)
      (inexact_keys label)

abbrev pub bundle : Map Value → Map Value → Value
bundle record_schemas result_payload_schemas = object (
    fields (
      ("bundle_version", string schema_bundle_version)
      ∷ ("record_schemas", object (fields record_schemas))
      ∷ ("result_payload_schemas", object (fields result_payload_schemas))
      ∷ []))

-- The maps of the bundle are read back from it as they are.
unfoldable pub load : Crates → SchemaFiles → Result RegistryError SchemaRegistry
load crates files = load_records files record_kinds [] >>= λ record_schemas.
    map_err unreadable files.payload_schemas >>= λ payload_files.
    load_payloads payload_files [] >>= λ result_payload_schemas.
    assert_exact_keys "Record Schema" (keys_of record_schemas) record_kinds
    >> (assert_exact_keys "Result payload Schema" (keys_of result_payload_schemas) result_schema_ids
        >> (map_err (λ e. no_digest)
              (canonical_digest crates (bundle record_schemas result_payload_schemas))
            >>= λ digest. ok (record {
              record_schemas = record_schemas;
              result_payload_schemas = result_payload_schemas;
              digest = digest;
            })))
