-- ===== src/Tests/Documents.antt =====
-- A schema, a schema bundle and Records of them, and the theorems at these (src/schema.rs).
use agentic_development_fram.Base.{
  String, true, false, some, [], ◌∷◌, ◌≡◌, refl, ◌↔◌, ok, err, map, decimal, ◌<>◌,
}
use agentic_development_fram.Base.Order.{sort_by}
use agentic_development_fram.Base.Map
use agentic_development_fram.Base.Map.{Map}
use agentic_development_fram.Json.Value
use agentic_development_fram.Json.Value.{
  Value, index, string, number, unsigned, negative, bool, fields, object,
}
use agentic_development_fram.Json.Canonical.{
  canonical_digest, canonical_json, write_number, write_entries, join_items, write_canonical,
}
use agentic_development_fram.Kernel.Candidates.{json_object, json_texts}
use agentic_development_fram.Schema.Registry.{SchemaRegistry}
use agentic_development_fram.Schema.Keywords.{
  Libraries, SchemaValidationError, failure, invalid, no_alternative, check_equal, check_string,
  check_items, check_required, field_schema, is_closed, matches_type, value_eq, number_eq,
  collect_set, check_pattern,
}
use agentic_development_fram.Schema.Validate.{
  validate_json_document, validate_value, depth, check_node, check_object, check_array,
  check_fields, check_field, check_each, check_alternatives,
}
use agentic_development_fram.Schema.Validate.Conforms.{Conforms}
use agentic_development_fram.Schema.Validate.Decides.{
  validate_json_document_iff, validate_json_document-refuses,
}
use agentic_development_fram.Schema.Validate.ReadPart.{one_schema, read_part}
use agentic_development_fram.Schema.Validate.Unread.{validate_json_document-read_part}
use agentic_development_fram.Schema.Load.{
  SchemaFiles, load, load_records, load_payloads, add_payload, require_object, identity,
  allowed_roles, assert_exact_keys, record_kinds, result_schema_ids,
}
use agentic_development_fram.Schema.Load.Loaded.{IsLoaded, load-IsLoaded}
use agentic_development_fram.Schema.Records.{validate, validate_result}
use agentic_development_fram.Schema.Records.Accepts.{IsResult, validate_iff}
use agentic_development_fram.Tests.Data.{test_crates, list_of}

-- A regex that is its only match, and no text for a value.
abbrev pub test_libraries : Libraries
test_libraries = record { regex = λ pattern. ok (λ text. true); to_string = λ value. "value" }

abbrev note_schema : Value
note_schema = json_object (
    ("type", string "object")
    ∷ ("required", json_texts ("id" ∷ []))
    ∷ ("additionalProperties", bool false)
    ∷ (
      "properties",
      json_object (
          ("id", json_object (("type", string "string") ∷ ("minLength", number (unsigned 1)) ∷ []))
          ∷ (
            "tags",
            json_object (
                ("type", string "array")
                ∷ (
                  "items",
                  json_object (
                      (
                        "anyOf",
                        list_of (
                            json_object (("const", string "a") ∷ [])
                            ∷ json_object (("type", string "integer") ∷ [])
                            ∷ []),
                      )
                      ∷ []),
                )
                ∷ []),
          )
          ∷ []),
    )
    ∷ [])

abbrev note : Value
note =
    json_object
      (("id", string "N-1") ∷ ("tags", list_of (string "a" ∷ number (unsigned 3) ∷ [])) ∷ [])

abbrev other_note : Value
other_note =
    json_object (("id", string "N-1") ∷ ("tags", list_of (string "a" ∷ string "b" ∷ [])) ∷ [])

note_run : validate_json_document test_libraries note note_schema ≡ ok tt
unfolding validate_json_document validate_value depth check_node check_object check_array
    check_fields check_field check_each check_alternatives check_equal check_string check_items
    check_required field_schema is_closed matches_type value_eq number_eq collect_set check_pattern
    Map.get
note_run = refl

other_note_run :
    validate_json_document test_libraries other_note note_schema
    ≡ err (failure "$.tags[1]" no_alternative)
unfolding validate_json_document validate_value depth check_node check_object check_array
    check_fields check_field check_each check_alternatives check_equal check_string check_items
    check_required field_schema is_closed matches_type value_eq number_eq collect_set check_pattern
    Map.get decimal
other_note_run = refl

validate_json_document_iff_example :
    (validate_json_document test_libraries note note_schema ≡ ok tt)
    ↔ Conforms test_libraries note note_schema
validate_json_document_iff_example = validate_json_document_iff test_libraries note note_schema

other_note_refused : ¬ Conforms test_libraries other_note note_schema
other_note_refused c =
    cc ((validate_json_document_iff test_libraries other_note note_schema).1 c, other_note_run)

validate_json_document-refuses_example :
    (e : SchemaValidationError) × (validate_json_document test_libraries other_note note_schema
      ≡ err (invalid e))
    × (rest : String) × (e.path ≡ "$" <> rest)
validate_json_document-refuses_example =
    validate_json_document-refuses test_libraries other_note note_schema other_note_refused

abbrev record_file : String → Value
record_file kind = json_object (("title", string kind) ∷ ("type", string "object") ∷ [])

abbrev payload_file : String → Value
payload_file id = json_object (
    ("type", string "object")
    ∷ ("x-allowed-roles", json_texts ("Builder" ∷ []))
    ∷ ("x-result-schema", string id)
    ∷ [])

abbrev pub test_files : SchemaFiles
test_files = record {
  record_schema = λ kind. ok (record_file kind);
  payload_schemas = ok (map (λ id. ok (payload_file id)) result_schema_ids);
}

abbrev pub test_registry : SchemaRegistry
test_registry = record {
  record_schemas = map (λ kind. (kind, record_file kind)) record_kinds;
  result_payload_schemas = map (λ id. (id, payload_file id)) result_schema_ids;
  digest = "sha256:1056";
}

pub load_run : load test_crates test_files ≡ ok test_registry
unfolding load load_records load_payloads add_payload require_object identity allowed_roles
    assert_exact_keys Map.get Map.insert canonical_digest canonical_json write_canonical
    write_number write_entries join_items decimal sort_by
load_run = refl

load-IsLoaded_example : IsLoaded test_registry
load-IsLoaded_example = load-IsLoaded test_crates test_files load_run

abbrev build_result : Value
build_result = json_object (
    ("payload", json_object [])
    ∷ ("result_schema", string "result.build")
    ∷ ("role", string "Builder")
    ∷ [])

result_run : validate test_libraries test_registry "result" build_result ≡ ok tt
unfolding validate validate_result validate_value depth check_node check_object check_array
    check_fields check_field check_each check_alternatives check_equal check_string check_items
    check_required field_schema is_closed matches_type value_eq number_eq Map.get Value.get index
result_run = refl

validate_iff_example : (validate test_libraries test_registry "result" build_result ≡ ok tt) ↔ (
    (schema : Value) × (Map.get "result" test_registry.record_schemas ≡ some schema)
    × Conforms test_libraries build_result schema
    × (Path String "result" "result" → IsResult test_libraries test_registry build_result))
validate_iff_example = validate_iff test_libraries test_registry "result" build_result

-- The bundle has such schemas: a minimum at a property.
abbrev minimum_schema : Value
minimum_schema = json_object (
    (
      "properties",
      json_object (
          (
            "context_bytes",
            json_object (("minimum", number (unsigned 0)) ∷ ("type", string "integer") ∷ []),
          )
          ∷ []),
    )
    ∷ ("type", string "object")
    ∷ [])

abbrev type_schema : Value
type_schema = json_object (
    (
      "properties",
      json_object (("context_bytes", json_object (("type", string "integer") ∷ [])) ∷ []),
    )
    ∷ ("type", string "object")
    ∷ [])

abbrev negative_bytes : Value
negative_bytes = json_object (("context_bytes", number (negative 1)) ∷ [])

-- A number below the minimum is accepted.
unread_run : validate_json_document test_libraries negative_bytes minimum_schema ≡ ok tt
unfolding validate_json_document validate_value depth check_node check_equal matches_type Map.get
    check_object check_fields check_field field_schema
unread_run = refl

read_part_run : read_part one_schema minimum_schema ≡ type_schema
unfolding read_part
read_part_run = refl

validate_json_document-read_part_example :
    (validate_json_document test_libraries negative_bytes minimum_schema ≡ ok tt)
    ↔ (validate_json_document test_libraries negative_bytes type_schema ≡ ok tt)
unfolding read_part
validate_json_document-read_part_example =
    validate_json_document-read_part test_libraries negative_bytes minimum_schema
