-- ===== src/Schema/Validate.antt =====
-- `validate_value` of src/schema.rs: how it goes into alternatives, items and fields, in the order of
-- the code.
pub mod Conforms
pub mod Checks
pub mod Nodes
pub mod Accepts
pub mod Depth
pub mod Located
pub mod Decides
pub mod ReadPart
pub mod Unread
use agentic_development_fram.Base.{
  ℕ, zero, suc, String, Bool, true, false, not, ◌&&◌, ◌||◌, Option, none, some, List, [], ◌∷◌, ◌==◌,
  ◌<>◌, decimal, length, any, filter_map, is_some, is_some_and, and_then, or_else, unwrap_or, ltb,
  nat_eq, Result, ok, err, guard, ◌>>=◌, ◌>>◌, map, if◌then◌else◌,
}
use Prim.Native.Nat.{◌+◌, max}
use Prim.Native.String.{count as char_count}
use agentic_development_fram.Base.Map
use agentic_development_fram.Base.Map.{Map}
use agentic_development_fram.Json.Value.{
  Value, null, bool, number, string, array, object, Items, nil, cons, Fields, end, field, Number,
  unsigned, negative, float, as_str, as_array, as_object,
}
use agentic_development_fram.Schema.Keywords.{
  no_alternative, unexpected_field, out_of_fuel, schema_not_an_object, Libraries, Reason,
  SchemaValidationError, Failure, failure, Validation, number_eq, value_eq, items_eq, fields_eq,
  as_u64, as_bool, keyword, matches_type, where_some, check_equal, collect_set, check_pattern,
  check_string, check_items, check_required, additional_schema, field_schema, is_closed,
}

abbrev pub Validator : Type 0
Validator = Value → Value → String → Validation

abbrev pub succeeds : Validation → Bool
succeeds (ok u) = true
succeeds (err e) = false

-- The parts that validate a value inside, by the validator that they are given.
unfoldable pub check_alternatives : Validator → Value → String → List Value → Validation
check_alternatives validate value path alternatives =
    guard (any (λ alternative. succeeds (validate value alternative path)) alternatives)
      (failure path no_alternative)

unfoldable pub check_each : Validator → Value → String → ℕ → List Value → Validation
check_each validate schema path index [] = ok tt
check_each validate schema path index (item ∷ items) =
    validate item schema (path <> "[" <> decimal index <> "]")
    >> check_each validate schema path (index + 1) items

unfoldable pub check_field : Validator → Map Value → String → String → Value → Validation
check_field validate schema path name item = elim (field_schema schema name) [
  | some inner ↦ validate item inner (path <> "." <> name)
  | none ↦ guard (not (is_closed schema)) (failure (path <> "." <> name) unexpected_field)
]

unfoldable pub check_fields : Validator → Map Value → String → Map Value → Validation
check_fields validate schema path [] = ok tt
check_fields validate schema path ((name, item) ∷ entries) =
    check_field validate schema path name item >> check_fields validate schema path entries

module _ (libraries : Libraries) where
  unfoldable pub check_array : Validator → Map Value → String → List Value → Validation
  check_array validate schema path items =
      check_items libraries schema path items
      >> where_some (Map.get "items" schema) (λ inner. check_each validate inner path 0 items)

  unfoldable pub check_object : Validator → Map Value → String → Map Value → Validation
  check_object validate schema path entries =
      where_some (keyword schema "required" as_array)
        (λ required. check_required entries path (filter_map as_str required))
      >> check_fields validate schema path entries

  unfoldable pub check_node : Validator → Value → Map Value → String → Validation
  check_node validate value schema path =
      where_some (keyword schema "anyOf" as_array) (check_alternatives validate value path)
      >> (check_equal value schema path
          >> (where_some (as_str value) (check_string libraries schema path)
              >> (where_some (as_array value) (check_array validate schema path)
                  >> where_some (as_object value) (check_object validate schema path))))

  unfoldable pub validate_value : ℕ → Validator
  validate_value zero value schema path = err out_of_fuel
  validate_value (suc fuel) value schema path = elim (as_object schema) [
    | none ↦ err (failure path schema_not_an_object)
    | some entries ↦ check_node (validate_value fuel) value entries path
  ]

-- How deep a schema is: each call of the validator takes a schema inside its own.
unfoldable mutual
  pub depth : Value → ℕ
  depth (array vs) = suc (items_depth vs)
  depth (object fs) = suc (fields_depth fs)
  depth _ = 0

  pub items_depth : Items → ℕ
  items_depth nil = 0
  items_depth (cons v vs) = max (depth v) (items_depth vs)

  pub fields_depth : Fields → ℕ
  fields_depth end = 0
  fields_depth (field k v fs) = max (depth v) (fields_depth fs)

-- `validate_json_document`
unfoldable pub validate_json_document : Libraries → Value → Value → Validation
validate_json_document libraries value document_schema =
    validate_value libraries (suc (depth document_schema)) value document_schema "$"
