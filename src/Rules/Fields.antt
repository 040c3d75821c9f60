-- ===== src/Rules/Fields.antt =====
-- Reading the fields of a rule source: `optional_array` to `require_object` of src/rules.rs. An
-- error is its message.
use agentic_development_fram.Base.{
  String, Option, none, some, List, [], ◌<>◌, try_map, Result, ok, err, ◌>>=◌, ok_or, and_then,
}
use agentic_development_fram.Base.Map
use agentic_development_fram.Base.Map.{Map}
use agentic_development_fram.Json.Value.{Value, null, string, array, item_list, as_str, as_object}

unfoldable pub optional_array : Map Value → String → Result String (List Value)
optional_array object field = elim (Map.get field object) [
  | none ↦ ok []
  | some value ↦ elim value [
    | array values ↦ ok (item_list values)
    | _ ↦ err (field <> " must be an array")
  ]
]

unfoldable pub optional_string_array : Map Value → String → Result String (List String)
optional_string_array object field =
    optional_array object field
    >>= try_map (λ value. ok_or (as_str value) (field <> " items must be strings"))

unfoldable pub required_string : Map Value → String → Result String String
required_string object field =
    ok_or (and_then (Map.get field object) as_str) (field <> " must be a string")

unfoldable pub optional_string : Map Value → String → Result String (Option String)
optional_string object field = elim (Map.get field object) [
  | none ↦ ok none
  | some value ↦ elim value [
    | null ↦ ok none
    | string text ↦ ok (some text)
    | _ ↦ err (field <> " must be a string")
  ]
]

unfoldable pub require_object : Value → String → Result String (Map Value)
require_object value label = ok_or (as_object value) (label <> " must be an object")
