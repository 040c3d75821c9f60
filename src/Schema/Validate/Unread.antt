-- ===== src/Schema/Validate/Unread.antt =====
-- The keywords that the validator does not read (`validate_value` of src/schema.rs).
use agentic_development_fram.Base.{
  ℕ, zero, suc, ◌+◌, String, Option, none, some, List, [], ◌∷◌, ◌≡◌, refl, sym, ◌∙◌, ◌↔◌, inl, inr,
  ok, Option-cases, arith, ◌<◌, any, map, and_then,
}
use agentic_development_fram.Base.Map
use agentic_development_fram.Base.Map.{Map}
use agentic_development_fram.Json.Value.{
  Value, object, array, Fields, field_list, item_list, as_array,
}
use agentic_development_fram.Schema.Keywords.{
  Libraries, keyword, where_some, check_string, check_items, field_schema,
}
use agentic_development_fram.Schema.Validate.{
  Validator, succeeds, check_alternatives, check_each, check_field, check_fields, check_array,
  check_object, check_node, validate_value, depth, validate_json_document,
}
use agentic_development_fram.Schema.Validate.Decides.{validate_value_sound, validate_value_complete}
use agentic_development_fram.Schema.Validate.ReadPart.{
  one_schema, schema_list, read_part, part_in, get-read_fields, item_list-read_each, read_map,
  get-plain, field_schema-read, is_closed-read, check_equal-read,
}

-- A validator that reads of a schema what it keeps reads of a node what it keeps.
module _ (validate : Validator)
    (alike : (value s : Value) (path : String)
      → validate value (read_part one_schema s) path ≡ validate value s path) where
  any-read :
      (value : Value) (path : String) (vs : List Value)
      → any
          (λ alternative. succeeds (validate value alternative path))
          (map (read_part one_schema) vs)
        ≡ any (λ alternative. succeeds (validate value alternative path)) vs
  any-read value path [] = refl
  any-read value path (v ∷ vs) = rw (alike value v path) (rw (any-read value path vs) refl)

  alternatives-read :
      (value : Value) (path : String) (o : Option Value)
      → where_some
          (and_then (part_in schema_list o) as_array)
          (check_alternatives validate value path)
        ≡ where_some (and_then o as_array) (check_alternatives validate value path)
  unfolding read_part check_alternatives
  alternatives-read value path none = refl
  alternatives-read value path (some (array vs)) =
      rw (item_list-read_each vs) (rw (any-read value path (item_list vs)) refl)
  alternatives-read value path (some (object fs)) = refl
  alternatives-read value path (some (Value.string s)) = refl
  alternatives-read value path (some (Value.number n)) = refl
  alternatives-read value path (some (Value.bool b)) = refl
  alternatives-read value path (some Value.null) = refl

  check_each-read :
      (s : Value) (path : String) (n : ℕ) (vs : List Value)
      → check_each validate (read_part one_schema s) path n vs ≡ check_each validate s path n vs
  unfolding check_each
  check_each-read s path n [] = refl
  check_each-read s path n (v ∷ vs) = rw (alike v s _) (rw (check_each-read s path (n + 1) vs) refl)

  items-read :
      (path : String) (vs : List Value) (o : Option Value)
      → where_some (part_in one_schema o) (λ inner. check_each validate inner path 0 vs)
        ≡ where_some o (λ inner. check_each validate inner path 0 vs)
  items-read path vs none = refl
  items-read path vs (some s) = check_each-read s path 0 vs

  module _ (fs : Fields) where
    any_of-read :
        (value : Value) (path : String)
        → where_some
            (keyword (read_map fs) "anyOf" as_array)
            (check_alternatives validate value path)
          ≡ where_some
              (keyword (field_list fs) "anyOf" as_array)
              (check_alternatives validate value path)
    any_of-read value path =
        rw (get-read_fields "anyOf" refl fs)
          (alternatives-read value path (Map.get "anyOf" (field_list fs)))

    check_field-read :
        (path s : String) (item : Value)
        → check_field validate (read_map fs) path s item
          ≡ check_field validate (field_list fs) path s item
    unfolding check_field
    check_field-read path s item =
        rw (field_schema-read fs s, check_field)
          (elim (Option-cases (field_schema (field_list fs) s)) [
            | inl e ↦ rw (e, check_field) (rw (is_closed-read fs) refl)
            | inr (inner, e) ↦ rw (e, check_field) (alike item inner _)
          ])

    check_fields-read :
        (path : String) (entries : Map Value)
        → check_fields validate (read_map fs) path entries
          ≡ check_fields validate (field_list fs) path entries
    unfolding check_fields
    check_fields-read path [] = refl
    check_fields-read path ((s, item) ∷ entries) =
        rw (check_field-read path s item) (rw (check_fields-read path entries) refl)

    module _ (libraries : Libraries) where
      check_string-read :
          (path text : String)
          → check_string libraries (read_map fs) path text
            ≡ check_string libraries (field_list fs) path text
      unfolding check_string
      check_string-read path text =
          rw (get-plain fs "minLength" refl refl) (rw (get-plain fs "pattern" refl refl) refl)

      check_array-read :
          (path : String) (vs : List Value)
          → check_array libraries validate (read_map fs) path vs
            ≡ check_array libraries validate (field_list fs) path vs
      unfolding check_array check_items
      check_array-read path vs = rw (get-plain fs "minItems" refl refl) (
          rw (get-plain fs "uniqueItems" refl refl) (
            rw (get-read_fields "items" refl fs)
              (rw (items-read path vs (Map.get "items" (field_list fs))) refl)))

      check_object-read :
          (path : String) (entries : Map Value)
          → check_object libraries validate (read_map fs) path entries
            ≡ check_object libraries validate (field_list fs) path entries
      unfolding check_object
      check_object-read path entries =
          rw (get-plain fs "required" refl refl) (rw (check_fields-read path entries) refl)

      check_node-read :
          (value : Value) (path : String)
          → check_node libraries validate value (read_map fs) path
            ≡ check_node libraries validate value (field_list fs) path
      unfolding check_node
      check_node-read (Value.string text) path = rw (any_of-read (Value.string text) path) (
          rw (check_equal-read fs (Value.string text) path) (rw (check_string-read path text) refl))
      check_node-read (array vs) path = rw (any_of-read (array vs) path) (
          rw (check_equal-read fs (array vs) path) (rw (check_array-read path (item_list vs)) refl))
      check_node-read (object entries) path = rw (any_of-read (object entries) path) (
          rw (check_equal-read fs (object entries) path)
            (rw (check_object-read path (field_list entries)) refl))
      check_node-read Value.null path =
          rw (any_of-read Value.null path) (rw (check_equal-read fs Value.null path) refl)
      check_node-read (Value.bool b) path =
          rw (any_of-read (Value.bool b) path) (rw (check_equal-read fs (Value.bool b) path) refl)
      check_node-read (Value.number n) path =
          rw (any_of-read (Value.number n) path)
            (rw (check_equal-read fs (Value.number n) path) refl)

-- Every call of the validator, on every fuel, reads of a schema what it keeps.
validate_value-read :
    (libraries : Libraries) (fuel : ℕ) (value s : Value) (path : String)
    → validate_value libraries fuel value (read_part one_schema s) path
      ≡ validate_value libraries fuel value s path
unfolding validate_value read_part
validate_value-read libraries zero value s path = refl
validate_value-read libraries (suc fuel) value (object fs) path =
    check_node-read (validate_value libraries fuel) (validate_value-read libraries fuel) fs
      libraries value path
validate_value-read libraries (suc fuel) value (array vs) path = refl
validate_value-read libraries (suc fuel) value (Value.string s) path = refl
validate_value-read libraries (suc fuel) value (Value.number n) path = refl
validate_value-read libraries (suc fuel) value (Value.bool b) path = refl
validate_value-read libraries (suc fuel) value Value.null path = refl

-- With enough fuel, a schema that validates like another accepts what the other accepts.
accepts_like :
    (libraries : Libraries) (value s t : Value) (fuel : ℕ)
    → depth s < fuel
    → depth t < fuel
    → validate_value libraries fuel value s "$" ≡ validate_value libraries fuel value t "$"
    → validate_json_document libraries value s ≡ ok tt
    → validate_json_document libraries value t ≡ ok tt
unfolding validate_json_document
accepts_like libraries value s t fuel p q same h =
    validate_value_complete libraries (suc (depth t)) value t "$" (omega arith) (
      validate_value_sound libraries fuel value t "$" (
        sym same
        ∙ validate_value_complete libraries fuel value s "$" p
            (validate_value_sound libraries (suc (depth s)) value s "$" h)))

-- The keywords that the validator does not read, like `minimum` or `minProperties`, have no effect
-- wherever they stand: a document is accepted by a schema exactly if it is accepted by the schema
-- without them, in the schema itself and in its alternatives, properties, items and additional
-- properties at every depth.
pub validate_json_document-read_part :
    (libraries : Libraries) (value s : Value)
    → (validate_json_document libraries value s ≡ ok tt)
      ↔ (validate_json_document libraries value (read_part one_schema s) ≡ ok tt)
validate_json_document-read_part libraries value s =
    let t = read_part one_schema s in
    let fuel = suc (depth s + depth t) in
    let same = validate_value-read libraries fuel value s "$" in
    (
      accepts_like libraries value s t fuel (omega arith) (omega arith) (sym same),
      accepts_like libraries value t s fuel (omega arith) (omega arith) same,
    )
