-- ===== src/Schema/Keywords.antt =====
-- The keywords of the JSON Schema subset that look at one value alone: `matches_type` and the tests
-- of `validate_value` of src/schema.rs, one function for each keyword or group of keywords.
use agentic_development_fram.Base.{
  ℕ, String, Bool, true, false, not, ◌&&◌, ◌||◌, Option, none, some, List, [], ◌∷◌, ◌==◌, length,
  any, is_some, and_then, or_else, unwrap_or, ltb, nat_eq, Result, ok, err, guard, ◌>>◌, map,
  if◌then◌else◌,
}
use Prim.Native.String.{count as char_count}
use agentic_development_fram.Base.Map
use agentic_development_fram.Base.Map.{Map}
use agentic_development_fram.Json.Value.{
  Value, null, bool, number, string, array, object, Items, nil, cons, Fields, end, field, Number,
  unsigned, negative, float, as_str, as_array, as_object,
}

-- The crates that the validator calls: `Regex::new`, which fails or gives the test `is_match`, and
-- `Value::to_string`.
pub record Libraries : Type 0 where
  pub regex : String → Result String (String → Bool)
  pub to_string : Value → String

-- The reason of a `SchemaValidationError`, for its text.
pub data Reason : Type 0 where
  schema_not_an_object no_alternative not_in_enum not_unique unexpected_field : Reason
  not_equal : Value → Reason
  not_of_type invalid_pattern no_match missing_field unknown_kind unsupported_schema :
      String → Reason
  too_few_characters too_few_items : ℕ → Reason
  role_not_allowed : String → String → Reason

pub record SchemaValidationError : Type 0 where
  pub path : String
  pub reason : Reason

-- An error, or what the code never does: run out of fuel, and an `expect` that fails.
pub data Failure : Type 0 where
  invalid : SchemaValidationError → Failure
  out_of_fuel panic : Failure

abbrev pub failure : String → Reason → Failure
failure path reason = invalid (record { path = path; reason = reason })

abbrev pub Validation : Type 0
Validation = Result Failure (Unit {0})

-- `==` of two numbers: two zeros of different sign are equal.
is_float_zero : String → Bool
is_float_zero s = s == "0.0" || s == "-0.0"

unfoldable pub number_eq : Number → Number → Bool
unfolding is_float_zero
number_eq (unsigned m) (unsigned n) = nat_eq m n
number_eq (negative m) (negative n) = nat_eq m n
number_eq (float s) (float t) = s == t || (is_float_zero s && is_float_zero t)
number_eq _ _ = false

-- `==` of two values.
unfoldable mutual
  pub value_eq : Value → Value → Bool
  value_eq null null = true
  value_eq (bool true) (bool c) = c
  value_eq (bool false) (bool c) = not c
  value_eq (number m) (number n) = number_eq m n
  value_eq (string s) (string t) = s == t
  value_eq (array vs) (array ws) = items_eq vs ws
  value_eq (object fs) (object gs) = fields_eq fs gs
  value_eq _ _ = false

  pub items_eq : Items → Items → Bool
  items_eq nil nil = true
  items_eq (cons v vs) (cons w ws) = value_eq v w && items_eq vs ws
  items_eq _ _ = false

  pub fields_eq : Fields → Fields → Bool
  fields_eq end end = true
  fields_eq (field k v fs) (field l w gs) = k == l && (value_eq v w && fields_eq fs gs)
  fields_eq _ _ = false

-- `as_u64`, `as_bool`
abbrev pub as_u64 : Value → Option ℕ
as_u64 (number (unsigned n)) = some n
as_u64 _ = none

abbrev pub as_bool : Value → Option Bool
as_bool (bool b) = some b
as_bool _ = none

-- `schema.get(keyword).and_then(Value::as_…)`
abbrev pub keyword : {A : Type 0} → Map Value → String → (Value → Option A) → Option A
keyword schema name read = and_then (Map.get name schema) read

abbrev is_integer : Value → Bool
is_integer (number (float s)) = false
is_integer (number n) = true
is_integer _ = false

abbrev is_number : Value → Bool
is_number (number n) = true
is_number _ = false

abbrev is_null : Value → Bool
is_null null = true
is_null _ = false

unfoldable pub matches_type : Value → String → Bool
matches_type value expected =
    if expected == "object"
    then is_some (as_object value)
    else if expected == "array"
    then is_some (as_array value)
    else if expected == "string"
    then is_some (as_str value)
    else if expected == "integer"
    then is_integer value
    else if expected == "number"
    then is_number value
    else if expected == "boolean"
    then is_some (as_bool value)
    else if expected == "null"
    then is_null value
    else false

-- A test that is made only where the keyword is there.
abbrev pub where_some : {A : Type 0} → Option A → (A → Validation) → Validation
where_some none check = ok tt
where_some (some a) check = check a

unfoldable pub check_equal : Value → Map Value → String → Validation
check_equal value schema path =
    where_some (Map.get "const" schema)
      (λ expected. guard (value_eq value expected) (failure path (not_equal expected)))
    >> where_some (keyword schema "enum" as_array)
        (λ allowed. guard (any (λ v. value_eq v value) allowed) (failure path not_in_enum))
    >> where_some (keyword schema "type" as_str)
        (λ expected. guard (matches_type value expected) (failure path (not_of_type expected)))

-- The members of a `BTreeSet`, each once.
unfoldable pub collect_set : List String → List String
collect_set [] = []
collect_set (s ∷ ss) =
    let rest = collect_set ss in if any (λ t. t == s) rest then rest else s ∷ rest

module _ (libraries : Libraries) where
  unfoldable pub check_pattern : String → String → String → Validation
  check_pattern text path pattern = elim (libraries.regex pattern) [
    | err error ↦ err (failure path (invalid_pattern error))
    | ok is_match ↦ guard (is_match text) (failure path (no_match pattern))
  ]

  unfoldable pub check_string : Map Value → String → String → Validation
  check_string schema path text =
      where_some (keyword schema "minLength" as_u64) (λ minimum.
        guard (not (ltb (char_count text) minimum)) (failure path (too_few_characters minimum)))
      >> where_some (keyword schema "pattern" as_str) (check_pattern text path)

  -- The `BTreeSet` of the items' texts has as many members as there are items.
  unfoldable pub check_items : Map Value → String → List Value → Validation
  check_items schema path items =
      where_some (keyword schema "minItems" as_u64)
        (λ minimum. guard (not (ltb (length items) minimum)) (failure path (too_few_items minimum)))
      >> guard
          (not (unwrap_or (keyword schema "uniqueItems" as_bool) false)
            || nat_eq (length (collect_set (map libraries.to_string items))) (length items))
          (failure path not_unique)

-- `contains_key` of each required field, to the first that is missing.
unfoldable pub check_required : Map Value → String → List String → Validation
check_required entries path [] = ok tt
check_required entries path (name ∷ names) =
    guard (is_some (Map.get name entries)) (failure path (missing_field name))
    >> check_required entries path names

-- `additionalProperties`, if it is an object.
abbrev pub additional_schema : Option Value → Option Value
additional_schema (some (object fs)) = some (object fs)
additional_schema _ = none

-- The schema of a field: its property, or else `additionalProperties`.
unfoldable pub field_schema : Map Value → String → Option Value
field_schema schema name =
    or_else (Map.get name (unwrap_or (keyword schema "properties" as_object) []))
      (additional_schema (Map.get "additionalProperties" schema))

-- `additionalProperties` is `false`.
unfoldable pub is_closed : Map Value → Bool
is_closed schema = elim (Map.get "additionalProperties" schema) [
  | some (bool b) ↦ not b
  | _ ↦ false
]
