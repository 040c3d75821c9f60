-- ===== src/Json/Value.antt =====
-- `serde_json::Value` with the accessors that the program uses, and the path readers of
-- src/kernel.rs.
use agentic_development_fram.Base.{
  ℕ, String, Bool, false, Option, none, some, List, [], ◌∷◌, filter_map, any, ◌==◌, and_then,
  is_some_and, nat_eq,
}
use agentic_development_fram.Base.Map
use agentic_development_fram.Base.Map.{Map}

-- A number of `serde_json`: an unsigned one, `negative n` for -n, or a floating-point one, which
-- the program only tells from the others, by its text.
pub data Number : Type 0 where
  unsigned negative : ℕ → Number
  float : String → Number

mutual
  pub data Value : Type 0 where
    null : Value
    bool : Bool → Value
    number : Number → Value
    string : String → Value
    array : Items → Value
    object : Fields → Value

  pub data Items : Type 0 where
    nil : Items
    cons : Value → Items → Items

  pub data Fields : Type 0 where
    end : Fields
    field : String → Value → Fields → Fields

-- The contents of an array and of an object as lists.
abbrev pub item_list : Items → List Value
item_list nil = []
item_list (cons v vs) = v ∷ item_list vs

abbrev pub field_list : Fields → Map Value
field_list end = []
field_list (field k v fs) = (k, v) ∷ field_list fs

abbrev pub items : List Value → Items
items [] = nil
items (v ∷ vs) = cons v (items vs)

abbrev pub fields : Map Value → Fields
fields [] = end
fields ((k, v) ∷ fs) = field k v (fields fs)

-- `Value::as_str`, `as_array`, `as_object`
abbrev pub as_str : Value → Option String
as_str (string s) = some s
as_str _ = none

abbrev pub as_array : Value → Option (List Value)
as_array (array vs) = some (item_list vs)
as_array _ = none

abbrev pub as_object : Value → Option (Map Value)
as_object (object fs) = some (field_list fs)
as_object _ = none

-- `as_i64() == Some(0)`
abbrev pub is_zero : Value → Bool
is_zero (number (unsigned n)) = nat_eq n 0
is_zero _ = false

-- `value.get(field)`
unfoldable pub get : Value → String → Option Value
get (object fs) k = Map.get k (field_list fs)
get _ k = none

-- `value[field]`, `null` where there is no such field
unfoldable pub index : Value → String → Value
index v k = elim (get v k) [ none ↦ null | some w ↦ w ]

-- `string_field`
unfoldable pub string_field : Value → String → Option String
string_field v k = and_then (get v k) as_str

-- `string_field(value, field) == Some(expected)`
unfoldable pub field_is : Value → String → String → Bool
field_is v k s = is_some_and (string_field v k) (λ t. t == s)

-- `nested_string`
unfoldable pub nested_string : Value → List String → Option String
nested_string v [] = as_str v
nested_string v (k ∷ ks) = and_then (get v k) (λ w. nested_string w ks)

-- `nested_array`
unfoldable pub nested_array : Value → List String → List Value
nested_array v [] = elim (as_array v) [ none ↦ [] | some vs ↦ vs ]
nested_array v (k ∷ ks) = elim (get v k) [ none ↦ [] | some w ↦ nested_array w ks ]

-- `string_array_set`
unfoldable pub string_array_set : Value → List String
string_array_set v = elim (as_array v) [ none ↦ [] | some vs ↦ filter_map as_str vs ]

-- `array_contains`
unfoldable pub array_contains : Value → String → Bool
array_contains v s =
    is_some_and (as_array v) (λ vs. any (λ item. is_some_and (as_str item) (λ t. t == s)) vs)

abbrev string_entry : String × Value → Option (String × String)
string_entry (k, v) = elim (as_str v) [ none ↦ none | some s ↦ some (k, s) ]

-- `string_map`
unfoldable pub string_map : Option Value → Map String
string_map none = []
string_map (some v) = elim (as_object v) [ none ↦ [] | some fs ↦ filter_map string_entry fs ]
