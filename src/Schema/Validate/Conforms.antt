-- ===== src/Schema/Validate/Conforms.antt =====
-- What it means that a value conforms to a schema, keyword by keyword, with no order of checks and
-- no errors: the specification of `validate_value` of src/schema.rs.
use Prim.Native.String.{count as char_count}
use agentic_development_fram.Base.{
  ℕ, String, Bool, true, false, none, some, List, [], ◌∷◌, ◌≡◌, refl, Memᴰ, is_some, ok, map, ◌≤◌,
  length,
}
use agentic_development_fram.Base.Map
use agentic_development_fram.Base.Map.{Map}
use agentic_development_fram.Json.Value.{
  Value, string, object, Fields, as_str, as_array, as_object, field_list,
}
use agentic_development_fram.Schema.Keywords.{
  Libraries, value_eq, matches_type, keyword, as_u64, as_bool, field_schema, is_closed,
}

-- No text is there twice.
abbrev pub IsDistinct : List String → Type 0
IsDistinct [] = Unit
IsDistinct (s ∷ ss) = ¬ Memᴰ s ss × IsDistinct ss

-- The keywords that look at one value. Each says something only where it is there, and most only of
-- one type of value.
pub record MeetsKeywords (libraries : Libraries) (value : Value) (schema : Map Value) : Type 0 where
  pub equal : (e : Value) → Map.get "const" schema ≡ some e → value_eq value e ≡ true
  pub listed :
      (allowed : List Value)
      → keyword schema "enum" as_array ≡ some allowed
      → (v : Value) × Memᴰ v allowed × (value_eq v value ≡ true)
  pub of_type : (t : String) → keyword schema "type" as_str ≡ some t → matches_type value t ≡ true
  pub long_enough :
      (text : String)
      → as_str value ≡ some text
      → (minimum : ℕ) → keyword schema "minLength" as_u64 ≡ some minimum
      → minimum ≤ char_count text
  pub matching :
      (text : String)
      → as_str value ≡ some text
      → (pattern : String) → keyword schema "pattern" as_str ≡ some pattern
      → (is_match : String → Bool) × (libraries.regex pattern ≡ ok is_match)
        × (is_match text ≡ true)
  pub enough_items :
      (items : List Value)
      → as_array value ≡ some items
      → (minimum : ℕ) → keyword schema "minItems" as_u64 ≡ some minimum
      → minimum ≤ length items
  pub unique_items :
      (items : List Value)
      → as_array value ≡ some items
      → keyword schema "uniqueItems" as_bool ≡ some true
      → IsDistinct (map libraries.to_string items)
  pub has_required :
      (entries : Map Value)
      → as_object value ≡ some entries
      → (required : List Value) → keyword schema "required" as_array ≡ some required
      → (name : String) → Memᴰ (string name) required
      → is_some (Map.get name entries) ≡ true

-- All keywords, where `P` says what conforms to the schemas inside.
pub record IsNode (libraries : Libraries) (P : Value → Value → Type 0) (value : Value)
    (schema : Map Value) : Type 0 where
  pub meets : MeetsKeywords libraries value schema
  pub one_of :
      (alternatives : List Value)
      → keyword schema "anyOf" as_array ≡ some alternatives
      → (alternative : Value) × Memᴰ alternative alternatives × P value alternative
  pub each_item :
      (items : List Value)
      → as_array value ≡ some items
      → (inner : Value) → Map.get "items" schema ≡ some inner
      → (item : Value) → Memᴰ item items
      → P item inner
  pub each_field :
      (entries : Map Value)
      → as_object value ≡ some entries
      → (name : String) (item : Value) → Memᴰ (name, item) entries
      → (inner : Value) → field_schema schema name ≡ some inner
      → P item inner
  pub no_other_field :
      (entries : Map Value)
      → as_object value ≡ some entries
      → (name : String) (item : Value) → Memᴰ (name, item) entries
      → field_schema schema name ≡ none
      → is_closed schema ≡ false

-- The value conforms to the schema: an object whose keywords hold of it, to any depth.
mutual
  pub data Conforms (libraries : Libraries) : Value → Value → Type 0 where
    conforms :
        {value : Value} {fs : Fields}
        → MeetsKeywords libraries value (field_list fs)
        → ((alternatives : List Value)
            → keyword (field_list fs) "anyOf" as_array ≡ some alternatives
            → SomeConforms libraries value alternatives)
        → ((items : List Value)
            → as_array value ≡ some items
            → (inner : Value) → Map.get "items" (field_list fs) ≡ some inner
            → (item : Value) → Memᴰ item items
            → Conforms libraries item inner)
        → ((entries : Map Value)
            → as_object value ≡ some entries
            → (name : String) (item : Value) → Memᴰ (name, item) entries
            → (inner : Value) → field_schema (field_list fs) name ≡ some inner
            → Conforms libraries item inner)
        → ((entries : Map Value)
            → as_object value ≡ some entries
            → (name : String) (item : Value) → Memᴰ (name, item) entries
            → field_schema (field_list fs) name ≡ none
            → is_closed (field_list fs) ≡ false)
        → Conforms libraries value (object fs)

  pub data SomeConforms (libraries : Libraries) : Value → List Value → Type 0 where
    some_conforms :
        {value alternative : Value} {alternatives : List Value}
        → Memᴰ alternative alternatives
        → Conforms libraries value alternative
        → SomeConforms libraries value alternatives

module _ (libraries : Libraries) where
  open_some :
      {value : Value} {alternatives : List Value}
      → SomeConforms libraries value alternatives
      → (alternative : Value) × Memᴰ alternative alternatives × Conforms libraries value alternative
  open_some (some_conforms {alternative = a} m c) = (a, m, c)

  pub Conforms-IsNode :
      {value schema : Value}
      → Conforms libraries value schema
      → (fs : Fields) × (schema ≡ object fs)
        × IsNode libraries (Conforms libraries) value (field_list fs)
  Conforms-IsNode (conforms {fs = fs} meets one_of each_item each_field no_other_field) = (
    fs,
    refl,
    record {
      meets = meets;
      one_of = λ alternatives e. open_some (one_of alternatives e);
      each_item = each_item;
      each_field = each_field;
      no_other_field = no_other_field;
    },
  )

  pub node-Conforms :
      {value : Value} {fs : Fields}
      → IsNode libraries (Conforms libraries) value (field_list fs)
      → Conforms libraries value (object fs)
  node-Conforms node =
      conforms node.meets
        (λ alternatives e. let (a, m, c) = node.one_of alternatives e in some_conforms m c)
        node.each_item node.each_field node.no_other_field
