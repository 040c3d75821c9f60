-- ===== src/Schema/Validate/ReadPart.antt =====
-- What the validator reads of a schema (`validate_value` of src/schema.rs).
use agentic_development_fram.Base.{
  String, true, false, Option, none, some, List, [], ◌∷◌, ◌≡◌, refl, ◌∙◌, ap, inl, inr, not, ◌==◌,
  ==-self, eq_of_==, Bool-cases, map, and_then, or_else, unwrap_or, if◌then◌else◌,
}
use agentic_development_fram.Base.Map
use agentic_development_fram.Base.Map.{Map}
use agentic_development_fram.Contracts.Scope.{member}
use agentic_development_fram.Json.Value.{
  Value, object, array, Fields, end, field, Items, nil, cons, field_list, item_list, as_object,
}
use agentic_development_fram.Schema.Keywords.{
  check_equal, additional_schema, field_schema, is_closed,
}

-- The keywords that `validate_value` looks up.
abbrev pub read_keywords : List String
read_keywords =
    "anyOf" ∷ "const" ∷ "enum" ∷ "type" ∷ "minLength" ∷ "pattern" ∷ "minItems" ∷ "uniqueItems"
    ∷ "items" ∷ "required" ∷ "properties" ∷ "additionalProperties" ∷ []

-- What stands at a place of a schema: a schema, a list of schemas, an object of schemas, or a value.
pub data Place : Type 0 where
  one_schema schema_list schema_fields plain : Place

abbrev pub place_of : String → Place
place_of key =
    if key == "items"
    then one_schema
    else if key == "additionalProperties"
    then one_schema
    else if key == "anyOf"
    then schema_list
    else if key == "properties"
    then schema_fields
    else plain

-- A schema without the keywords that are not read, at every depth: in the alternatives, the
-- properties, the items and the additional properties too. The values of other keywords stay.
unfoldable mutual
  pub read_part : Place → Value → Value
  read_part plain v = v
  read_part one_schema (object fs) = object (read_fields fs)
  read_part schema_list (array vs) = array (read_each vs)
  read_part schema_fields (object fs) = object (read_properties fs)
  read_part _ v = v

  pub read_fields : Fields → Fields
  read_fields end = end
  read_fields (field k v fs) =
      let rest = read_fields fs in
      let inner = read_part (place_of k) v in
      if member k read_keywords then field k inner rest else rest

  pub read_properties : Fields → Fields
  read_properties end = end
  read_properties (field k v fs) = field k (read_part one_schema v) (read_properties fs)

  pub read_each : Items → Items
  read_each nil = nil
  read_each (cons v vs) = cons (read_part one_schema v) (read_each vs)

abbrev pub part_in : Place → Option Value → Option Value
part_in place none = none
part_in place (some v) = some (read_part place v)

-- A keyword that is read keeps its value, less what is not read of it.
pub get-read_fields :
    (k : String)
    → member k read_keywords ≡ true
    → (fs : Fields)
    → Map.get k (field_list (read_fields fs)) ≡ part_in (place_of k) (Map.get k (field_list fs))
unfolding read_part Map.get
get-read_fields k n end = refl
get-read_fields k n (field j v fs) = elim (Bool-cases (j == k)) [
  | inl e ↦ let q = eq_of_== j k e in rw q (rw n (rw (==-self k) refl))
  | inr e ↦ elim (Bool-cases (member j read_keywords)) [
    | inl r ↦ rw r (rw e (get-read_fields k n fs))
    | inr r ↦ rw r (rw e (get-read_fields k n fs))
  ]
]

part_in-plain : (o : Option Value) → part_in plain o ≡ o
unfolding read_part
part_in-plain none = refl
part_in-plain (some v) = refl

get-read_properties :
    (k : String) (fs : Fields)
    → Map.get k (field_list (read_properties fs)) ≡ part_in one_schema (Map.get k (field_list fs))
unfolding read_part Map.get
get-read_properties k end = refl
get-read_properties k (field j v fs) = elim (Bool-cases (j == k)) [
  | inl e ↦ rw e refl
  | inr e ↦ rw e (get-read_properties k fs)
]

pub item_list-read_each :
    (vs : Items) → item_list (read_each vs) ≡ map (read_part one_schema) (item_list vs)
unfolding read_part
item_list-read_each nil = refl
item_list-read_each (cons v vs) =
    ap (λ rest. read_part one_schema v ∷ rest) (item_list-read_each vs)

property :
    (o : Option Value) (name : String)
    → Map.get name (unwrap_or (and_then (part_in schema_fields o) as_object) [])
      ≡ part_in one_schema (Map.get name (unwrap_or (and_then o as_object) []))
unfolding read_part Map.get
property none name = refl
property (some (object fs)) name = get-read_properties name fs
property (some (array vs)) name = refl
property (some (Value.string s)) name = refl
property (some (Value.number n)) name = refl
property (some (Value.bool b)) name = refl
property (some Value.null) name = refl

additional :
    (o : Option Value)
    → additional_schema (part_in one_schema o) ≡ part_in one_schema (additional_schema o)
unfolding read_part
additional none = refl
additional (some (object fs)) = refl
additional (some (array vs)) = refl
additional (some (Value.string s)) = refl
additional (some (Value.number n)) = refl
additional (some (Value.bool b)) = refl
additional (some Value.null) = refl

or_else-part_in :
    (o p : Option Value)
    → or_else (part_in one_schema o) (part_in one_schema p) ≡ part_in one_schema (or_else o p)
or_else-part_in none p = refl
or_else-part_in (some v) p = refl

module _ (fs : Fields) where
  abbrev pub read_map : Map Value
  read_map = field_list (read_fields fs)

  pub get-plain :
      (k : String)
      → member k read_keywords ≡ true
      → place_of k ≡ plain
      → Map.get k read_map ≡ Map.get k (field_list fs)
  get-plain k n p =
      get-read_fields k n fs
      ∙ ap (λ place. part_in place (Map.get k (field_list fs))) p
      ∙ part_in-plain (Map.get k (field_list fs))

  pub field_schema-read :
      (name : String)
      → field_schema read_map name ≡ part_in one_schema (field_schema (field_list fs) name)
  unfolding field_schema
  field_schema-read name = rw (get-read_fields "properties" refl fs) (
      rw (get-read_fields "additionalProperties" refl fs) (
        rw (property (Map.get "properties" (field_list fs)) name)
          (rw (additional (Map.get "additionalProperties" (field_list fs))) (or_else-part_in _ _))))

  pub is_closed-read : is_closed read_map ≡ is_closed (field_list fs)
  unfolding is_closed read_part
  is_closed-read =
      rw (get-read_fields "additionalProperties" refl fs, is_closed)
        (closed (Map.get "additionalProperties" (field_list fs)))
    where
      closed :
          (o : Option Value)
          → (elim (part_in one_schema o) [ some (Value.bool b) ↦ not b | _ ↦ false ])
            ≡ (elim o [ some (Value.bool b) ↦ not b | _ ↦ false ])
      closed none = refl
      closed (some (object fs)) = refl
      closed (some (array vs)) = refl
      closed (some (Value.string s)) = refl
      closed (some (Value.number n)) = refl
      closed (some (Value.bool b)) = refl
      closed (some Value.null) = refl

  pub check_equal-read :
      (value : Value) (path : String)
      → check_equal value read_map path ≡ check_equal value (field_list fs) path
  unfolding check_equal
  check_equal-read value path =
      rw (get-plain "const" refl refl)
        (rw (get-plain "enum" refl refl) (rw (get-plain "type" refl refl) refl))
