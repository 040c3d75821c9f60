-- ===== src/Schema/Validate/Located.antt =====
-- Where the validator reports an error, and that its fuel is enough (`validate_value` of
-- src/schema.rs).
use text.Mathlib.TextLemmas.{append-nil, append_assoc}
use agentic_development_fram.Base.{
  ℕ, zero, suc, ◌+◌, String, Bool, true, false, Option, none, some, List, [], ◌∷◌, ◌≡◌, refl, sym,
  ◌∙◌, subst, inl, inr, ok, err, guard, ◌>>◌, ◌<◌, Option-cases, Result-cases, arith, ◌<>◌, decimal,
  filter_map, is_some,
}
use agentic_development_fram.Base.Map
use agentic_development_fram.Base.Map.{Map}
use agentic_development_fram.Json.Value.{Value, Fields, object, as_array, as_str, as_object}
use agentic_development_fram.Schema.Keywords.{
  Libraries, Reason, invalid, out_of_fuel, panic, failure, Validation, keyword, field_schema,
  where_some, check_equal, check_pattern, check_string, check_items, check_required,
}
use agentic_development_fram.Schema.Validate.{
  Validator, depth, fields_depth, check_alternatives, check_each, check_field, check_fields,
  check_array, check_object, check_node, validate_value,
}
use agentic_development_fram.Schema.Validate.Accepts.{AreInside}
use agentic_development_fram.Schema.Validate.Depth.{inside}
use agentic_development_fram.Json.Lookup.{as_object-value}

-- An error is a validation error at the path or below it.
abbrev pub IsLocated : String → Validation → Type 0
IsLocated path (ok u) = Unit
IsLocated path (err (invalid e)) = (rest : String) × (e.path ≡ path <> rest)
IsLocated path (err out_of_fuel) = ⊥
IsLocated path (err panic) = ⊥

>>-IsLocated :
    (path : String) (a b : Validation)
    → IsLocated path a
    → IsLocated path b
    → IsLocated path (a >> b)
>>-IsLocated path (ok u) b p q = q
>>-IsLocated path (err e) b p q = p

guard-IsLocated :
    (path : String) (b : Bool) (reason : Reason) → IsLocated path (guard b (failure path reason))
guard-IsLocated path true reason = tt
guard-IsLocated path false reason = ("", sym (append-nil path))

where_some-IsLocated :
    {A : Type 0} (path : String) (o : Option A) (check : A → Validation)
    → ((a : A) → o ≡ some a → IsLocated path (check a))
    → IsLocated path (where_some o check)
where_some-IsLocated path none check h = tt
where_some-IsLocated path (some a) check h = h a refl

below-IsLocated :
    (path inner : String) (r : Validation) → IsLocated (path <> inner) r → IsLocated path r
below-IsLocated path inner (ok u) h = tt
below-IsLocated path inner (err (invalid e)) (rest, q) =
    (inner <> rest, q ∙ append_assoc path inner rest)
below-IsLocated path inner (err out_of_fuel) h = h
below-IsLocated path inner (err panic) h = h

required-IsLocated :
    (entries : Map Value) (path : String) (names : List String)
    → IsLocated path (check_required entries path names)
unfolding check_required
required-IsLocated entries path [] = tt
required-IsLocated entries path (name ∷ names) =
    >>-IsLocated path (guard (is_some (Map.get name entries)) _) _ (guard-IsLocated path _ _)
      (required-IsLocated entries path names)

equal-IsLocated :
    (value : Value) (schema : Map Value) (path : String)
    → IsLocated path (check_equal value schema path)
unfolding check_equal
equal-IsLocated value schema path =
    >>-IsLocated path (where_some (Map.get "const" schema) _ >> _) _
      (>>-IsLocated path (where_some (Map.get "const" schema) _) _
        (where_some-IsLocated path (Map.get "const" schema) _ (λ e q. guard-IsLocated path _ _))
        (where_some-IsLocated path (keyword schema "enum" as_array) _
          (λ e q. guard-IsLocated path _ _)))
      (where_some-IsLocated path (keyword schema "type" as_str) _ (λ e q. guard-IsLocated path _ _))

module _ (libraries : Libraries) where
  pattern-IsLocated :
      (text path pattern : String) → IsLocated path (check_pattern libraries text path pattern)
  unfolding check_pattern
  pattern-IsLocated text path pattern = elim (Result-cases (libraries.regex pattern)) [
    | inl (is_match, e) ↦ rw (e, check_pattern) (guard-IsLocated path (is_match text) _)
    | inr (x, e) ↦ rw (e, check_pattern) ("", sym (append-nil path))
  ]

  string-IsLocated :
      (schema : Map Value) (path text : String)
      → IsLocated path (check_string libraries schema path text)
  unfolding check_string
  string-IsLocated schema path text =
      >>-IsLocated path (where_some (keyword schema "minLength" _) _) _
        (where_some-IsLocated path (keyword schema "minLength" _) _
          (λ n q. guard-IsLocated path _ _))
        (where_some-IsLocated path (keyword schema "pattern" as_str) _
          (λ p q. pattern-IsLocated text path p))

  items-IsLocated :
      (schema : Map Value) (path : String) (items : List Value)
      → IsLocated path (check_items libraries schema path items)
  unfolding check_items
  items-IsLocated schema path items =
      >>-IsLocated path (where_some (keyword schema "minItems" _) _) _
        (where_some-IsLocated path (keyword schema "minItems" _) _
          (λ n q. guard-IsLocated path _ _))
        (guard-IsLocated path _ _)

  module _ (validate : Validator) (Q : Value → Type 0)
      (located : (v s : Value) (p : String) → Q s → IsLocated p (validate v s p)) where
    each-IsLocated :
        (inner : Value) (path : String) (index : ℕ) (items : List Value)
        → Q inner
        → IsLocated path (check_each validate inner path index items)
    unfolding check_each
    each-IsLocated inner path index [] q = tt
    each-IsLocated inner path index (v ∷ items) q =
        >>-IsLocated path (validate v inner _) _
          (below-IsLocated path ("[" <> decimal index <> "]") (validate v inner _)
            (located v inner _ q))
          (each-IsLocated inner path (index + 1) items q)

    fields-IsLocated :
        (schema : Map Value) (path : String) (entries : Map Value)
        → AreInside Q schema
        → IsLocated path (check_fields validate schema path entries)
    unfolding check_fields check_field
    fields-IsLocated schema path [] inside = tt
    fields-IsLocated schema path ((name, item) ∷ entries) inside =
        >>-IsLocated path (check_field validate schema path name item) _
          (below-IsLocated path ("." <> name) (check_field validate schema path name item)
            (elim (Option-cases (field_schema schema name)) [
              | inl e ↦ rw (e, check_field) (guard-IsLocated (path <> "." <> name) _ _)
              | inr (inner, e) ↦
                  rw (e, check_field) (located item inner _ (inside.field_inside name inner e))
            ]))
          (fields-IsLocated schema path entries inside)

    node-IsLocated :
        (value : Value) (schema : Map Value) (path : String)
        → AreInside Q schema
        → IsLocated path (check_node libraries validate value schema path)
    unfolding check_node check_alternatives check_array check_object
    node-IsLocated value schema path inside =
        >>-IsLocated path (where_some (keyword schema "anyOf" as_array) _) _
          (where_some-IsLocated path (keyword schema "anyOf" as_array) _
            (λ a q. guard-IsLocated path _ _))
          (>>-IsLocated path (check_equal value schema path) _ (equal-IsLocated value schema path) (
            >>-IsLocated path (where_some (as_str value) _) _
              (where_some-IsLocated path (as_str value) _ (λ t q. string-IsLocated schema path t))
              (>>-IsLocated path (where_some (as_array value) _) _
                (where_some-IsLocated path (as_array value) _ (λ items q.
                  >>-IsLocated path (check_items libraries schema path items) _
                    (items-IsLocated schema path items)
                    (where_some-IsLocated path (Map.get "items" schema) _ (λ inner e.
                      each-IsLocated inner path 0 items (inside.items_inside inner e)))))
                (where_some-IsLocated path (as_object value) _ (λ entries q.
                  >>-IsLocated path (where_some (keyword schema "required" as_array) _) _
                    (where_some-IsLocated path (keyword schema "required" as_array) _
                      (λ required r. required-IsLocated entries path (filter_map as_str required)))
                    (fields-IsLocated schema path entries inside))))))

  pub validate_value-IsLocated :
      (fuel : ℕ) (value schema : Value) (path : String)
      → depth schema < fuel
      → IsLocated path (validate_value libraries fuel value schema path)
  unfolding validate_value depth
  validate_value-IsLocated zero value schema path h = absurd (omega arith)
  validate_value-IsLocated (suc fuel) value schema path h = elim (Option-cases (as_object schema)) [
    | inl e ↦ rw (e, validate_value) ("", sym (append-nil path))
    | inr (entries, e) ↦
        let (fs, q, r) = as_object-value schema e in
        rw (e, validate_value)
          (node-IsLocated (validate_value libraries fuel) (λ s. depth s < fuel)
            (λ v s p d. validate_value-IsLocated fuel v s p d) value entries path
            (subst (AreInside (λ s. depth s < fuel)) r (inside fs fuel (below_fuel fs q))))
  ]
    where
      below_fuel : (fs : Fields) → schema ≡ object fs → fields_depth fs < fuel
      below_fuel fs q = let k = rw q at h in omega (arith, k)
