-- ===== src/Schema/Validate/Accepts.antt =====
-- What meets the keywords of a schema node passes its checks (`validate_value` of src/schema.rs), for
-- a validator of the schemas inside.
use Prim.Native.String.{count as char_count}
use agentic_development_fram.Base.{
  ℕ, ◌+◌, String, Bool, true, false, not, ◌||◌, Option, none, some, List, [], ◌∷◌, ◌≡◌, refl, inl,
  inr, Memᴰ, ok, err, map, ◌≤◌, length, ltb, nat_eq, any-of_mem, Option-cases, filter_map, arith,
  unwrap_or,
}
use agentic_development_fram.Base.Map
use agentic_development_fram.Base.Map.{Map}
use agentic_development_fram.Json.Value.{Value, as_str, as_array, as_object}
use agentic_development_fram.Schema.Keywords.{
  Libraries, Validation, value_eq, keyword, as_u64, as_bool, field_schema, where_some, check_equal,
  check_pattern, check_string, collect_set, check_items,
}
use agentic_development_fram.Schema.Validate.{
  check_each, check_field, check_fields, check_alternatives, check_array, check_object, check_node,
  Validator, succeeds,
}
use agentic_development_fram.Schema.Validate.Conforms.{MeetsKeywords, IsNode}
use agentic_development_fram.Schema.Validate.Checks.{
  Passes, >>-Passes, guard-Passes, where_some-Passes, unique_iff, required-Passes, names-mem,
  length-map,
}

Passes-succeeds : (r : Validation) → Passes r → succeeds r ≡ true
Passes-succeeds (ok tt) h = refl
Passes-succeeds (err e) h = cc

-- The schemas inside a node, which the validator is called with.
pub record AreInside (Q : Value → Type 0) (schema : Map Value) : Type 0 where
  pub alternatives_inside :
      (alternatives : List Value)
      → keyword schema "anyOf" as_array ≡ some alternatives
      → (a : Value) → Memᴰ a alternatives
      → Q a
  pub items_inside : (inner : Value) → Map.get "items" schema ≡ some inner → Q inner
  pub field_inside :
      (name : String) (inner : Value) → field_schema schema name ≡ some inner → Q inner

module _ (libraries : Libraries) (validate : Validator) where
  each-Passes :
      (inner : Value) (path : String) (index : ℕ) (items : List Value)
      → ((item : Value) → Memᴰ item items → (p : String) → Passes (validate item inner p))
      → Passes (check_each validate inner path index items)
  unfolding check_each
  each-Passes inner path index [] h = refl
  each-Passes inner path index (v ∷ items) h =
      >>-Passes (h v (Memᴰ.head refl) _)
        (each-Passes inner path (index + 1) items (λ item m. h item (Memᴰ.tail m)))

  fields-Passes :
      (schema : Map Value) (path : String) (entries : Map Value)
      → ((name : String) (item : Value)
          → Memᴰ (name, item) entries
          → Passes (check_field validate schema path name item))
      → Passes (check_fields validate schema path entries)
  unfolding check_fields
  fields-Passes schema path [] h = refl
  fields-Passes schema path ((k, v) ∷ entries) h =
      >>-Passes (h k v (Memᴰ.head refl))
        (fields-Passes schema path entries (λ name item m. h name item (Memᴰ.tail m)))

  equal-Passes :
      (value : Value) (schema : Map Value) (path : String)
      → MeetsKeywords libraries value schema
      → Passes (check_equal value schema path)
  unfolding check_equal
  equal-Passes value schema path meets =
      >>-Passes
        (>>-Passes
          (where_some-Passes (Map.get "const" schema) (λ e q. guard-Passes _ (meets.equal e q)))
          (where_some-Passes (keyword schema "enum" as_array) (λ allowed q.
            let (v, m, e) = meets.listed allowed q in
            guard-Passes _ (any-of_mem (λ v. value_eq v value) allowed m e))))
        (where_some-Passes (keyword schema "type" as_str)
          (λ t q. guard-Passes _ (meets.of_type t q)))

  not-below : (m n : ℕ) → m ≤ n → not (ltb n m) ≡ true
  not-below m n h = ground (arith, h)

  string-Passes :
      (value : Value) (schema : Map Value) (path : String)
      → MeetsKeywords libraries value schema
      → Passes (where_some (as_str value) (check_string libraries schema path))
  unfolding check_string check_pattern
  string-Passes value schema path meets = where_some-Passes (as_str value) (λ text s.
      >>-Passes
        (where_some-Passes (keyword schema "minLength" as_u64) (λ minimum q.
          guard-Passes _
            (not-below minimum (char_count text) (meets.long_enough text s minimum q))))
        (where_some-Passes (keyword schema "pattern" as_str) (λ pattern q.
          let (is_match, e, m) = meets.matching text s pattern q in
          rw (e, check_pattern) (guard-Passes _ m))))

  items-Passes :
      (value : Value) (schema : Map Value) (path : String)
      → MeetsKeywords libraries value schema
      → (items : List Value) → as_array value ≡ some items
      → Passes (check_items libraries schema path items)
  unfolding check_items
  items-Passes value schema path meets items s =
      >>-Passes
        (where_some-Passes (keyword schema "minItems" as_u64) (λ minimum q.
          guard-Passes _ (not-below minimum (length items) (meets.enough_items items s minimum q))))
        (guard-Passes _ (by_keyword (keyword schema "uniqueItems" as_bool) refl))
    where
      by_keyword :
          (o : Option Bool)
          → keyword schema "uniqueItems" as_bool ≡ o
          → (not (unwrap_or o false)
              || nat_eq (length (collect_set (map libraries.to_string items))) (length items))
            ≡ true
      by_keyword none e = refl
      by_keyword (some false) e = refl
      by_keyword (some true) e =
          rw (length-map libraries.to_string items)
            ((unique_iff (map libraries.to_string items)).1 (meets.unique_items items s e))

  -- What meets the keywords, and conforms to the schemas inside, passes the checks of a node.
  pub node-Passes :
      (P : Value → Value → Type 0) (Q : Value → Type 0)
      → ((v s : Value) (p : String) → Q s → P v s → Passes (validate v s p))
      → (value : Value) (schema : Map Value) (path : String) → AreInside Q schema
      → IsNode libraries P value schema
      → Passes (check_node libraries validate value schema path)
  unfolding check_node check_alternatives check_array check_object check_field
  node-Passes P Q complete value schema path inside node =
      >>-Passes
        (where_some-Passes (keyword schema "anyOf" as_array) (λ alternatives e.
          let (a, m, c) = node.one_of alternatives e in
          guard-Passes _ (
            any-of_mem (λ a. succeeds (validate value a path)) alternatives m
              (Passes-succeeds (validate value a path)
                (complete value a path (inside.alternatives_inside alternatives e a m) c)))))
        (>>-Passes (equal-Passes value schema path node.meets) (
          >>-Passes (string-Passes value schema path node.meets) (
            >>-Passes
              (where_some-Passes (as_array value) (λ items s.
                >>-Passes (items-Passes value schema path node.meets items s) (
                  where_some-Passes (Map.get "items" schema) (λ inner e.
                    each-Passes inner path 0 items (λ item m p.
                      complete item inner p (inside.items_inside inner e)
                        (node.each_item items s inner e item m))))))
              (where_some-Passes (as_object value) (λ entries s.
                >>-Passes
                  (where_some-Passes (keyword schema "required" as_array) (λ required q.
                    required-Passes entries path (filter_map as_str required) (λ name m.
                      node.meets.has_required entries s required q name (names-mem required m))))
                  (fields-Passes schema path entries (field_of entries s)))))))
    where
      field_of :
          (entries : Map Value)
          → as_object value ≡ some entries
          → (name : String) (item : Value) → Memᴰ (name, item) entries
          → Passes (check_field validate schema path name item)
      field_of entries s name item m = elim (Option-cases (field_schema schema name)) [
        | inl e ↦
            rw (e, check_field)
              (guard-Passes _ (rw (node.no_other_field entries s name item m e) refl))
        | inr (inner, e) ↦
            rw (e, check_field)
              (complete item inner _ (inside.field_inside name inner e)
                (node.each_field entries s name item m inner e))
      ]
