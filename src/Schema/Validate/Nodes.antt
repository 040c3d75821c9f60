-- ===== src/Schema/Validate/Nodes.antt =====
-- What the checks of one schema node accept meets its keywords (`validate_value` of src/schema.rs),
-- for a validator of the schemas inside.
use Prim.Native.String.{count as char_count}
use mathlib.Core.List.Memᴰ
use agentic_development_fram.Base.{
  ℕ, ◌+◌, String, Bool, true, false, not, ◌||◌, some, List, [], ◌∷◌, ◌≡◌, refl, sym, subst, inl,
  inr, Memᴰ, ok, err, ◌>>◌, map, ◌≤◌, length, ltb, nat_eq, any-mem, Result-cases, filter_map, arith,
  unwrap_or, guard-eq-ok,
}
use agentic_development_fram.Base.Map
use agentic_development_fram.Base.Map.{Map}
use agentic_development_fram.Json.Value.{Value, as_str, as_array, as_object}
use agentic_development_fram.Schema.Keywords.{
  Libraries, Validation, value_eq, matches_type, keyword, as_u64, as_bool, is_closed, where_some,
  check_equal, check_pattern, check_string, collect_set, check_items,
}
use agentic_development_fram.Schema.Validate.{
  check_each, check_field, check_fields, check_alternatives, check_array, check_object, check_node,
  Validator, succeeds,
}
use agentic_development_fram.Schema.Validate.Conforms.{IsDistinct, MeetsKeywords, IsNode}
use agentic_development_fram.Schema.Validate.Checks.{
  Passes, Passes-split, Passes-where_some, unique_iff, Passes-required, mem-names, length-map,
}

succeeds-Passes : (r : Validation) → succeeds r ≡ true → Passes r
succeeds-Passes (ok tt) h = refl
succeeds-Passes (err e) h = cc

module _ (libraries : Libraries) (validate : Validator) where
  Passes-keywords :
      (value : Value) (schema : Map Value) (path : String)
      → Passes (check_node libraries validate value schema path)
      → MeetsKeywords libraries value schema
  unfolding check_node check_equal check_string check_array check_object check_items check_pattern
  Passes-keywords value schema path h =
      let (h0, h1) = Passes-split (where_some (keyword schema "anyOf" as_array) _) _ h in
      let (h2, h3) = Passes-split (check_equal value schema path) _ h1 in
      let (h4, h5) = Passes-split (where_some (as_str value) _) _ h3 in
      let (h6, h7) = Passes-split (where_some (as_array value) _) _ h5 in
      let (c1, c3) = Passes-split (where_some (Map.get "const" schema) _ >> _) _ h2 in
      let (c0, c2) = Passes-split (where_some (Map.get "const" schema) _) _ c1 in
      record {
        equal = λ e q. guard-eq-ok (value_eq value e) _ (Passes-where_some _ q c0);
        listed = λ allowed q.
            any-mem (λ v. value_eq v value) allowed (guard-eq-ok _ _ (Passes-where_some _ q c2));
        of_type = λ t q. guard-eq-ok (matches_type value t) _ (Passes-where_some _ q c3);
        long_enough = λ text s minimum q.
            let (l, r) =
              Passes-split (where_some (keyword schema "minLength" as_u64) _) _
                (Passes-where_some _ s h4) in
            within minimum (char_count text) (guard-eq-ok _ _ (Passes-where_some _ q l));
        matching = λ text s pattern q.
            let (l, r) =
              Passes-split (where_some (keyword schema "minLength" as_u64) _) _
                (Passes-where_some _ s h4) in
            pattern_matches text pattern (Passes-where_some _ q r);
        enough_items = λ items s minimum q.
            let (l, r) =
              Passes-split (check_items libraries schema path items) _ (Passes-where_some _ s h6) in
            within minimum (length items) (
              guard-eq-ok _ _ (
                Passes-where_some _ q
                  (Passes-split (where_some (keyword schema "minItems" as_u64) _) _ l).0));
        unique_items = λ items s q.
            let (l, r) =
              Passes-split (check_items libraries schema path items) _ (Passes-where_some _ s h6) in
            is_distinct items q (
              guard-eq-ok _ _
                (Passes-split (where_some (keyword schema "minItems" as_u64) _) _ l).1);
        has_required = λ entries s required q name m.
            let (l, r) =
              Passes-split (where_some (keyword schema "required" as_array) _) _
                (Passes-where_some _ s h7) in
            Passes-required entries path (filter_map as_str required) (Passes-where_some _ q l) name
              (mem-names required m);
      }
    where
      within : (m n : ℕ) → not (ltb n m) ≡ true → m ≤ n
      within m n h = ground (arith, h)

      pattern_matches :
          (text pattern : String)
          → Passes (check_pattern libraries text path pattern)
          → (is_match : String → Bool) × (libraries.regex pattern ≡ ok is_match)
            × (is_match text ≡ true)
      pattern_matches text pattern h = elim (Result-cases (libraries.regex pattern)) [
        | inl (is_match, e) ↦
            (is_match, e, guard-eq-ok (is_match text) _ (rw (e, check_pattern) at h))
        | inr (x, e) ↦ cc (rw (e, check_pattern) at h)
      ]

      is_distinct :
          (items : List Value)
          → keyword schema "uniqueItems" as_bool ≡ some true
          → (not (unwrap_or (keyword schema "uniqueItems" as_bool) false)
              || nat_eq (length (collect_set (map libraries.to_string items))) (length items))
            ≡ true
          → IsDistinct (map libraries.to_string items)
      is_distinct items e h =
          (unique_iff (map libraries.to_string items)).0
            (rw (e, length-map libraries.to_string items) at h)

  module _ (P : Value → Value → Type 0) where
    Passes-each :
        ((v s : Value) (p : String) → Passes (validate v s p) → P v s)
        → (inner : Value) (path : String) (index : ℕ) (items : List Value)
        → Passes (check_each validate inner path index items)
        → (item : Value) → Memᴰ item items
        → P item inner
    unfolding check_each
    Passes-each sound inner path index [] h item m = elim m [ ]
    Passes-each sound inner path index (v ∷ items) h item m =
        let (l, r) = Passes-split (validate v inner _) _ h in
        elim (Memᴰ.cases_cons m) [
          | inl q ↦ subst (λ v. P v inner) (sym q) (sound v inner _ l)
          | inr t ↦ Passes-each sound inner path (index + 1) items r item t
        ]

    Passes-fields :
        (schema : Map Value) (path : String) (entries : Map Value)
        → Passes (check_fields validate schema path entries)
        → (name : String) (item : Value) → Memᴰ (name, item) entries
        → Passes (check_field validate schema path name item)
    unfolding check_fields
    Passes-fields schema path [] h name item m = elim m [ ]
    Passes-fields schema path ((k, v) ∷ entries) h name item m =
        let (l, r) = Passes-split (check_field validate schema path k v) _ h in
        elim (Memᴰ.cases_cons m) [
          | inl q ↦
              subst (λ (e : String × Value). Passes (check_field validate schema path e.0 e.1))
                (sym q) l
          | inr t ↦ Passes-fields schema path entries r name item t
        ]

    -- What the checks of a node accept meets its keywords, and conforms to the schemas inside in the
    -- sense in which the validator is sound.
    pub Passes-IsNode :
        ((v s : Value) (p : String) → Passes (validate v s p) → P v s)
        → (value : Value) (schema : Map Value) (path : String)
        → Passes (check_node libraries validate value schema path)
        → IsNode libraries P value schema
    unfolding check_node check_alternatives check_array check_object check_field
    Passes-IsNode sound value schema path h =
        let (h0, h1) = Passes-split (where_some (keyword schema "anyOf" as_array) _) _ h in
        let (h2, h3) = Passes-split (check_equal value schema path) _ h1 in
        let (h4, h5) = Passes-split (where_some (as_str value) _) _ h3 in
        let (h6, h7) = Passes-split (where_some (as_array value) _) _ h5 in
        record {
          meets = Passes-keywords value schema path h;
          one_of = λ alternatives e.
              let (a, m, q) =
                any-mem (λ a. succeeds (validate value a path)) alternatives
                  (guard-eq-ok _ _ (Passes-where_some _ e h0)) in
              (a, m, sound value a path (succeeds-Passes (validate value a path) q));
          each_item = λ items s inner e item m.
              let (l, r) =
                Passes-split (check_items libraries schema path items) _
                  (Passes-where_some _ s h6) in
              Passes-each sound inner path 0 items (Passes-where_some _ e r) item m;
          each_field = λ entries s name item m inner e.
              let q = Passes-fields schema path entries (fields_of entries s h7) name item m in
              sound item inner _ (rw (e, check_field) at q);
          no_other_field = λ entries s name item m e.
              let q = Passes-fields schema path entries (fields_of entries s h7) name item m in
              open_field (is_closed schema) (guard-eq-ok _ _ (rw (e, check_field) at q));
        }
      where
        fields_of :
            (entries : Map Value)
            → as_object value ≡ some entries
            → Passes (where_some (as_object value) (check_object libraries validate schema path))
            → Passes (check_fields validate schema path entries)
        fields_of entries s h =
            (Passes-split (where_some (keyword schema "required" as_array) _) _
              (Passes-where_some _ s h)).1

        open_field : (b : Bool) → not b ≡ true → b ≡ false
        open_field false e = refl
        open_field true e = cc
