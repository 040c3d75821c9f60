-- ===== src/Schema/Validate/Depth.antt =====
-- The schemas inside a schema are less deep (`validate_value` of src/schema.rs calls itself only for
-- these).
use mathlib.Core.List.Memᴰ
use agentic_development_fram.Base.{
  ℕ, String, Option, none, some, List, [], ◌≡◌, refl, sym, subst, inl, inr, Memᴰ, ◌≤◌, ◌<◌, or_else,
  unwrap_or, Option-cases, Bool-cases, arith, ◌==◌,
}
use agentic_development_fram.Base.Map
use agentic_development_fram.Base.Map.{Map}
use agentic_development_fram.Json.Value.{
  Value, null, bool, number, string, array, object, Items, nil, cons, Fields, end, field, as_array,
  as_object, item_list, field_list,
}
use agentic_development_fram.Schema.Keywords.{keyword, additional_schema, field_schema}
use agentic_development_fram.Schema.Validate.{depth, items_depth, fields_depth}
use agentic_development_fram.Schema.Validate.Accepts.{AreInside}

depth-get :
    (k : String) (fs : Fields) {v : Value}
    → Map.get k (field_list fs) ≡ some v
    → depth v ≤ fields_depth fs
unfolding depth Map.get
depth-get k end e = cc
depth-get k (field j w fs) {v} e = elim (Bool-cases (j == k)) [
  | inl q ↦ let s : w ≡ v = cc (rw q at e) in rw (← s) (omega arith)
  | inr q ↦ let rest = depth-get k fs (rw q at e) in omega (arith, rest)
]

depth-item : (vs : Items) {v : Value} → Memᴰ v (item_list vs) → depth v ≤ items_depth vs
unfolding depth
depth-item nil m = elim m [ ]
depth-item (cons w vs) m = elim (Memᴰ.cases_cons m) [
  | inl e ↦ rw e (omega arith)
  | inr t ↦ let rest = depth-item vs t in omega (arith, rest)
]

array-depth :
    (w : Value) {vs : List Value} {v : Value} → as_array w ≡ some vs → Memᴰ v vs → depth v < depth w
unfolding depth
array-depth (array ws) {vs} {v} e m =
    let q : item_list ws ≡ vs = cc e in
    let rest = depth-item ws (subst (λ l. Memᴰ v l) (sym q) m) in omega (arith, rest)
array-depth null e m = cc
array-depth (bool b) e m = cc
array-depth (number n) e m = cc
array-depth (string s) e m = cc
array-depth (object fs) e m = cc

object-depth :
    (w : Value) (k : String) {entries : Map Value} {v : Value}
    → as_object w ≡ some entries
    → Map.get k entries ≡ some v
    → depth v < depth w
unfolding depth
object-depth (object fs) k {v = v} e m =
    let rest = depth-get k fs (subst (λ l. Map.get k l ≡ some v) (cc e) m) in omega (arith, rest)
object-depth null k e m = cc
object-depth (bool b) k e m = cc
object-depth (number n) k e m = cc
object-depth (string s) k e m = cc
object-depth (array vs) k e m = cc

keyword-value :
    {A : Type 0} (schema : Map Value) (name : String) (read : Value → Option A) {a : A}
    → keyword schema name read ≡ some a
    → (w : Value) × (Map.get name schema ≡ some w) × (read w ≡ some a)
keyword-value schema name read e = elim (Option-cases (Map.get name schema)) [
  | inl q ↦ cc (rw q at e)
  | inr (w, q) ↦ (w, q, rw q at e)
]

additional : (o : Option Value) {inner : Value} → additional_schema o ≡ some inner → o ≡ some inner
additional none e = cc
additional (some (object fs)) e = e
additional (some null) e = cc
additional (some (bool b)) e = cc
additional (some (number n)) e = cc
additional (some (string s)) e = cc
additional (some (array vs)) e = cc

module _ (fs : Fields) where
  field_schema-depth :
      (name : String) (inner : Value)
      → field_schema (field_list fs) name ≡ some inner
      → depth inner ≤ fields_depth fs
  unfolding field_schema Map.get
  field_schema-depth name inner e =
      by_properties (keyword (field_list fs) "properties" as_object) refl e
    where
      from_additional :
          additional_schema (Map.get "additionalProperties" (field_list fs)) ≡ some inner
          → depth inner ≤ fields_depth fs
      from_additional e =
          depth-get "additionalProperties" fs
            (additional (Map.get "additionalProperties" (field_list fs)) e)

      by_properties :
          (o : Option (Map Value))
          → keyword (field_list fs) "properties" as_object ≡ o
          → or_else
              (Map.get name (unwrap_or o []))
              (additional_schema (Map.get "additionalProperties" (field_list fs)))
            ≡ some inner
          → depth inner ≤ fields_depth fs
      by_properties none q e = from_additional e
      by_properties (some properties) q e = elim (Option-cases (Map.get name properties)) [
        | inl r ↦ from_additional (rw r at e)
        | inr (w, r) ↦
            let (p, s, t) = keyword-value (field_list fs) "properties" as_object q in
            let below = object-depth p name t r in
            let above = depth-get "properties" fs s in
            let same : w ≡ inner = cc (rw r at e) in rw (← same) (omega (arith, below, above))
      ]

  pub inside : (n : ℕ) → fields_depth fs < n → AreInside (λ s. depth s < n) (field_list fs)
  inside n h = record {
    alternatives_inside = λ alternatives e a m.
        let (w, q, r) = keyword-value (field_list fs) "anyOf" as_array e in
        let below = array-depth w r m in
        let above = depth-get "anyOf" fs q in omega (arith, below, above);
    items_inside = λ inner e. let above = depth-get "items" fs e in omega (arith, above);
    field_inside =
        λ name inner e. let above = field_schema-depth name inner e in omega (arith, above);
  }
