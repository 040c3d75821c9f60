-- ===== src/Schema/Load/Read.antt =====
-- What the loaded schema bundle holds of the files, and what its digest covers
-- (`SchemaRegistry::load` of src/schema.rs).
use mathlib.Core.List.Memᴰ
use agentic_development_fram.Base.{
  String, Bool, true, false, not, some, List, [], ◌∷◌, ◌≡◌, refl, sym, ◌∙◌, subst, ◌⊎◌, inl, inr,
  Result, ok, ok_or, guard, map_err, is_empty, is_some, ◌==◌, ==-self, eq_of_==, >>=-eq-ok,
  ok_or-eq-ok, map_err-eq-ok, arith, guard-eq-ok, Memᴰ, Bool-cases, ok-injective,
}
use agentic_development_fram.Base.Map
use agentic_development_fram.Base.Map.{Map, get-insert}
use agentic_development_fram.Base.Map.Ascending.{keys_of}
use agentic_development_fram.Json.Value.{
  Value, object, string, field, end, fields, as_object, string_field,
}
use agentic_development_fram.Json.Lookup.{object-value}
use agentic_development_fram.Json.Canonical.{Crates, canonical_digest}
use agentic_development_fram.Schema.Registry.{SchemaRegistry}
use agentic_development_fram.Schema.Load.{
  record_kinds, result_schema_ids, schema_bundle_version, SchemaFiles, RegistryError,
  require_object, load_records, allowed_roles, identity, add_payload, load_payloads,
  assert_exact_keys, bundle, load,
}
use agentic_development_fram.Schema.Load.Loaded.{IsLoaded, made, load-IsLoaded}

-- The file's schema stands in the map under the identity that it gives itself.
pub record HasFile (schemas : Map Value) (file : Result String Value) : Type 0 where
  pub schema : Value
  pub id : String
  pub of_file : file ≡ ok schema
  pub named : string_field schema "x-result-schema" ≡ some id
  pub found : Map.get id schemas ≡ some schema

-- The registry holds the schemas of the files, and no others, and its digest is that of the version
-- and of all of them.
pub record IsRead (crates : Crates) (files : SchemaFiles) (registry : SchemaRegistry) : Type 0 where
  pub of_digest :
      canonical_digest crates (
        object (
          field "bundle_version" (string schema_bundle_version) (
            field "record_schemas" (object (fields registry.record_schemas)) (
              field "result_payload_schemas"
                (object (fields registry.result_payload_schemas))
                end))))
      ≡ ok registry.digest
  pub of_records :
      (kind : String)
      → Memᴰ kind record_kinds
      → (schema : Value) × (files.record_schema kind ≡ ok schema)
        × (Map.get kind registry.record_schemas ≡ some schema)
  pub payload_files : List (Result String Value)
  pub of_payloads : files.payload_schemas ≡ ok payload_files
  pub has_payload :
      (file : Result String Value)
      → Memᴰ file payload_files
      → HasFile registry.result_payload_schemas file
  pub only_payloads :
      (id : String) (schema : Value)
      → Map.get id registry.result_payload_schemas ≡ some schema
      → Memᴰ (ok schema) payload_files

-- What an insertion holds is the new entry, or was held.
get-inserted :
    {V : Type 0} (k : String) (v : V) (m : Map V) (key : String) {w : V}
    → Map.get key (Map.insert k v m) ≡ some w
    → ((k ≡ key) × (v ≡ w)) ⊎ (Map.get key m ≡ some w)
get-inserted k v m key {w} h = elim (Bool-cases (k == key)) [
  | inl e ↦
      let g = get-insert k key v m in let q : v ≡ w = cc (rw e at g, h) in inl (eq_of_== k key e, q)
  | inr e ↦ let g = get-insert k key v m in inr (cc (rw e at g, h))
]

load_records-file :
    (files : SchemaFiles) (kinds : List String) (schemas : Map Value) {added : Map Value}
    → load_records files kinds schemas ≡ ok added
    → (kind : String) (schema : Value) → Map.get kind added ≡ some schema
    → (files.record_schema kind ≡ ok schema) ⊎ (Map.get kind schemas ≡ some schema)
unfolding load_records
load_records-file files [] schemas {added} h kind schema g =
    let q : schemas ≡ added = cc h in inr (subst (λ m. Map.get kind m ≡ some schema) (sym q) g)
load_records-file files (k ∷ kinds) schemas h kind schema g =
    let (read, a, h) = >>=-eq-ok (map_err RegistryError.unreadable (files.record_schema k)) _ h in
    let (entries, b, h) = >>=-eq-ok (require_object read) _ h in
    elim (load_records-file files kinds (Map.insert k read schemas) h kind schema g) [
      | inl f ↦ inl f
      | inr i ↦ elim (get-inserted k read schemas kind i) [
        | inl (e, f) ↦ inl (
            subst (λ s. files.record_schema s ≡ ok schema) e
              (subst (λ v. files.record_schema k ≡ ok v) f
                (map_err-eq-ok RegistryError.unreadable (files.record_schema k) a)))
        | inr i ↦ inr i
      ]
    ]

-- A payload that is added stands under its identity, beside all that was there and nothing else.
record IsAdded (schema : Value) (schemas added : Map Value) : Type 0 where
  id : String
  named : string_field schema "x-result-schema" ≡ some id
  found : Map.get id added ≡ some schema
  kept : (k : String) (v : Value) → Map.get k schemas ≡ some v → Map.get k added ≡ some v
  only :
      (k : String) (v : Value)
      → Map.get k added ≡ some v
      → (schema ≡ v) ⊎ (Map.get k schemas ≡ some v)

not-true : (b : Bool) → not b ≡ true → b ≡ false
not-true b h = ground arith

add_payload-IsAdded :
    (schema : Value) (schemas : Map Value) {added : Map Value}
    → add_payload schema schemas ≡ ok added
    → IsAdded schema schemas added
unfolding add_payload require_object identity string_field
add_payload-IsAdded schema schemas {added} h =
    let (entries, a, h) = >>=-eq-ok (ok_or (as_object schema) _) _ h in
    let (id, b, h) = >>=-eq-ok (ok_or (identity entries) _) _ h in
    let (roles, c, h) = >>=-eq-ok (ok_or (allowed_roles entries) _) _ h in
    let (u, d, h) = >>=-eq-ok (guard (not (is_empty roles)) _) _ h in
    let (w, e, h) = >>=-eq-ok (guard (not (is_some (Map.get id schemas))) _) _ h in
    let inserted : Map.insert id schema schemas ≡ added = cc h in
    let fresh = not-true _ (guard-eq-ok (not (is_some (Map.get id schemas))) _ e) in
    let lookup = object-value schema (ok_or-eq-ok (as_object schema) _ a) in
    let made : IsAdded schema schemas (Map.insert id schema schemas) = record {
      id = id;
      named = rw (lookup "x-result-schema") (ok_or-eq-ok (identity entries) _ b);
      found = get-insert id id schema schemas ∙ rw (==-self id) refl;
      kept = λ k v g. elim (Bool-cases (id == k)) [
        | inl q ↦
            let g' = subst (λ s. Map.get s schemas ≡ some v) (sym (eq_of_== id k q)) g in
            cc (rw g' at fresh)
        | inr q ↦ get-insert id k schema schemas ∙ rw q g
      ];
      only =
          λ k v g. elim (get-inserted id schema schemas k g) [ inl (q, r) ↦ inl r | inr r ↦ inr r ];
    } in
    subst (IsAdded schema schemas) inserted made

-- The payloads of the files, beside all that was there and nothing else.
record AreAdded (files : List (Result String Value)) (schemas added : Map Value) : Type 0 where
  has : (file : Result String Value) → Memᴰ file files → HasFile added file
  kept : (k : String) (v : Value) → Map.get k schemas ≡ some v → Map.get k added ≡ some v
  only :
      (k : String) (v : Value)
      → Map.get k added ≡ some v
      → Memᴰ (ok v) files ⊎ (Map.get k schemas ≡ some v)

load_payloads-AreAdded :
    (files : List (Result String Value)) (schemas : Map Value) {added : Map Value}
    → load_payloads files schemas ≡ ok added
    → AreAdded files schemas added
unfolding load_payloads
load_payloads-AreAdded [] schemas {added} h =
    let q : schemas ≡ added = cc h in
    subst (AreAdded [] schemas) q
      (record { has = λ file m. elim m [ ]; kept = λ k v g. g; only = λ k v g. inr g })
load_payloads-AreAdded (file ∷ files) schemas {added} h =
    let (schema, a, h) = >>=-eq-ok (map_err RegistryError.unreadable file) _ h in
    let (middle, b, h) = >>=-eq-ok (add_payload schema schemas) _ h in
    let first = add_payload-IsAdded schema schemas b in
    let rest = load_payloads-AreAdded files middle h in
    let of_file = map_err-eq-ok RegistryError.unreadable file a in
    record {
      has = λ f m. elim (Memᴰ.cases_cons m) [
        | inl q ↦ subst (HasFile added) (sym q) (record {
          schema = schema;
          id = first.id;
          of_file = of_file;
          named = first.named;
          found = rest.kept first.id schema first.found;
        })
        | inr t ↦ rest.has f t
      ];
      kept = λ k v g. rest.kept k v (first.kept k v g);
      only = λ k v g. elim (rest.only k v g) [
        | inl m ↦ inl (Memᴰ.tail m)
        | inr i ↦ elim (first.only k v i) [
          | inl q ↦ inl (Memᴰ.head (sym (subst (λ w. file ≡ ok w) q of_file)))
          | inr i ↦ inr i
        ]
      ];
    }

absent : (k : String) (v : Value) → ¬ (Map.get k [] ≡ some v)
unfolding Map.get
absent k v e = cc e

-- A registry that is loaded holds what the files hold, and its digest covers all of it.
pub load-IsRead :
    (crates : Crates) (files : SchemaFiles) {registry : SchemaRegistry}
    → load crates files ≡ ok registry
    → IsRead crates files registry
unfolding load
load-IsRead crates files {registry} h =
    let loaded = load-IsLoaded crates files h in
    let (records, a, h) = >>=-eq-ok (load_records files record_kinds []) _ h in
    let (payload_files, b, h) =
      >>=-eq-ok (map_err RegistryError.unreadable files.payload_schemas) _ h in
    let (payloads, c, h) = >>=-eq-ok (load_payloads payload_files []) _ h in
    let (u, d, h) =
      >>=-eq-ok (assert_exact_keys "Record Schema" (keys_of records) record_kinds) _ h in
    let (w, e, h) =
      >>=-eq-ok (assert_exact_keys "Result payload Schema" (keys_of payloads) result_schema_ids) _
        h in
    let (digest, f, g) =
      >>=-eq-ok
        (map_err (λ e. RegistryError.no_digest) (canonical_digest crates (bundle records payloads)))
        _ h in
    let same : made records payloads digest ≡ registry = ok-injective g in
    let added = load_payloads-AreAdded payload_files [] c in
    subst (IsRead crates files) same (record {
      of_digest =
          map_err-eq-ok (λ e. RegistryError.no_digest)
            (canonical_digest crates (bundle records payloads)) f;
      of_records = λ kind m.
          let has = subst IsLoaded (sym same) loaded in
          let (schema, i) = has.has_kind kind m in
          elim (load_records-file files record_kinds [] a kind schema i) [
            | inl r ↦ (schema, r, i)
            | inr n ↦ absurd (absent kind schema n)
          ];
      payload_files = payload_files;
      of_payloads = map_err-eq-ok RegistryError.unreadable files.payload_schemas b;
      has_payload = added.has;
      only_payloads = λ id schema i. elim (added.only id schema i) [
        | inl m ↦ m
        | inr n ↦ absurd (absent id schema n)
      ];
    })
