-- ===== src/Schema/Load/Loaded.antt =====
-- What the loaded schema bundle promises (`SchemaRegistry::load` of src/schema.rs).
use agentic_development_fram.Base.{
  String, Bool, true, false, not, ◌&&◌, none, some, List, [], ◌∷◌, ◌≡◌, refl, sym, ◌∙◌, ap, subst,
  inl, inr, Result, ok, ok_or, guard, map_err, all, is_empty, is_some, if◌then◌else◌, >>=-eq-ok,
  ok_or-eq-ok, guard-eq-ok, Memᴰ, all-mem, Option-cases, ok-injective, &&-true,
}
use agentic_development_fram.Base.Map
use agentic_development_fram.Base.Map.{Map}
use agentic_development_fram.Base.Map.Ascending.{keys_of}
use agentic_development_fram.Contracts.Scope.{member}
use agentic_development_fram.Json.Value.{Value, as_array, as_object, string_field, index}
use agentic_development_fram.Contracts.Members.{member-mem}
use agentic_development_fram.Json.Lookup.{object-value, index-get}
use agentic_development_fram.Json.Canonical.{Crates, canonical_digest}
use agentic_development_fram.Schema.Registry.{SchemaRegistry}
use agentic_development_fram.Schema.Load.{
  record_kinds, result_schema_ids, SchemaFiles, RegistryError, require_object, load_records,
  is_string, allowed_roles, identity, add_payload, load_payloads, assert_exact_keys, bundle, load,
}

-- The schema of a result names itself by its key, and the roles that it allows.
pub record IsPayloadSchema (result_schema : String) (schema : Value) : Type 0 where
  pub roles : List Value
  pub named : string_field schema "x-result-schema" ≡ some result_schema
  pub allows : as_array (index schema "x-allowed-roles") ≡ some roles
  pub some_role : is_empty roles ≡ false
  pub all_texts : all is_string roles ≡ true

pub record IsLoaded (registry : SchemaRegistry) : Type 0 where
  pub has_kind :
      (kind : String)
      → Memᴰ kind record_kinds
      → (schema : Value) × (Map.get kind registry.record_schemas ≡ some schema)
  pub only_kinds :
      (kind : String) (schema : Value)
      → Map.get kind registry.record_schemas ≡ some schema
      → Memᴰ kind record_kinds
  pub has_result :
      (id : String)
      → Memᴰ id result_schema_ids
      → (schema : Value) × (Map.get id registry.result_payload_schemas ≡ some schema)
  pub only_results :
      (id : String) (schema : Value)
      → Map.get id registry.result_payload_schemas ≡ some schema
      → Memᴰ id result_schema_ids × IsPayloadSchema id schema

exact :
    {V : Type 0} (label : String) (m : Map V) (expected : List String) {u : Unit {0}}
    → assert_exact_keys label (keys_of m) expected ≡ ok u
    → ((k : String) → Memᴰ k expected → (v : V) × (Map.get k m ≡ some v))
      × ((k : String) (v : V) → Map.get k m ≡ some v → Memᴰ k expected)
unfolding assert_exact_keys
exact label m expected h =
    let both =
      guard-eq-ok
        (all (λ key. member key expected) (keys_of m)
          && all (λ key. member key (keys_of m)) expected)
        _ h in
    let (l, r) = &&-true (all (λ key. member key expected) (keys_of m)) _ both in
    (
      λ k n.
          Map.get-key k m
            (member-mem k (keys_of m) (all-mem (λ key. member key (keys_of m)) expected r n)),
      λ k v e.
          member-mem k expected
            (all-mem (λ key. member key expected) (keys_of m) l (Map.get-mem k m e).1),
    )

-- Every entry is a payload schema under its own key.
abbrev AllPayloads : Map Value → Type 0
AllPayloads schemas = (k : String) (v : Value) → Memᴰ (k, v) schemas → IsPayloadSchema k v

allowed_roles-lem :
    (entries : Map Value) {roles : List Value}
    → allowed_roles entries ≡ some roles
    → (value : Value) × (Map.get "x-allowed-roles" entries ≡ some value)
      × (as_array value ≡ some roles)
      × (is_empty roles ≡ false)
      × (all is_string roles ≡ true)
unfolding allowed_roles
allowed_roles-lem entries {roles} e = elim (Option-cases (Map.get "x-allowed-roles" entries)) [
  | inl q ↦ cc (rw (q, allowed_roles) at e)
  | inr (value, q) ↦ elim (Option-cases (as_array value)) [
    | inl r ↦ cc (rw (r, allowed_roles) at (rw (q, allowed_roles) at e))
    | inr (vs, r) ↦
        kept value q vs r (is_empty vs) (all is_string vs) refl refl
          (rw (r, allowed_roles) at (rw (q, allowed_roles) at e))
  ]
]
  where
    kept :
        (value : Value)
        → Map.get "x-allowed-roles" entries ≡ some value
        → (vs : List Value) → as_array value ≡ some vs
        → (a b : Bool) → is_empty vs ≡ a
        → all is_string vs ≡ b
        → (if not a && b then some vs else none) ≡ some roles
        → (value : Value) × (Map.get "x-allowed-roles" entries ≡ some value)
          × (as_array value ≡ some roles)
          × (is_empty roles ≡ false)
          × (all is_string roles ≡ true)
    kept value q vs r false true s t e =
        let same : vs ≡ roles = cc e in
        (value, q, r ∙ ap some same, ap is_empty (sym same) ∙ s, ap (all is_string) (sym same) ∙ t)
    kept value q vs r true b s t e = cc
    kept value q vs r false false s t e = cc

add_payload-AllPayloads :
    (schema : Value) (schemas : Map Value) {added : Map Value}
    → add_payload schema schemas ≡ ok added
    → AllPayloads schemas
    → AllPayloads added
unfolding add_payload require_object identity string_field
add_payload-AllPayloads schema schemas {added} h payloads k v m =
    let (entries, a, h) = >>=-eq-ok (ok_or (as_object schema) _) _ h in
    let (id, b, h) = >>=-eq-ok (ok_or (identity entries) _) _ h in
    let (roles, c, h) = >>=-eq-ok (ok_or (allowed_roles entries) _) _ h in
    let (u, d, h) = >>=-eq-ok (guard (not (is_empty roles)) _) _ h in
    let (w, e, h) = >>=-eq-ok (guard (not (is_some (Map.get id schemas))) _) _ h in
    let inserted : Map.insert id schema schemas ≡ added = cc h in
    let lookup = object-value schema (ok_or-eq-ok (as_object schema) _ a) in
    let (value, f, g, i, j) = allowed_roles-lem entries (ok_or-eq-ok (allowed_roles entries) _ c) in
    elim (Map.mem-insert id schema schemas (subst (λ l. Memᴰ (k, v) l) (sym inserted) m)) [
      | inr n ↦ payloads k v n
      | inl q ↦
          subst (λ (e : String × Value). IsPayloadSchema e.0 e.1) (sym q)
            (record {
              roles = roles;
              named = rw (lookup "x-result-schema") (ok_or-eq-ok (identity entries) _ b);
              allows =
                  ap as_array (index-get schema "x-allowed-roles" (lookup "x-allowed-roles" ∙ f))
                  ∙ g;
              some_role = i;
              all_texts = j;
            })
    ]

load_payloads-AllPayloads :
    (files : List (Result String Value)) (schemas : Map Value) {added : Map Value}
    → load_payloads files schemas ≡ ok added
    → AllPayloads schemas
    → AllPayloads added
unfolding load_payloads
load_payloads-AllPayloads [] schemas {added} h payloads =
    let same : schemas ≡ added = cc h in subst AllPayloads same payloads
load_payloads-AllPayloads (file ∷ files) schemas h payloads =
    let (schema, a, h) = >>=-eq-ok (map_err RegistryError.unreadable file) _ h in
    let (added, b, h) = >>=-eq-ok (add_payload schema schemas) _ h in
    load_payloads-AllPayloads files added h (add_payload-AllPayloads schema schemas b payloads)

abbrev pub made : Map Value → Map Value → String → SchemaRegistry
made records payloads digest = record {
  record_schemas = records;
  result_payload_schemas = payloads;
  digest = digest;
}

-- A registry that is loaded has a schema for each kind of Record and for each result schema, and for
-- no others. Each schema of a result names itself by the key under which it stands, and allows some
-- roles, which are texts.
pub load-IsLoaded :
    (crates : Crates) (files : SchemaFiles) {registry : SchemaRegistry}
    → load crates files ≡ ok registry
    → IsLoaded registry
unfolding load
load-IsLoaded crates files {registry} h =
    let (records, a, h) = >>=-eq-ok (load_records files record_kinds []) _ h in
    let (payload_files, b, h) =
      >>=-eq-ok (map_err RegistryError.unreadable files.payload_schemas) _ h in
    let (payloads, c, h) = >>=-eq-ok (load_payloads payload_files []) _ h in
    let (u, d, h) =
      >>=-eq-ok (assert_exact_keys "Record Schema" (keys_of records) record_kinds) _ h in
    let (w, e, h) =
      >>=-eq-ok (assert_exact_keys "Result payload Schema" (keys_of payloads) result_schema_ids) _
        h in
    let (digest, f, g) =
      >>=-eq-ok
        (map_err (λ e. RegistryError.no_digest) (canonical_digest crates (bundle records payloads)))
        _ h in
    let same : made records payloads digest ≡ registry = ok-injective g in
    subst IsLoaded same (record {
      has_kind = (exact "Record Schema" records record_kinds d).0;
      only_kinds = (exact "Record Schema" records record_kinds d).1;
      has_result = (exact "Result payload Schema" payloads result_schema_ids e).0;
      only_results = λ id schema q. (
        (exact "Result payload Schema" payloads result_schema_ids e).1 id schema q,
        load_payloads-AllPayloads payload_files [] c (λ k v m. elim m [ ]) id schema
            (Map.get-mem id payloads q).0,
      );
    })
