-- ===== src/Schema/Records/Accepts.antt =====
-- What a Record must be for the registry to accept it (`SchemaRegistry::validate` of
-- src/schema.rs).
use agentic_development_fram.Base.{
  String, Bool, true, false, some, List, ◌≡◌, refl, ◌∙◌, sym, ◌↔◌, inl, inr, ok, ok_or, guard, suc,
  any, is_some_and, ◌==◌, if◌then◌else◌, >>=-eq-ok, ok_or-eq-ok, guard-eq-ok, Bool-cases, eq_of_==,
  ==-self, arith, and_then, Option-cases,
}
use agentic_development_fram.Base.Map
use agentic_development_fram.Json.Value.{Value, as_str, as_array, index}
use agentic_development_fram.Schema.Registry.{SchemaRegistry, supports_result_role}
use agentic_development_fram.Schema.Keywords.{Libraries, panic, Validation}
use agentic_development_fram.Schema.Validate.{depth}
use agentic_development_fram.Schema.Validate.Conforms.{Conforms}
use agentic_development_fram.Schema.Validate.Checks.{Passes, Passes-split, >>-Passes}
use agentic_development_fram.Schema.Validate.Decides.{validate_value_sound, validate_value_complete}
use agentic_development_fram.Schema.Records.{validate_at, validate_result, validate}

-- A Result's role is allowed for its schema, and its payload conforms to that schema.
pub record IsResult (libraries : Libraries) (registry : SchemaRegistry) (value : Value)
    : Type 0 where
  pub result_schema : String
  pub role : String
  pub payload_schema : Value
  pub names_schema : as_str (index value "result_schema") ≡ some result_schema
  pub known_schema : Map.get result_schema registry.result_payload_schemas ≡ some payload_schema
  pub names_role : as_str (index value "role") ≡ some role
  pub allowed : supports_result_role registry result_schema role ≡ true
  pub payload_conforms : Conforms libraries (index value "payload") payload_schema

-- The roles of a schema, as the registry is asked for them.
roles_lem :
    (registry : SchemaRegistry) (result_schema role : String) {payload_schema : Value}
    {roles : List Value}
    → Map.get result_schema registry.result_payload_schemas ≡ some payload_schema
    → as_array (index payload_schema "x-allowed-roles") ≡ some roles
    → supports_result_role registry result_schema role
      ≡ any (λ candidate. is_some_and (as_str candidate) (λ s. s == role)) roles
unfolding supports_result_role
roles_lem registry result_schema role e f = rw (e, and_then) (rw (f, is_some_and) refl)

roles_of :
    (registry : SchemaRegistry) (result_schema role : String) {payload_schema : Value}
    → Map.get result_schema registry.result_payload_schemas ≡ some payload_schema
    → supports_result_role registry result_schema role ≡ true
    → (roles : List Value) × (as_array (index payload_schema "x-allowed-roles") ≡ some roles)
unfolding supports_result_role
roles_of registry result_schema role {payload_schema = payload_schema} e h =
    elim (Option-cases (as_array (index payload_schema "x-allowed-roles"))) [
      | inl n ↦ cc (rw (n, is_some_and) at (rw (e, and_then) at h))
      | inr (roles, f) ↦ (roles, f)
    ]

module _ (libraries : Libraries) (registry : SchemaRegistry) where
  at_iff :
      (value schema : Value) (path : String)
      → Passes (validate_at libraries value schema path) ↔ Conforms libraries value schema
  at_iff value schema path = (
    validate_value_sound libraries (suc (depth schema)) value schema path,
    validate_value_complete libraries (suc (depth schema)) value schema path (omega arith),
  )

  validate_result-IsResult :
      (value : Value)
      → Passes (validate_result libraries registry value)
      → IsResult libraries registry value
  unfolding validate_result
  validate_result-IsResult value h =
      let (result_schema, a, h) =
        >>=-eq-ok (ok_or (as_str (index value "result_schema")) panic) _ h in
      let (payload_schema, b, h) =
        >>=-eq-ok (ok_or (Map.get result_schema registry.result_payload_schemas) _) _ h in
      let (role, c, h) = >>=-eq-ok (ok_or (as_str (index value "role")) panic) _ h in
      let (roles, d, h) =
        >>=-eq-ok (ok_or (as_array (index payload_schema "x-allowed-roles")) panic) _ h in
      let (e, f) = Passes-split (guard (any _ roles) _) _ h in
      let known = ok_or-eq-ok (Map.get result_schema registry.result_payload_schemas) _ b in
      let listed = ok_or-eq-ok (as_array (index payload_schema "x-allowed-roles")) panic d in
      record {
        result_schema = result_schema;
        role = role;
        payload_schema = payload_schema;
        names_schema = ok_or-eq-ok (as_str (index value "result_schema")) panic a;
        known_schema = known;
        names_role = ok_or-eq-ok (as_str (index value "role")) panic c;
        allowed = roles_lem registry result_schema role known listed ∙ guard-eq-ok _ _ e;
        payload_conforms = (at_iff (index value "payload") payload_schema "$.payload").0 f;
      }

  IsResult-validate_result :
      (value : Value)
      → IsResult libraries registry value
      → Passes (validate_result libraries registry value)
  unfolding validate_result
  IsResult-validate_result value r =
      let (roles, listed) = roles_of registry r.result_schema r.role r.known_schema r.allowed in
      rw r.names_schema (
        rw r.known_schema (
          rw r.names_role (
            rw listed (
              >>-Passes
                (rw
                  (sym (roles_lem registry r.result_schema r.role r.known_schema listed)
                    ∙ r.allowed)
                  refl)
                ((at_iff (index value "payload") r.payload_schema "$.payload").1
                  r.payload_conforms)))))

  taken :
      (test : Bool) {a : Validation} (b : Validation)
      → test ≡ true
      → Passes (if test then a else b)
      → Passes a
  taken true b e h = h
  taken false b e h = cc

  -- The registry accepts a Record exactly if there is a schema of its kind to which it conforms,
  -- and, for a Result, if its payload conforms to the schema that it names and its role is one that
  -- the schema allows.
  pub validate_iff :
      (record_kind : String) (value : Value)
      → (validate libraries registry record_kind value ≡ ok tt) ↔ (
          (schema : Value) × (Map.get record_kind registry.record_schemas ≡ some schema)
          × Conforms libraries value schema
          × (record_kind ≡ "result" → IsResult libraries registry value))
  unfolding validate
  validate_iff record_kind value = (
    λ h.
        let (schema, a, h) =
          >>=-eq-ok (ok_or (Map.get record_kind registry.record_schemas) _) _ h in
        let (b, c) = Passes-split (validate_at libraries value schema "$") _ h in
        (
          schema,
          ok_or-eq-ok (Map.get record_kind registry.record_schemas) _ a,
          (at_iff value schema "$").0 b,
          λ e.
              validate_result-IsResult value
                (taken (record_kind == "result") _ (rw e (==-self "result")) c),
        ),
    λ (schema, a, b, c). rw a (
        >>-Passes ((at_iff value schema "$").1 b) (elim (Bool-cases (record_kind == "result")) [
          | inl e ↦ rw e (IsResult-validate_result value (c (eq_of_== record_kind "result" e)))
          | inr e ↦ rw e refl
        ])),
  )
