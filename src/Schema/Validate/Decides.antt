-- ===== src/Schema/Validate/Decides.antt =====
-- The validator decides conformance (`validate_value` and `validate_json_document` of
-- src/schema.rs).
use agentic_development_fram.Base.{
  ℕ, zero, suc, String, ◌≡◌, refl, ◌↔◌, inl, inr, ok, err, ◌<◌, Option-cases, arith, ◌<>◌,
}
use agentic_development_fram.Json.Value.{Value, object, Fields, as_object, field_list}
use agentic_development_fram.Schema.Keywords.{
  Libraries, SchemaValidationError, Failure, invalid, out_of_fuel, Validation,
}
use agentic_development_fram.Schema.Validate.{
  depth, fields_depth, validate_value, validate_json_document,
}
use agentic_development_fram.Schema.Validate.Conforms.{Conforms, Conforms-IsNode, node-Conforms}
use agentic_development_fram.Schema.Validate.Checks.{Passes}
use agentic_development_fram.Schema.Validate.Nodes.{Passes-IsNode}
use agentic_development_fram.Schema.Validate.Accepts.{node-Passes}
use agentic_development_fram.Schema.Validate.Depth.{inside}
use agentic_development_fram.Json.Lookup.{as_object-value}
use agentic_development_fram.Schema.Validate.Located.{IsLocated, validate_value-IsLocated}

module _ (libraries : Libraries) where
  pub validate_value_sound :
      (fuel : ℕ) (value schema : Value) (path : String)
      → Passes (validate_value libraries fuel value schema path)
      → Conforms libraries value schema
  unfolding validate_value
  validate_value_sound zero value schema path h = cc
  validate_value_sound (suc fuel) value schema path h = elim (Option-cases (as_object schema)) [
    | inl e ↦ cc (rw (e, validate_value) at h)
    | inr (entries, e) ↦
        let (fs, q, r) = as_object-value schema e in
        rw q (
          node-Conforms libraries (
            rw r (
              Passes-IsNode libraries (validate_value libraries fuel) (Conforms libraries)
                (validate_value_sound fuel) value entries path (rw (e, validate_value) at h))))
  ]

  pub validate_value_complete :
      (fuel : ℕ) (value schema : Value) (path : String)
      → depth schema < fuel
      → Conforms libraries value schema
      → Passes (validate_value libraries fuel value schema path)
  unfolding validate_value depth
  validate_value_complete zero value schema path h c = absurd (omega arith)
  validate_value_complete (suc fuel) value schema path h c =
      let (fs, q, node) = Conforms-IsNode libraries c in
      let below : fields_depth fs < fuel = below_fuel fs q in
      rw q (
        node-Passes libraries (validate_value libraries fuel) (Conforms libraries)
          (λ s. depth s < fuel) (λ v s p d c. validate_value_complete fuel v s p d c) value
          (field_list fs) path (inside fs fuel below) node)
    where
      below_fuel : (fs : Fields) → schema ≡ object fs → fields_depth fs < fuel
      below_fuel fs q = let k = rw q at h in omega (arith, k)

-- The validator accepts a document exactly if it conforms to the schema, whatever the depth of the
-- two and also where the schema itself is malformed.
pub validate_json_document_iff :
    (libraries : Libraries) (value schema : Value)
    → (validate_json_document libraries value schema ≡ ok tt) ↔ Conforms libraries value schema
unfolding validate_json_document
validate_json_document_iff libraries value schema = (
  validate_value_sound libraries (suc (depth schema)) value schema "$",
  validate_value_complete libraries (suc (depth schema)) value schema "$" (omega arith),
)

-- A document that does not conform is refused with a validation error whose path starts at the
-- root, `$`; the validator never fails in another way.
pub validate_json_document-refuses :
    (libraries : Libraries) (value schema : Value)
    → ¬ Conforms libraries value schema
    → (e : SchemaValidationError) × (validate_json_document libraries value schema
        ≡ err (invalid e))
      × (rest : String) × (e.path ≡ "$" <> rest)
unfolding validate_json_document
validate_json_document-refuses libraries value schema not_conforming =
    by_result (validate_value libraries (suc (depth schema)) value schema "$") refl
      (validate_value-IsLocated libraries (suc (depth schema)) value schema "$" (omega arith))
  where
    by_result :
        (r : Validation)
        → validate_value libraries (suc (depth schema)) value schema "$" ≡ r
        → IsLocated "$" r
        → (e : SchemaValidationError) × (r ≡ err (invalid e))
          × (rest : String) × (e.path ≡ "$" <> rest)
    by_result (ok tt) q l =
        absurd
          (not_conforming (validate_value_sound libraries (suc (depth schema)) value schema "$" q))
    by_result (err (invalid e)) q (rest, l) = (e, refl, rest, l)
    by_result (err out_of_fuel) q l = absurd l
    by_result (err Failure.panic) q l = absurd l
