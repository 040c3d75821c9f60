-- ===== src/Schema/Records.antt =====
-- The validation of Records: `SchemaRegistry::validate` and `validate_result_payload` of
-- src/schema.rs.
pub mod Accepts
use agentic_development_fram.Base.{
  String, ok, ok_or, err, guard, ◌>>=◌, ◌>>◌, suc, any, is_some_and, ◌==◌, if◌then◌else◌,
}
use agentic_development_fram.Base.Map
use agentic_development_fram.Json.Value.{Value, as_str, as_array, index}
use agentic_development_fram.Schema.Registry.{SchemaRegistry}
use agentic_development_fram.Schema.Keywords.{
  Libraries, Reason, unknown_kind, unsupported_schema, role_not_allowed, failure, panic, Validation,
}
use agentic_development_fram.Schema.Validate.{depth, validate_value}

-- `validate_value(value, schema, path)`, with the fuel that is enough.
abbrev pub validate_at : Libraries → Value → Value → String → Validation
validate_at libraries value schema path =
    validate_value libraries (suc (depth schema)) value schema path

-- The second half of `validate`, for a Record of kind `result`. The `expect`s are `panic`.
unfoldable pub validate_result : Libraries → SchemaRegistry → Value → Validation
validate_result libraries registry value =
    ok_or (as_str (index value "result_schema")) panic >>= λ result_schema.
    ok_or (Map.get result_schema registry.result_payload_schemas)
      (failure "$.result_schema" (unsupported_schema result_schema))
    >>= λ payload_schema. ok_or (as_str (index value "role")) panic >>= λ role.
        ok_or (as_array (index payload_schema "x-allowed-roles")) panic >>= λ roles.
        guard (any (λ candidate. is_some_and (as_str candidate) (λ s. s == role)) roles)
          (failure "$.role" (role_not_allowed role result_schema))
        >> validate_at libraries (index value "payload") payload_schema "$.payload"

unfoldable pub validate : Libraries → SchemaRegistry → String → Value → Validation
validate libraries registry record_kind value =
    ok_or (Map.get record_kind registry.record_schemas) (failure "$" (unknown_kind record_kind))
    >>= λ schema.
        validate_at libraries value schema "$"
        >> (if record_kind == "result" then validate_result libraries registry value else ok tt)

unfoldable pub validate_result_payload : Libraries → SchemaRegistry → String → Value → Validation
validate_result_payload libraries registry result_schema payload =
    ok_or (Map.get result_schema registry.result_payload_schemas)
      (failure "$.result_schema" (unsupported_schema result_schema))
    >>= λ schema. validate_at libraries payload schema "$"
