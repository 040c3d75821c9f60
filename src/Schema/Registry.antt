-- ===== src/Schema/Registry.antt =====
-- What the Rule Compiler asks of the registry: `supports_result_schema` and `supports_result_role`
-- of src/schema.rs.
use agentic_development_fram.Base.{String, Bool, any, ◌==◌, is_some, is_some_and, and_then}
use agentic_development_fram.Base.Map
use agentic_development_fram.Base.Map.{Map}
use agentic_development_fram.Json.Value.{Value, as_array, as_str, index}

pub record SchemaRegistry : Type 0 where
  pub record_schemas : Map Value
  pub result_payload_schemas : Map Value
  pub digest : String

unfoldable pub supports_result_schema : SchemaRegistry → String → Bool
supports_result_schema registry result_schema =
    is_some (Map.get result_schema registry.result_payload_schemas)

unfoldable pub supports_result_role : SchemaRegistry → String → String → Bool
supports_result_role registry result_schema role =
    is_some_and
      (and_then (Map.get result_schema registry.result_payload_schemas)
        (λ schema. as_array (index schema "x-allowed-roles")))
      (λ roles. any (λ candidate. is_some_and (as_str candidate) (λ s. s == role)) roles)
