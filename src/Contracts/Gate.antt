-- ===== src/Contracts/Gate.antt =====
-- The Contract health gate: src/contract_health_gate.rs.
pub mod Policy
pub mod Passed
pub mod Backed
pub mod Guarded
use agentic_development_fram.Base.{
  String, Bool, true, false, not, Option, none, some, List, [], ◌∷◌, ◌==◌, ◌<>◌, and_then, filter,
  is_empty, is_some_and, map, Result, ok, err, ok_or, guard, ◌>>=◌, ◌>>◌, if◌then◌else◌,
}
use agentic_development_fram.Base.Map
use agentic_development_fram.Base.Map.{Map}
use agentic_development_fram.Base.Map.Ascending.{keys_of}
use agentic_development_fram.Base.Sets.{set_of}
use agentic_development_fram.Contracts.Scope.{member}
use agentic_development_fram.Contracts.Health.{ClauseHealth, ContractHealthReport}
use agentic_development_fram.Json.Value.{Value, as_str, as_array, as_object}
use agentic_development_fram.Delivery.Fields.{same_set}

abbrev pub allowed_failure_states : List String
allowed_failure_states = "failed" ∷ "stale" ∷ "unverified" ∷ []

pub record ContractHealthPolicy : Type 0 where
  pub schema_version : String
  pub fail_on : List String

-- The loop over the states. `normalized` is a set, here what was inserted.
unfoldable pub normalize_states : List Value → List String → Result String (List String)
normalize_states [] normalized = ok normalized
normalize_states (value ∷ values) normalized =
    ok_or (as_str value) "Contract Health policy fail_on entries must be strings" >>= λ state.
    guard (member state allowed_failure_states)
      ("unsupported Contract Health failure state: " <> state)
    >> (guard (not (member state normalized)) ("duplicate Contract Health failure state: " <> state)
        >> normalize_states values (state ∷ normalized))

-- `ContractHealthPolicy::from_value`. The message on wrong fields is its fixed part.
unfoldable pub from_value : Value → Result String ContractHealthPolicy
from_value value = ok_or (as_object value) "Contract Health policy must be a mapping" >>= λ fields.
    guard (same_set (keys_of fields) ("schema_version" ∷ "fail_on" ∷ []))
      "invalid Contract Health policy"
    >> (guard (is_some_and (and_then (Map.get "schema_version" fields) as_str) (λ s. s == "1"))
          "unsupported Contract Health policy schema"
        >> (ok_or (and_then (Map.get "fail_on" fields) as_array)
              "Contract Health policy fail_on must be an array"
            >>= λ fail_on.
                guard (not (is_empty fail_on))
                  "Contract Health policy fail_on must contain at least one state"
                >> (normalize_states fail_on [] >>= λ normalized.
                    ok (record { schema_version = "1"; fail_on = set_of normalized }))))

pub record ContractHealthGatePolicy : Type 0 where
  pub path : String
  pub fail_on : List String

pub record ContractHealthGateReport : Type 0 where
  pub schema_version : String
  pub status : String
  pub policy : ContractHealthGatePolicy
  pub blocking_clause_refs : List String
  pub contract_health : ContractHealthReport

unfoldable pub build :
    String → ContractHealthPolicy → ContractHealthReport → ContractHealthGateReport
build policy_path policy contract_health =
    let blocking_clause_refs =
      map (λ (clause : ClauseHealth). clause.clause_ref)
        (filter (λ (clause : ClauseHealth). member clause.status policy.fail_on)
          contract_health.clauses) in
    record {
      schema_version = "1";
      status = if is_empty blocking_clause_refs then "passed" else "failed";
      policy = record { path = policy_path; fail_on = policy.fail_on };
      blocking_clause_refs = blocking_clause_refs;
      contract_health = contract_health;
    }

unfoldable pub passed : ContractHealthGateReport → Bool
passed report = report.status == "passed"
