-- ===== src/Tests/Evidence.antt =====
-- An evidence-backed instance, a Contract with a direct clause, and the Evidence for it (the inputs of
-- `is_satisfied` of src/kernel.rs).
use mathlib.Core.List.Memᴰ
use agentic_development_fram.Base.{
  String, true, false, ◌≡◌, refl, sym, subst, inl, inr, ◌↔◌, List, [], ◌∷◌, Memᴰ, is_some,
}
use agentic_development_fram.Json.Value.{Value, number, unsigned, string, string_field}
use agentic_development_fram.Rules.Types.{evidence_backed}
use agentic_development_fram.Kernel.Types.{ProjectSnapshot, RequirementInstance}
use agentic_development_fram.Kernel.Candidates.{json_object, json_texts}
use agentic_development_fram.Kernel.Evidence.{is_satisfied, required, matching_contract_clauses}
use agentic_development_fram.Kernel.Required.{HasRequired, matching_contract_clauses-HasRequired}
use agentic_development_fram.Kernel.Support.{IsSupported, is_satisfied_iff}
use agentic_development_fram.Tests.Data.{list_of}
use agentic_development_fram.Tests.Snapshots.{unsatisfied_tests, snapshot_of, result_of}
use agentic_development_fram.Tests.Runs.{run_kernel}

abbrev backed : RequirementInstance
backed = record unsatisfied_tests { assurance = evidence_backed }

-- The clause `contract.one#clause.one` applies to the Change and asks for direct Evidence.
abbrev contract : Value
contract = json_object (
    ("id", string "contract.one")
    ∷ (
      "clauses",
      list_of (
          json_object (
            ("id", string "clause.one")
            ∷ ("applies_to", json_texts ("change.one" ∷ []))
            ∷ ("evidence_mode", string "direct")
            ∷ [])
          ∷ []),
    )
    ∷ [])

abbrev claim_of : String → Value
claim_of reference = json_object (("contract_clause_ref", string reference) ∷ [])

-- A test run, with the claims that it makes.
abbrev evidence_with : List Value → Value
evidence_with claims = json_object (
    ("id", string "evidence.one")
    ∷ ("change_id", string "change.one")
    ∷ ("outcome", string "passed")
    ∷ ("method", string "cargo test")
    ∷ (
      "artifact",
      json_object (
          ("uri", string "file:log")
          ∷ (
            "digest",
            string "sha256:0123456789abcdef0123456789abcdef0123456789abcdef0123456789abcdef",
          )
          ∷ ("exit_code", number (unsigned 0))
          ∷ []),
    )
    ∷ ("requirement_instances", json_texts ("tests-recorded|change.one" ∷ []))
    ∷ ("input_refs", json_object (("file.main", string "sha256:main") ∷ []))
    ∷ ("contract_clause_refs", json_texts ("contract.one#clause.one" ∷ []))
    ∷ ("claims", list_of claims)
    ∷ [])

abbrev evidence_result : Value
evidence_result = result_of "result.two" "result.evidence" "Builder" (
    (
      "outcomes",
      list_of (
          json_object (
            ("instance_key", string "tests-recorded|change.one")
            ∷ ("definition_digest", string "sha256:143")
            ∷ ("status", string "satisfied")
            ∷ ("basis_refs", json_texts ("evidence.one" ∷ []))
            ∷ [])
          ∷ []),
    )
    ∷ [])

abbrev evident : List Value → ProjectSnapshot
evident claims = record (snapshot_of "post-build" (evidence_result ∷ [])) {
  contracts = contract ∷ [];
  evidence = evidence_with claims ∷ [];
}

-- The claim of the clause makes the difference.
claimed_run : is_satisfied backed (evident (claim_of "contract.one#clause.one" ∷ [])) ≡ true
unfolding run_kernel
claimed_run = refl

unclaimed_run : is_satisfied backed (evident []) ≡ false
unfolding run_kernel
unclaimed_run = refl

is_satisfied_iff_example :
    (is_satisfied backed (evident (claim_of "contract.one#clause.one" ∷ [])) ≡ true)
    ↔ IsSupported backed (evident (claim_of "contract.one#clause.one" ∷ []))
is_satisfied_iff_example =
    is_satisfied_iff backed (evident (claim_of "contract.one#clause.one" ∷ []))

contract_ids : (c : Value) → Memᴰ c (contract ∷ []) → is_some (string_field c "id") ≡ true
unfolding run_kernel
contract_ids c m = elim (Memᴰ.cases_cons m) [
  | inl e ↦ subst (λ c. is_some (string_field c "id") ≡ true) (sym e) refl
  | inr t ↦ elim t [ ]
]

matching_contract_clauses-HasRequired_example :
    Memᴰ "contract.one#clause.one" (required (matching_contract_clauses backed (evident []))) ↔ (
      (c : Value) × Memᴰ c (contract ∷ [])
      × HasRequired ("change.one" ∷ []) "contract.one#clause.one" c)
matching_contract_clauses-HasRequired_example =
    matching_contract_clauses-HasRequired backed (evident []) contract_ids "contract.one#clause.one"
