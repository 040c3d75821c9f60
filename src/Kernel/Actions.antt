-- ===== src/Kernel/Actions.antt =====
-- The action that the kernel issues: its identity, its batch of instances and the requests for a
-- human decision (`dependencies_satisfied` to `execution_guidance` of src/kernel.rs).
use agentic_development_fram.Base.{
  String, ℕ, Bool, true, false, not, ◌&&◌, Option, none, some, List, [], ◌∷◌, map, any, all, filter,
  filter_map, find_map, is_empty, length, decimal, slice, ◌==◌, ◌<>◌, unwrap_or, strip_prefix, ltb,
  is_some_and, and_then, if◌then◌else◌,
}
use agentic_development_fram.Base.Order.{sort_by, text_le, text_lt}
use agentic_development_fram.Json.Value.{
  Value, string, array, items, as_str, as_array, get, field_is, string_field, nested_array,
}
use agentic_development_fram.Json.Canonical.{Crates, expect_digest}
use agentic_development_fram.Contracts.Scope.{member}
use agentic_development_fram.Kernel.Types.{
  ProjectSnapshot, RequirementInstance, ExecutionGuidance, NextAction,
}
use agentic_development_fram.Kernel.Freshness.{is_result_of, result_is_fresh}
use agentic_development_fram.Kernel.Candidates.{json_object, json_texts}

abbrev pub is_unsatisfied : RequirementInstance → Bool
is_unsatisfied instance = instance.status == "unsatisfied"

-- Every selected instance of the dependency is satisfied.
unfoldable pub dependency_satisfied : List RequirementInstance → String → Bool
dependency_satisfied instances dependency =
    all (λ (candidate : RequirementInstance). candidate.status == "satisfied")
      (filter (λ (candidate : RequirementInstance). candidate.requirement_id == dependency)
        instances)

unfoldable pub dependencies_satisfied : RequirementInstance → List RequirementInstance → Bool
dependencies_satisfied instance instances = all (dependency_satisfied instances) instance.depends_on

-- An accepted Decision that resolves the request.
unfoldable pub resolves_request : String → Value → Bool
resolves_request request_id decision =
    field_is decision "status" "accepted"
    && is_some_and (and_then (get decision "resolves") as_array)
        (λ resolves. any (λ value. is_some_and (as_str value) (λ s. s == request_id)) resolves)

unfoldable pub cites_decision : List String → Value → Bool
cites_decision decision_ids contract =
    is_some_and (and_then (get contract "clauses") as_array) (λ clauses.
      any
        (λ clause.
          is_some_and (string_field clause "authority_ref")
            (λ reference. member reference decision_ids))
        clauses)

unfoldable pub resolving_decisions : ProjectSnapshot → String → List String
resolving_decisions snapshot request_id =
    filter_map (λ decision. string_field decision "id")
      (filter (resolves_request request_id) snapshot.decisions)

unfoldable pub decision_is_recorded : ProjectSnapshot → String → Bool
decision_is_recorded snapshot request_id =
    let decision_ids = resolving_decisions snapshot request_id in
    not (is_empty decision_ids) && any (cites_decision decision_ids) snapshot.contracts

-- The first request of a result that no Decision has recorded.
unfoldable pub open_request : ProjectSnapshot → Value → Option String
open_request snapshot request =
    and_then (string_field request "id")
      (λ request_id. if decision_is_recorded snapshot request_id then none else some request_id)

-- The body of the outer loop: a result that is not fresh is passed over.
unfoldable pub result_request : ProjectSnapshot → Value → Option String
result_request snapshot result =
    if result_is_fresh result snapshot
    then find_map (open_request snapshot)
        (nested_array result ("payload" ∷ "decision_requests" ∷ []))
    else none

unfoldable pub pending_decision_request : ProjectSnapshot → Option String
pending_decision_request snapshot = find_map (result_request snapshot) snapshot.results

unfoldable pub answers_request : ProjectSnapshot → String → Value → Bool
answers_request snapshot request_id result =
    is_result_of result "result.human-answer" "Human"
    && result_is_fresh result snapshot
    && any (λ answer. field_is answer "request_id" request_id)
        (nested_array result ("payload" ∷ "answers" ∷ []))

unfoldable pub has_fresh_human_answer : ProjectSnapshot → String → Bool
has_fresh_human_answer snapshot request_id =
    any (answers_request snapshot request_id) snapshot.results

unfoldable pub role_rank : String → ℕ
role_rank role =
    if role == "Analyst"
    then 0
    else if role == "Builder"
    then 1
    else if role == "Challenger"
    then 2
    else 9

unfoldable pub execution_guidance : String → ExecutionGuidance
execution_guidance action =
    if action == "assess-change-impact"
    then (record {
      preferred_model_tier = "economy";
      escalation_conditions =
          "The assessment would conclude no-impact."
          ∷ "The available authority is insufficient or contradictory."
          ∷ "A security, privacy, payment, or irreversible-data risk is plausible." ∷ [];
    })
    else if action == "challenge-result"
    then (record { preferred_model_tier = "high-accuracy"; escalation_conditions = [] })
    else (record {
      preferred_model_tier = "standard";
      escalation_conditions = "The action cannot be completed from its issued Context." ∷ [];
    })

-- The body whose digest names the action.
unfoldable pub action_body :
    ProjectSnapshot → String → String → List RequirementInstance → String → List String → Value
action_body snapshot role action instances extra candidate_fingerprints = json_object (
    ("change_id", string snapshot.change_id)
    ∷ ("role", string role)
    ∷ ("action", string action)
    ∷ (
      "instances",
      array (
          items (
            map
              (λ (i : RequirementInstance). json_texts (i.instance_key ∷ i.definition_digest ∷ []))
              instances)),
    )
    ∷ ("extra", string extra)
    ∷ ("candidate_fingerprints", json_texts candidate_fingerprints)
    ∷ [])

-- `format!("action.{}", &suffix[..16])`; a digest has its prefix, and 64 digits behind it
unfoldable pub action_id : String → String
action_id digest = "action." <> slice (unwrap_or (strip_prefix digest "sha256:") "") 0 16

unfoldable pub make_action :
    Crates
    → ProjectSnapshot
    → String
    → String
    → List RequirementInstance
    → String
    → String
    → String
    → List String
    → NextAction
make_action crates snapshot role action instances reason expected_result_schema extra
      candidate_fingerprints =
    record {
      id = action_id (
          expect_digest crates
            (action_body snapshot role action instances extra candidate_fingerprints));
      role = role;
      action = action;
      requirement_instances = instances;
      reason = reason;
      expected_result_schema = expected_result_schema;
      candidate_fingerprints = candidate_fingerprints;
      execution_guidance = execution_guidance action;
    }

-- The order of the tuples `(role_rank, result_schema, instance_key)`.
unfoldable pub batch_le : RequirementInstance → RequirementInstance → Bool
batch_le a b =
    if ltb (role_rank a.role) (role_rank b.role)
    then true
    else if ltb (role_rank b.role) (role_rank a.role)
    then false
    else if text_lt a.result_schema b.result_schema
    then true
    else if text_lt b.result_schema a.result_schema
    then false
    else text_le a.instance_key b.instance_key

-- `ordered[0]` of the candidates `c ∷ cs`
unfoldable pub first_of : RequirementInstance → List RequirementInstance → RequirementInstance
first_of c cs = elim (sort_by batch_le (c ∷ cs)) [ [] ↦ c | first ∷ rest ↦ first ]

abbrev pub same_batch : RequirementInstance → RequirementInstance → Bool
same_batch first item = item.role == first.role && item.result_schema == first.result_schema

unfoldable pub batch : RequirementInstance → List RequirementInstance → List RequirementInstance
batch c cs = filter (same_batch (first_of c cs)) (c ∷ cs)

unfoldable pub batch_action_name : String → String
batch_action_name role =
    if role == "Analyst"
    then "analyze-requirements"
    else if role == "Builder"
    then "record-evidence"
    else if role == "Challenger"
    then "challenge-result"
    else "complete-requirements"

-- `batch_action` of a list that is not empty, as at each of its calls
unfoldable pub batch_action :
    Crates → ProjectSnapshot → RequirementInstance → List RequirementInstance → NextAction
batch_action crates snapshot c cs =
    let first = first_of c cs in
    let members = batch c cs in
    make_action crates snapshot first.role (batch_action_name first.role) members
      (decimal (length members) <> "件のRequirementを満たす必要があります") first.result_schema "" []
