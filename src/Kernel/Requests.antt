-- ===== src/Kernel/Requests.antt =====
-- Requests for a human decision: which one is pending, and that it stops the Change
-- (`pending_decision_request` and `evaluate_with_health` of src/kernel.rs).
use agentic_development_fram.Base.{
  String, Bool, true, false, ◌≡◌, refl, Option, none, some, List, [], ◌∷◌, ◌==◌, ==-self, Memᴰ,
  ◌<>◌, find_map-mem, find_map-none, ok, Bool-cases, Option-cases, inl, inr, if◌then◌else◌,
}
use agentic_development_fram.Json.Canonical.{Crates, expect_digest}
use agentic_development_fram.Json.Value.{Value, nested_array, string_field}
use agentic_development_fram.Contracts.Health.{ContractHealthReport}
use agentic_development_fram.Detection.Types.{DetectionReport, SignalCatalogRegistry}
use agentic_development_fram.Rules.Types.{RuleIndex}
use agentic_development_fram.Kernel.Types.{
  ProjectSnapshot, RequirementInstance, NextAction, KernelDecision,
}
use agentic_development_fram.Kernel.Freshness.{result_is_fresh, impact_assessment_pending}
use agentic_development_fram.Kernel.Actions.{
  open_request, result_request, pending_decision_request, has_fresh_human_answer,
  decision_is_recorded, make_action, action_id, action_body,
}
use agentic_development_fram.Kernel.Collect.{unreviewed_candidates, collect_instances}
use agentic_development_fram.Kernel.Steps.{decide, review_step, request_step, request_decision}
use agentic_development_fram.Kernel.Evaluate.{evaluate_with_health}

-- A current result asks for the decision, and no accepted Decision that a Contract cites resolves
-- the request.
pub record IsOpen (snapshot : ProjectSnapshot) (request_id : String) : Type 0 where
  pub result : Value
  pub recorded_result : Memᴰ result snapshot.results
  pub current : result_is_fresh result snapshot ≡ true
  pub request : Value
  pub asked : Memᴰ request (nested_array result ("payload" ∷ "decision_requests" ∷ []))
  pub named : string_field request "id" ≡ some request_id
  pub unrecorded : decision_is_recorded snapshot request_id ≡ false

open_request-open :
    (snapshot : ProjectSnapshot) (request : Value) (r : String)
    → open_request snapshot request ≡ some r
    → (string_field request "id" ≡ some r) × (decision_is_recorded snapshot r ≡ false)
unfolding open_request
open_request-open snapshot request r e = elim (Option-cases (string_field request "id")) [
  | inl n ↦ cc (rw n at e)
  | inr (i, m) ↦ elim (Bool-cases (decision_is_recorded snapshot i)) [
    | inl recorded ↦ cc (rw (m, recorded) at e)
    | inr left ↦ let q : i ≡ r = cc (rw (m, left) at e) in (rw (← q) m, rw (← q) left)
  ]
]

open_request-some :
    (snapshot : ProjectSnapshot) (request : Value) (r : String)
    → string_field request "id" ≡ some r
    → decision_is_recorded snapshot r ≡ false
    → open_request snapshot request ≡ some r
unfolding open_request
open_request-some snapshot request r e h = rw (e, h) refl

pub pending_decision_request-IsOpen :
    (snapshot : ProjectSnapshot) (r : String)
    → pending_decision_request snapshot ≡ some r
    → IsOpen snapshot r
unfolding pending_decision_request result_request
pending_decision_request-IsOpen snapshot r e =
    let (result, m, q) = find_map-mem (result_request snapshot) snapshot.results e in
    elim (Bool-cases (result_is_fresh result snapshot)) [
      | inr stale ↦ cc (rw stale at q)
      | inl fresh ↦
          let (request, n, p) =
            find_map-mem (open_request snapshot)
              (nested_array result ("payload" ∷ "decision_requests" ∷ [])) (rw fresh at q) in
          let (i, u) = open_request-open snapshot request r p in
          record {
            result = result;
            recorded_result = m;
            current = fresh;
            request = request;
            asked = n;
            named = i;
            unrecorded = u;
          }
    ]

pending_none-IsOpen :
    (snapshot : ProjectSnapshot)
    → pending_decision_request snapshot ≡ none
    → (r : String) → ¬ IsOpen snapshot r
unfolding pending_decision_request result_request
pending_none-IsOpen snapshot e r h =
    let q = find_map-none (result_request snapshot) snapshot.results e h.recorded_result in
    let p =
      find_map-none (open_request snapshot)
        (nested_array h.result ("payload" ∷ "decision_requests" ∷ [])) (rw h.current at q)
        h.asked in
    cc (open_request-some snapshot h.request r h.named h.unrecorded, p)

-- What the kernel may say of the requests: which one is open, or that none is.
abbrev pub IsPending : ProjectSnapshot → Option String → Type 0
IsPending snapshot none = (r : String) → ¬ IsOpen snapshot r
IsPending snapshot (some r) = IsOpen snapshot r

-- The request that is pending is open, and where none is pending, none is open.
pub pending_decision_request-open :
    (snapshot : ProjectSnapshot) → IsPending snapshot (pending_decision_request snapshot)
pending_decision_request-open snapshot = by_result (pending_decision_request snapshot) refl
  where
    by_result : (o : Option String) → pending_decision_request snapshot ≡ o → IsPending snapshot o
    by_result none e = pending_none-IsOpen snapshot e
    by_result (some r) e = pending_decision_request-IsOpen snapshot r e

-- The evaluation has come to its steps with all candidates reviewed.
pub record IsReviewed (crates : Crates) (registry : SignalCatalogRegistry)
    (snapshot : ProjectSnapshot) (index : RuleIndex) (detection : DetectionReport)
    (health : Option ContractHealthReport) : Type 0 where
  pub assessed : impact_assessment_pending snapshot ≡ false
  pub covered : detection.coverage.status ≡ "complete"
  pub reviewed : unreviewed_candidates snapshot detection ≡ []
  pub instances : List RequirementInstance
  pub collected : collect_instances crates registry snapshot index detection health ≡ ok instances

-- The decision has the state and issues an action of the name for the role, with the reason and the
-- schema of the result, and its id is made of these and the request.
pub record IsRequest (crates : Crates) (snapshot : ProjectSnapshot) (request_id : String)
    (state role action reason schema : String) (d : KernelDecision) : Type 0 where
  pub in_state : d.state ≡ state
  pub issued : NextAction
  pub is_issued : d.action ≡ some issued
  pub for_role : issued.role ≡ role
  pub named : issued.action ≡ action
  pub with_reason : issued.reason ≡ reason
  pub of_schema : issued.expected_result_schema ≡ schema
  pub of_request :
      issued.id
      ≡ action_id (
          expect_digest crates
            (action_body snapshot role action issued.requirement_instances request_id []))

module _ (crates : Crates) (snapshot : ProjectSnapshot) (instances : List RequirementInstance)
    (r : String) (pending : pending_decision_request snapshot ≡ some r) where
  decide-unanswered :
      has_fresh_human_answer snapshot r ≡ false
      → IsRequest crates snapshot r "needs-human-decision" "Human" "answer-decision-request"
          ("判断依頼 " <> r <> " への回答が必要です")
          "result.human-answer"
          (decide crates snapshot instances [])
  unfolding decide review_step request_step request_decision make_action
  decide-unanswered h =
      rw (pending, request_step)
        (rw h (record {
          in_state = refl;
          issued = _;
          is_issued = refl;
          for_role = refl;
          named = refl;
          with_reason = refl;
          of_schema = refl;
          of_request = refl;
        }))

  decide-unrecorded :
      has_fresh_human_answer snapshot r ≡ true
      → decision_is_recorded snapshot r ≡ false
      → IsRequest crates snapshot r "needs-decision-recording" "Analyst" "record-human-decision"
          ("回答済みの判断 " <> r <> " をDecisionとContractへ反映してください")
          "result.analysis"
          (decide crates snapshot instances [])
  unfolding decide review_step request_step request_decision make_action
  decide-unrecorded h k =
      rw (pending, request_step)
        (rw (h, k)
          (record {
            in_state = refl;
            issued = _;
            is_issued = refl;
            for_role = refl;
            named = refl;
            with_reason = refl;
            of_schema = refl;
            of_request = refl;
          }))

-- What the kernel asks for, by whether a current answer is there.
abbrev request_state : Bool → String
request_state answered = if answered then "needs-decision-recording" else "needs-human-decision"

abbrev request_role : Bool → String
request_role answered = if answered then "Analyst" else "Human"

abbrev request_action : Bool → String
request_action answered = if answered then "record-human-decision" else "answer-decision-request"

abbrev request_reason : Bool → String → String
request_reason answered r =
    if answered
    then "回答済みの判断 " <> r <> " をDecisionとContractへ反映してください"
    else "判断依頼 " <> r <> " への回答が必要です"

abbrev request_schema : Bool → String
request_schema answered = if answered then "result.analysis" else "result.human-answer"

abbrev pub IsStopped : Crates → ProjectSnapshot → String → KernelDecision → Type 0
IsStopped crates snapshot r d =
    let answered = has_fresh_human_answer snapshot r in
    IsRequest crates snapshot r (request_state answered) (request_role answered)
      (request_action answered) (request_reason answered r) (request_schema answered) d

decide-IsStopped :
    (crates : Crates) (snapshot : ProjectSnapshot) (instances : List RequirementInstance)
    (r : String)
    → pending_decision_request snapshot ≡ some r
    → IsStopped crates snapshot r (decide crates snapshot instances [])
decide-IsStopped crates snapshot instances r pending =
    elim (Bool-cases (has_fresh_human_answer snapshot r)) [
      | inl h ↦ rw h (
          decide-unrecorded crates snapshot instances r pending h
            (pending_decision_request-IsOpen snapshot r pending).unrecorded)
      | inr h ↦ rw h (decide-unanswered crates snapshot instances r pending h)
    ]

-- Where the Change is assessed, covered and collected and all its candidates are reviewed, a
-- pending request stops it: as long as no current answer is given, the kernel asks a Human for one,
-- and once there is one, it has the Analyst record the decision. The reason of the action names the
-- request, and the action's id is made of the request too.
pub evaluate-pending :
    (crates : Crates) (registry : SignalCatalogRegistry) (snapshot : ProjectSnapshot)
    (index : RuleIndex) (detection : DetectionReport) (health : Option ContractHealthReport)
    (r : String)
    → IsReviewed crates registry snapshot index detection health
    → pending_decision_request snapshot ≡ some r
    → IsStopped crates snapshot r
        (evaluate_with_health crates registry snapshot index detection health)
unfolding evaluate_with_health
evaluate-pending crates registry snapshot index detection health r ready pending =
    let covered : (detection.coverage.status == "complete") ≡ true =
      rw ready.covered (==-self "complete") in
    rw (ready.assessed, covered, ready.collected)
      (rw ready.reviewed (decide-IsStopped crates snapshot _ r pending))
