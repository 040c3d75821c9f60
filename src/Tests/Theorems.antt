-- ===== src/Tests/Theorems.antt =====
-- The theorems of the kernel at the project.
use mathlib.Core.List.Memᴰ
use agentic_development_fram.Base.{
  String, not, ◌≡◌, refl, ◌≢◌, ◌↔◌, none, some, List, [], ◌∷◌, Memᴰ, ok, is_some, ◌≤◌, try_map,
}
use agentic_development_fram.Base.{subst, ne_of_==, inl, inr}
use agentic_development_fram.Base.Order.{sort}
use agentic_development_fram.Base.Map
use agentic_development_fram.Contracts.Scope.{member}
use agentic_development_fram.Json.Value.{string}
use agentic_development_fram.Json.Canonical.{canonical_json, canonical_digest}
use agentic_development_fram.Json.Total.{has_float, HasDigest, canonical_digest-total}
use agentic_development_fram.Json.KeyOrder.{Agrees, FieldsAgree, canonical_json-key_order}
use agentic_development_fram.Rules.Types.{RequirementDefinition}
use agentic_development_fram.Rules.Acyclic.{Leads}
use agentic_development_fram.Rules.Requirements.{assert_acyclic}
use agentic_development_fram.Rules.Decides.{assert_acyclic_iff}
use agentic_development_fram.Rules.Index.{IsCompiled, compile_rule_index-IsCompiled}
use agentic_development_fram.Kernel.Types.{
  ProjectSnapshot, RequirementInstance, NextAction, KernelDecision,
}
use agentic_development_fram.Kernel.Freshness.{repository_phase}
use agentic_development_fram.Kernel.Candidates.{json_object, current_candidate_review}
use agentic_development_fram.Kernel.Selection.{resolve_subject, join_key}
use agentic_development_fram.Kernel.Actions.{pending_decision_request, role_rank, batch_action}
use agentic_development_fram.Kernel.Steps.{phase_step, before_build_state}
use agentic_development_fram.Kernel.Evaluate.{evaluate_with_health}
use agentic_development_fram.Kernel.Settled.{IsSettledPhase}
use agentic_development_fram.Kernel.Prepared.{IsCleared, verdict}
use agentic_development_fram.Kernel.Ready.{ready_to_merge, ready_to_build}
use agentic_development_fram.Kernel.Merging.{
  IsWork, evidence, IsMergeWork, before_merge_step-IsMergeWork,
}
use agentic_development_fram.Kernel.Valid.{IsPhased, before_build-IsOrderly, evaluate-valid}
use agentic_development_fram.Kernel.Requests.{
  IsPending, IsStopped, pending_decision_request-open, evaluate-pending,
}
use agentic_development_fram.Kernel.Reviews.{IsInForce, current_candidate_review-confirms}
use agentic_development_fram.Kernel.Merged.{IsSelected}
use agentic_development_fram.Kernel.Selected.{instantiate-IsSelected}
use agentic_development_fram.Kernel.Activated.{instantiate_complete}
use agentic_development_fram.Kernel.Progress.{phase_step-progress}
use agentic_development_fram.Kernel.Collected.{collect-AllSound}
use agentic_development_fram.Kernel.Batch.{batch_action-batch}
use agentic_development_fram.Kernel.Issued.{idle_states, evaluate-issued}
use agentic_development_fram.Tests.Data.{
  test_crates, test_schemas, test_signals, test_index, test_source, always_rule,
}
use agentic_development_fram.Tests.Snapshots.{
  no_detection, started, analysed, built, tested, asking, reviewed, write_candidate,
  unsatisfied_analysis, unsatisfied_tests,
}
use agentic_development_fram.Tests.Compiler.{compiled_index}
use agentic_development_fram.Tests.Runs.{
  run_kernel, analysed_run, built_run, tested_run, collected_run, instantiated_run, active_run,
  asking-IsReviewed, asking_pending,
}
use agentic_development_fram.Base.{◌⊎◌}
use agentic_development_fram.Json.Value.{string_field}
use agentic_development_fram.Kernel.Candidates.{Review, reviews}
use agentic_development_fram.Kernel.Collect.{unreviewed_candidates}
use agentic_development_fram.Kernel.Reviewed.{HoldsNow, unreviewed_candidates-HoldsNow}
use agentic_development_fram.Tests.Snapshots.{one_candidate}
use agentic_development_fram.Kernel.Keys.{IsMerged, instantiate-IsMerged}

abbrev verdict_on : ProjectSnapshot → KernelDecision
verdict_on snapshot = verdict test_crates test_signals snapshot test_index no_detection none

-- No instance of the project before the build depends on another.
phased : IsPhased (unsatisfied_analysis ∷ unsatisfied_tests ∷ [])
phased i j m n p d = elim (Memᴰ.cases_cons m) [
  | inl e ↦ elim (subst (λ (i : RequirementInstance). Memᴰ j.requirement_id i.depends_on) e d) [ ]
  | inr t ↦ elim (Memᴰ.cases_cons t) [
    | inl e ↦
        let q : "before-merge" ≡ "before-build" = cc (rw e at p) in
        absurd (ne_of_== "before-merge" "before-build" refl q)
    | inr u ↦ elim u [ ]
  ]
]

ready_to_merge_example :
    IsCleared tested no_detection (verdict_on tested)
    × (repository_phase tested ≡ "post-build")
    × IsSettledPhase tested "before-merge" (verdict_on tested).requirement_instances
    × ((verdict_on tested).action ≡ none)
unfolding run_kernel
ready_to_merge_example =
    ready_to_merge test_crates test_signals tested test_index no_detection none tested_run

ready_to_build_example :
    IsCleared analysed no_detection (verdict_on analysed)
    × (repository_phase analysed ≢ "post-build")
    × ((a : NextAction) × ((verdict_on analysed).action ≡ some a)
        × (a.role ≡ "Builder")
        × (a.action ≡ "implement-change"))
unfolding run_kernel
ready_to_build_example =
    ready_to_build test_crates test_signals analysed test_index no_detection none analysed_run

-- What the compiled index promises.
compiled : IsCompiled test_schemas test_index
compiled =
    compile_rule_index-IsCompiled test_crates test_source test_schemas test_signals compiled_index

compile_rule_index_example : IsCompiled test_schemas test_index
compile_rule_index_example =
    compile_rule_index-IsCompiled test_crates test_source test_schemas test_signals compiled_index

evaluate-valid_example :
    (evaluate_with_health test_crates test_signals started test_index no_detection none).state
    ≢ "invalid"
evaluate-valid_example =
    evaluate-valid test_schemas test_index compiled test_crates test_signals started no_detection
      none collected_run phased

before_merge_step-IsMergeWork_example :
    IsMergeWork test_crates test_signals built test_index no_detection none "Builder"
unfolding run_kernel
before_merge_step-IsMergeWork_example =
    before_merge_step-IsMergeWork test_crates test_signals built test_index no_detection none
      evidence built_run

assert_acyclic_iff_example :
    (assert_acyclic test_index.requirements ≡ ok tt)
    ↔ ((a : String) → ¬ Leads test_index.requirements a a)
assert_acyclic_iff_example = assert_acyclic_iff test_index.requirements compiled.closed

evaluate-pending_example :
    IsStopped test_crates asking "request.one"
      (evaluate_with_health test_crates test_signals asking test_index no_detection none)
unfolding run_kernel
evaluate-pending_example =
    evaluate-pending test_crates test_signals asking test_index no_detection none "request.one"
      asking-IsReviewed asking_pending

pending_decision_request_example : IsPending asking (pending_decision_request asking)
pending_decision_request_example = pending_decision_request-open asking

current_candidate_review_example :
    IsInForce reviewed write_candidate (current_candidate_review reviewed write_candidate)
current_candidate_review_example = current_candidate_review-confirms reviewed write_candidate

instantiate-IsSelected_example : IsSelected started test_index (none ∷ []) unsatisfied_analysis
instantiate-IsSelected_example =
    instantiate-IsSelected started test_index [] instantiated_run unsatisfied_analysis
      (Memᴰ.head refl)

instantiate_complete_example :
    (definition : RequirementDefinition) × (subjects : List String) × (Map.get "tests-recorded"
        test_index.requirements
      ≡ some definition)
    × (try_map (resolve_subject started none) ("change.id" ∷ []) ≡ ok subjects)
    × ((i : RequirementInstance) × Memᴰ i (unsatisfied_analysis ∷ unsatisfied_tests ∷ [])
        × (i.definition_digest ≡ definition.definition_digest)
        × (i.instance_key ≡ join_key definition.id (sort subjects)))
instantiate_complete_example =
    instantiate_complete started test_index [] instantiated_run none
      (always_rule "rule.tests" "tests-recorded") (Memᴰ.head refl) (Memᴰ.tail (Memᴰ.head refl))
      active_run

phase_step_example :
    (d : KernelDecision) × (phase_step test_crates started
        (unsatisfied_analysis ∷ unsatisfied_tests ∷ [])
        "before-build"
        (before_build_state started)
        "stuck"
      ≡ some d)
    × ((role : String) × (d.state ≡ before_build_state started role) × IsWork "before-build" role d)
phase_step_example =
    phase_step-progress test_index.requirements "before-build"
      (unsatisfied_analysis ∷ unsatisfied_tests ∷ [])
      (before_build-IsOrderly test_index compiled.acyclic
        (unsatisfied_analysis ∷ unsatisfied_tests ∷ [])
        (collect-AllSound test_schemas test_index compiled test_crates test_signals started
          no_detection none collected_run)
        phased)
      test_crates started (before_build_state started) "stuck" refl

batch_action_example :
    ((i : RequirementInstance)
      → Memᴰ i
          (batch_action test_crates started unsatisfied_tests
            (unsatisfied_analysis ∷ [])).requirement_instances
        ↔ (Memᴰ i (unsatisfied_tests ∷ unsatisfied_analysis ∷ [])
            × (i.role
                ≡ (batch_action test_crates started unsatisfied_tests
                    (unsatisfied_analysis ∷ [])).role)
            × (i.result_schema
                ≡ (batch_action test_crates started unsatisfied_tests
                    (unsatisfied_analysis ∷ [])).expected_result_schema)))
    × ((first : RequirementInstance) × Memᴰ first
          (batch_action test_crates started unsatisfied_tests
            (unsatisfied_analysis ∷ [])).requirement_instances)
    × ((i : RequirementInstance)
        → Memᴰ i (unsatisfied_tests ∷ unsatisfied_analysis ∷ [])
        → role_rank
            (batch_action test_crates started unsatisfied_tests (unsatisfied_analysis ∷ [])).role
          ≤ role_rank i.role)
batch_action_example =
    batch_action-batch test_crates started unsatisfied_tests (unsatisfied_analysis ∷ [])

evaluate-issued_example :
    is_some
      (evaluate_with_health test_crates test_signals started test_index no_detection none).action
    ≡ not (
        member
          (evaluate_with_health test_crates test_signals started test_index no_detection none).state
          idle_states)
evaluate-issued_example =
    evaluate-issued test_crates test_signals started test_index no_detection none

key_order_example :
    (canonical_json test_crates (json_object (("b", string "1") ∷ ("a", string "2") ∷ []))
      ≡ canonical_json test_crates (json_object (("a", string "2") ∷ ("b", string "1") ∷ [])))
    × (canonical_digest test_crates (json_object (("b", string "1") ∷ ("a", string "2") ∷ []))
        ≡ canonical_digest test_crates (json_object (("a", string "2") ∷ ("b", string "1") ∷ [])))
key_order_example =
    canonical_json-key_order test_crates (Agrees.objects (FieldsAgree.swap (ne_of_== "b" "a" refl)))

canonical_digest_example : HasDigest test_crates test_source (has_float test_source)
canonical_digest_example = canonical_digest-total test_crates test_source

unreviewed_candidates-HoldsNow_example :
    Memᴰ write_candidate (unreviewed_candidates reviewed one_candidate)
    ⊎ ((r : Review) × Memᴰ r (reviews reviewed)
        × (string_field r.1 "fingerprint" ≡ some "sha256:candidate")
        × HoldsNow reviewed write_candidate r)
unreviewed_candidates-HoldsNow_example =
    unreviewed_candidates-HoldsNow reviewed one_candidate write_candidate (Memᴰ.head refl)

instantiate-IsMerged_example :
    IsMerged started test_index none
      (always_rule "rule.tests" "tests-recorded")
      (unsatisfied_analysis ∷ unsatisfied_tests ∷ [])
instantiate-IsMerged_example =
    instantiate-IsMerged started test_index [] instantiated_run none
      (always_rule "rule.tests" "tests-recorded") (Memᴰ.head refl) (Memᴰ.tail (Memᴰ.head refl))
      active_run
