-- ===== src/Tests/Snapshots.antt =====
-- The snapshots of one Change of the project (the inputs of src/kernel.rs).
use agentic_development_fram.Base.{String, List, [], ◌∷◌, ◌<>◌}
use agentic_development_fram.Base.Map.{Map}
use agentic_development_fram.Json.Value.{Value, string}
use agentic_development_fram.Detection.Types.{SignalCandidate, DetectionReport}
use agentic_development_fram.Rules.Types.{RequirementDefinition}
use agentic_development_fram.Kernel.Types.{ProjectSnapshot, RequirementInstance}
use agentic_development_fram.Kernel.Candidates.{json_object}
use agentic_development_fram.Tests.Data.{list_of, analysis_definition, tests_definition}

abbrev pub no_detection : DetectionReport
no_detection = record {
  change_id = "change.one";
  coverage = record { status = "complete"; scope = "change"; analyzed_refs = []; gaps = [] };
  candidates = [];
  digest = "sha256:detection";
}

abbrev pub outcome_of : String → String → Value
outcome_of key digest = json_object (
    ("instance_key", string key)
    ∷ ("definition_digest", string digest)
    ∷ ("status", string "satisfied")
    ∷ [])

abbrev pub result_of : String → String → String → Map Value → Value
result_of id result_schema role payload = json_object (
    ("id", string id)
    ∷ ("result_schema", string result_schema)
    ∷ ("role", string role)
    ∷ ("input_refs", json_object (("file.main", string "sha256:main") ∷ []))
    ∷ ("payload", json_object payload)
    ∷ [])

abbrev pub snapshot_of : String → List Value → ProjectSnapshot
snapshot_of phase results = record {
  change_id = "change.one";
  change = json_object [];
  contracts = [];
  decisions = [];
  results = results;
  evidence = [];
  repository = json_object (("phase", string phase) ∷ []);
  artifact_digests = ("file.main", "sha256:main") ∷ [];
  digest = "sha256:snapshot";
}

abbrev pub analysis_result : Value
analysis_result =
    result_of "result.one" "result.analysis" "Analyst"
      (("outcomes", list_of (outcome_of "impact-analysed|change.one" "sha256:127" ∷ [])) ∷ [])

abbrev pub tests_result : Value
tests_result =
    result_of "result.two" "result.evidence" "Builder"
      (("outcomes", list_of (outcome_of "tests-recorded|change.one" "sha256:143" ∷ [])) ∷ [])

-- A result that asks for a decision.
abbrev pub asking_result : Value
asking_result =
    result_of "result.three" "result.analysis" "Analyst"
      (("decision_requests", list_of (json_object (("id", string "request.one") ∷ []) ∷ [])) ∷ [])

-- The Change as it goes on, and stopped by a request for a decision.
abbrev pub started : ProjectSnapshot
started = snapshot_of "pre-build" []

abbrev pub analysed : ProjectSnapshot
analysed = snapshot_of "pre-build" (analysis_result ∷ [])

abbrev pub built : ProjectSnapshot
built = snapshot_of "post-build" (analysis_result ∷ [])

abbrev pub tested : ProjectSnapshot
tested = snapshot_of "post-build" (analysis_result ∷ tests_result ∷ [])

abbrev pub asking : ProjectSnapshot
asking = snapshot_of "pre-build" (asking_result ∷ [])

abbrev pub instance_of : RequirementDefinition → String → RequirementInstance
instance_of definition rule_id = record {
  requirement_id = definition.id;
  subject_refs = "change.one" ∷ [];
  instance_key = definition.id <> "|change.one";
  selected_by = rule_id ∷ [];
  definition_digest = definition.definition_digest;
  phase = definition.phase;
  role = definition.role;
  result_schema = definition.result_schema;
  depends_on = definition.depends_on;
  context = [];
  assurance = definition.assurance;
  status = "unsatisfied";
}

abbrev pub unsatisfied_analysis : RequirementInstance
unsatisfied_analysis = instance_of analysis_definition "rule.analysis"

abbrev pub unsatisfied_tests : RequirementInstance
unsatisfied_tests = instance_of tests_definition "rule.tests"

-- A candidate with two reviews, which disagree.
abbrev pub write_candidate : SignalCandidate
write_candidate = record {
  signal = "data.write";
  bindings = ("table", "users") ∷ [];
  evidence_refs = "file.main" ∷ [];
  detector_id = "detector.data";
  detector_version = "1";
  fingerprint = "sha256:candidate";
  evidence_digest = "sha256:evidence";
}

abbrev review_of : String → String → Value
review_of id status = result_of id "result.risk-signal-review" "Analyst" (
    (
      "reviewed_candidates",
      list_of (
          json_object (("fingerprint", string "sha256:candidate") ∷ ("status", string status) ∷ [])
          ∷ []),
    )
    ∷ [])

abbrev pub reviewed : ProjectSnapshot
reviewed =
    snapshot_of "pre-build"
      (review_of "result.a" "confirmed" ∷ review_of "result.b" "not-applicable" ∷ [])

abbrev pub one_candidate : DetectionReport
one_candidate = record no_detection { candidates = write_candidate ∷ [] }

abbrev pub denied : ProjectSnapshot
denied = snapshot_of "pre-build" (review_of "result.b" "not-applicable" ∷ [])
