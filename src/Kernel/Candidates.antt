-- ===== src/Kernel/Candidates.antt =====
-- Signal candidates: which review of a candidate is in force, and what it says
-- (`candidate_dispositions` to `signal_applicability_review_outcome` of src/kernel.rs).
use Prim.Native.Nat.{Ordering}
use Prim.Native.String.{compare}
use mathlib.Core.List.{foldl}
use agentic_development_fram.Base.{
  text_option_eq, String, Bool, true, false, not, ◌&&◌, ◌||◌, Option, none, some, List, [], ◌∷◌,
  map, all, filter, find, find_map, flat_map, ◌<>◌, and_then, unwrap_or, is_some, is_some_and,
  if◌then◌else◌,
}
use agentic_development_fram.Base.Map
use agentic_development_fram.Base.Map.{Map}
use agentic_development_fram.Json.Value.{
  Value, object, array, string, as_str, get, index, field_is, string_field, nested_array,
  string_map, items, fields,
}
use agentic_development_fram.Json.Canonical.{Crates, expect_digest}
use agentic_development_fram.Rules.Types.{attestation}
use agentic_development_fram.Detection.Types.{SignalCandidate, DetectionReport}
use agentic_development_fram.Kernel.Types.{
  ProjectSnapshot, CandidateDisposition, RequirementInstance,
}
use agentic_development_fram.Kernel.Freshness.{holds_text, is_result_of, outcome_is_fresh}

-- `json!` of an object, of an array of texts and of a map of texts
abbrev pub json_object : Map Value → Value
json_object entries = object (fields entries)

abbrev pub json_texts : List String → Value
json_texts texts = array (items (map string texts))

abbrev text_entry : String × String → String × Value
text_entry (k, s) = (k, string s)

abbrev pub json_map : Map String → Value
json_map entries = json_object (map text_entry entries)

-- The pair `(result, review)` that the program carries.
abbrev pub Review : Type 0
Review = Value × Value

unfoldable pub reviews : ProjectSnapshot → List Review
reviews snapshot =
    flat_map
      (λ result.
        map (λ review. (result, review))
          (nested_array result ("payload" ∷ "reviewed_candidates" ∷ [])))
      (filter (λ result. is_result_of result "result.risk-signal-review" "Analyst")
        snapshot.results)

-- The digest that the review saw for `reference` is the artifact's current one.
unfoldable pub saw_current : ProjectSnapshot → Value → String → Bool
saw_current snapshot result reference =
    is_some_and (Map.get reference snapshot.artifact_digests)
      (λ digest. holds_text (as_str (index (index result "input_refs") reference)) digest)

-- A review is usable if it confirms the candidate, or denies it on the current evidence.
unfoldable pub is_usable : ProjectSnapshot → SignalCandidate → Review → Bool
is_usable snapshot candidate (result, review) =
    field_is review "fingerprint" candidate.fingerprint
    && (field_is review "status" "confirmed"
        || (field_is review "status" "not-applicable"
            && all (saw_current snapshot result) candidate.evidence_refs))

-- The order of `max_by_key`: a confirmation is above all else, then the results' ids count.
abbrev bool_compare : Bool → Bool → Ordering
bool_compare false true = Ordering.lt
bool_compare true false = Ordering.gt
bool_compare _ _ = Ordering.eq

abbrev option_compare : Option String → Option String → Ordering
option_compare none none = Ordering.eq
option_compare none (some t) = Ordering.lt
option_compare (some s) none = Ordering.gt
option_compare (some s) (some t) = compare s t

unfoldable pub review_compare : Review → Review → Ordering
review_compare (r, v) (s, w) =
    elim (bool_compare (field_is v "status" "confirmed") (field_is w "status" "confirmed")) [
      | Ordering.eq ↦ option_compare (string_field r "id") (string_field s "id")
      | other ↦ other
    ]

-- `max_by_key` keeps the last of the greatest.
unfoldable pub later_max : Option Review → Review → Option Review
later_max none next = some next
later_max (some best) next = elim (review_compare best next) [
  | Ordering.gt ↦ some best
  | _ ↦ some next
]

unfoldable pub max_review : List Review → Option Review
max_review = foldl later_max none

unfoldable pub current_candidate_review : ProjectSnapshot → SignalCandidate → Option Review
current_candidate_review snapshot candidate =
    max_review (filter (is_usable snapshot candidate) (reviews snapshot))

-- The status is a text: `is_usable` has tested it, so the source's `unwrap` does not panic.
unfoldable pub disposition_of : Review → CandidateDisposition
disposition_of (result, review) = record {
  status = unwrap_or (as_str (index review "status")) "";
  input_refs = string_map (get result "input_refs");
}

-- The body of the loop: a candidate without a usable review is passed over.
unfoldable pub add_disposition :
    ProjectSnapshot → Map CandidateDisposition → SignalCandidate → Map CandidateDisposition
add_disposition snapshot dispositions candidate =
    elim (current_candidate_review snapshot candidate) [
      | none ↦ dispositions
      | some review ↦ Map.insert candidate.fingerprint (disposition_of review) dispositions
    ]

unfoldable pub candidate_dispositions : ProjectSnapshot → DetectionReport → Map CandidateDisposition
candidate_dispositions snapshot detection = foldl (add_disposition snapshot) [] detection.candidates

unfoldable pub disposition_evidence_is_current :
    SignalCandidate → CandidateDisposition → ProjectSnapshot → Bool
disposition_evidence_is_current candidate disposition snapshot =
    all
      (λ reference.
        text_option_eq (Map.get reference snapshot.artifact_digests)
          (Map.get reference disposition.input_refs)
        && is_some (Map.get reference disposition.input_refs))
      candidate.evidence_refs

abbrev pub signal_applicability_review_requirement : String
signal_applicability_review_requirement = "risk-signal-applicability-reviewed"

unfoldable pub signal_applicability_review_instance : Crates → SignalCandidate → RequirementInstance
signal_applicability_review_instance crates candidate =
    let definition = json_object (
      ("id", string signal_applicability_review_requirement)
      ∷ ("phase", string "before-build")
      ∷ ("role", string "Challenger")
      ∷ ("result_schema", string "result.challenge")
      ∷ ("depends_on", json_texts [])
      ∷ ("context", json_texts ("change" ∷ "repository-artifacts" ∷ "results" ∷ []))
      ∷ []) in
    record {
      requirement_id = signal_applicability_review_requirement;
      subject_refs = candidate.fingerprint ∷ [];
      instance_key =
          signal_applicability_review_requirement <> "|" <> candidate.fingerprint <> "|"
          <> candidate.evidence_digest;
      selected_by = "kernel.signal-applicability-review-v1" ∷ [];
      definition_digest = expect_digest crates definition;
      phase = "before-build";
      role = "Challenger";
      result_schema = "result.challenge";
      depends_on = [];
      context = "change" ∷ "repository-artifacts" ∷ "results" ∷ [];
      assurance = attestation;
      status = "unsatisfied";
    }

-- The outcome is for this instance under this definition, and is current.
unfoldable pub reviews_instance : RequirementInstance → ProjectSnapshot → Value → Value → Bool
reviews_instance instance snapshot result outcome =
    field_is outcome "instance_key" instance.instance_key
    && field_is outcome "definition_digest" instance.definition_digest
    && outcome_is_fresh result outcome snapshot

unfoldable pub signal_applicability_review_outcome :
    RequirementInstance → ProjectSnapshot → Option String
signal_applicability_review_outcome instance snapshot =
    find_map
      (λ result.
        if not (is_result_of result "result.challenge" "Challenger")
        then none
        else and_then
            (find (reviews_instance instance snapshot result)
              (nested_array result ("payload" ∷ "outcomes" ∷ [])))
            (λ outcome. string_field outcome "status"))
      snapshot.results
