-- ===== src/Kernel/Freshness.antt =====
-- Which results are current: the freshness tests of src/kernel.rs, and the impact assessment.
use agentic_development_fram.Base.{
  String, Bool, false, not, ◌&&◌, ◌||◌, Option, none, some, List, [], ◌∷◌, all, filter, find,
  filter_map, take, ◌==◌, or_else, unwrap_or, is_some, is_some_and, if◌then◌else◌,
}
use mathlib.Core.List.{reverse}
use agentic_development_fram.Base.Map
use agentic_development_fram.Json.Value.{
  Value, object, end, as_object, as_str, get, index, field_is, string_field, nested_string,
}
use agentic_development_fram.Kernel.Types.{ProjectSnapshot}

-- `Some(a) == b`
abbrev pub holds_text : Option String → String → Bool
holds_text o s = is_some_and o (λ t. t == s)

unfoldable pub repository_phase : ProjectSnapshot → String
repository_phase snapshot = unwrap_or (as_str (index snapshot.repository "phase")) "pre-build"

-- One entry of `refs_are_fresh`: the recorded digest is the artifact's current one.
unfoldable pub ref_is_fresh : ProjectSnapshot → String × Value → Bool
ref_is_fresh snapshot (reference, digest) =
    is_some_and (as_str digest)
      (λ recorded. holds_text (Map.get reference snapshot.artifact_digests) recorded)

unfoldable pub refs_are_fresh : Value → ProjectSnapshot → Bool
refs_are_fresh refs snapshot = elim (as_object refs) [
  | none ↦ false
  | some entries ↦ all (ref_is_fresh snapshot) entries
]

abbrev pub empty_object : Value
empty_object = object end

unfoldable pub outcome_is_fresh : Value → Value → ProjectSnapshot → Bool
outcome_is_fresh result outcome snapshot =
    refs_are_fresh
      (unwrap_or
        (or_else (or_else (get outcome "freshness_refs") (get result "freshness_refs"))
          (get result "input_refs"))
        empty_object)
      snapshot

unfoldable pub result_is_fresh : Value → ProjectSnapshot → Bool
result_is_fresh result snapshot =
    refs_are_fresh
      (unwrap_or (or_else (get result "freshness_refs") (get result "input_refs")) empty_object)
      snapshot

-- `string_field(result, "result_schema") == Some(schema) && string_field(result, "role") == Some(role)`
unfoldable pub is_result_of : Value → String → String → Bool
is_result_of result schema role =
    field_is result "result_schema" schema && field_is result "role" role

unfoldable pub concludes_impact : ProjectSnapshot → Value → Bool
concludes_impact snapshot result =
    is_result_of result "result.impact-assessment" "Analyst"
    && is_some_and (nested_string result ("payload" ∷ "status" ∷ []))
        (λ status. status == "impacts-identified" || status == "no-impact")
    && result_is_fresh result snapshot

unfoldable pub fresh_impact_assessment : ProjectSnapshot → Option Value
fresh_impact_assessment snapshot = find (concludes_impact snapshot) snapshot.results

unfoldable pub impact_assessment_pending : ProjectSnapshot → Bool
impact_assessment_pending snapshot =
    holds_text (as_str (index snapshot.change "impact_assessment")) "required"
    && not (is_some (fresh_impact_assessment snapshot))

unfoldable pub current_impact_assessments : ProjectSnapshot → List String
current_impact_assessments snapshot = take 3 (
    reverse (
      filter_map (λ result. string_field result "id")
        (filter (λ result. is_result_of result "result.impact-assessment" "Analyst")
          snapshot.results)))

unfoldable pub fresh_build_results : ProjectSnapshot → List Value
fresh_build_results snapshot =
    if repository_phase snapshot == "post-build"
    then filter
        (λ result. is_result_of result "result.build" "Builder" && result_is_fresh result snapshot)
        snapshot.results
    else []
