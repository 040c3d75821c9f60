-- ===== src/Contracts/Health/Clause.antt =====
-- The health of one clause: `clause_health`, `evidence_covers_clause` and
-- `evidence_verifies_outcome` of src/contract_health.rs.
use mathlib.Core.List.{foldl}
use agentic_development_fram.Base.{
  String, Bool, true, false, not, ◌&&◌, ◌||◌, none, some, List, [], ◌∷◌, ◌++◌, ◌==◌, any, filter,
  is_empty, is_some_and, and_then, unwrap_or, strip_prefix, is_sha256_hex, if◌then◌else◌,
}
use agentic_development_fram.Base.Map
use agentic_development_fram.Base.Map.{Map}
use agentic_development_fram.Base.Sets.{set_of}
use agentic_development_fram.Contracts.Scope.{
  ClauseEvidenceMode, legacy_direct, direct, inherited, review, as_text, member,
}
use agentic_development_fram.Json.Value.{Value, as_str, as_object, index, is_zero, string_array_set}
use agentic_development_fram.Schema.Keywords.{value_eq}
use agentic_development_fram.Contracts.Health.{ClauseHealth}
use agentic_development_fram.Contracts.Health.Freshness.{array_or_empty, stale_refs_for_outcome}

pub record VerificationOutcome : Type 0 where
  pub result : Value
  pub outcome : Value

-- `value[field].as_str() == Some(text)`
abbrev pub text_is : Value → String → String → Bool
text_is value field text = is_some_and (as_str (index value field)) (λ s. s == text)

unfoldable pub evidence_covers_clause : Value → String → ClauseEvidenceMode → Bool
evidence_covers_clause evidence clause_ref evidence_mode =
    member clause_ref (string_array_set (index evidence "contract_clause_refs"))
    && (elim evidence_mode as (λ _. Bool) [
      | direct ↦
          any (λ claim. text_is claim "contract_clause_ref" clause_ref)
            (array_or_empty (index evidence "claims"))
      | legacy_direct ↦ true
      | inherited ↦ true
      | review ↦ true
    ])

abbrev not_empty : String → Bool
not_empty s = not (s == "")

unfoldable pub evidence_verifies_outcome : Value → Value → Bool
evidence_verifies_outcome evidence outcome =
    let artifact = unwrap_or (as_object (index evidence "artifact")) [] in
    is_some_and (as_str (index evidence "git_revision")) not_empty
    && (is_some_and (as_str (index evidence "method")) not_empty
        && (is_some_and (as_str (index outcome "instance_key")) (λ instance.
              member instance (string_array_set (index evidence "requirement_instances")))
            && (is_some_and (and_then (Map.get "uri" artifact) as_str) not_empty
                && (is_some_and (and_then (Map.get "digest" artifact) as_str)
                      (λ digest. is_some_and (strip_prefix digest "sha256:") is_sha256_hex)
                    && is_some_and (Map.get "exit_code" artifact) is_zero))))

-- The variables of the loop. A set is the list of what was inserted.
pub record Tally : Type 0 where
  pub evidence_refs : List String
  pub verification_result_ids : List String
  pub stale_refs : List String
  pub current_success : Bool
  pub current_failure : Bool
  pub historical_verification : Bool

abbrev pub no_tally : Tally
no_tally = record {
  evidence_refs = [];
  verification_result_ids = [];
  stale_refs = [];
  current_success = false;
  current_failure = false;
  historical_verification = false;
}

-- The patterns of the match on the outcomes of the Evidence and of the result.
abbrev pub is_success : Value → Value → Bool
is_success evidence outcome =
    text_is evidence "outcome" "passed"
    && (text_is outcome "status" "satisfied" && evidence_verifies_outcome evidence outcome)

abbrev pub is_failure : Value → Bool
is_failure evidence =
    text_is evidence "outcome" "failed" || text_is evidence "outcome" "inconclusive"

-- The body of the inner loop.
unfoldable pub add_outcome :
    String → Map String → String → Value → Tally → VerificationOutcome → Tally
add_outcome contract_id current_digests evidence_id evidence tally verification =
    elim (as_str (index verification.result "id")) [
      | none ↦ tally
      | some result_id ↦
          let mismatches =
            stale_refs_for_outcome verification.outcome verification.result current_digests
              (contract_id ∷ evidence_id ∷ []) in
          if is_empty mismatches
          then record tally {
            verification_result_ids = result_id ∷ tally.verification_result_ids;
            current_success = tally.current_success || is_success evidence verification.outcome;
            current_failure = tally.current_failure || is_failure evidence;
          }
          else record tally {
            verification_result_ids = result_id ∷ tally.verification_result_ids;
            historical_verification = true;
            stale_refs = mismatches ++ tally.stale_refs;
          }
    ]

-- The outcomes that cite the Evidence, in results of its Change.
unfoldable pub outcomes_of :
    Map (List VerificationOutcome) → String → Value → List VerificationOutcome
outcomes_of outcomes evidence_id evidence =
    filter
      (λ (v : VerificationOutcome).
        value_eq (index v.result "change_id") (index evidence "change_id"))
      (unwrap_or (Map.get evidence_id outcomes) [])

-- The body of the outer loop.
unfoldable pub add_evidence :
    String
    → String
    → ClauseEvidenceMode
    → Map (List VerificationOutcome)
    → Map String
    → Tally
    → String × Value
    → Tally
add_evidence contract_id clause_ref evidence_mode outcomes current_digests tally
      (evidence_id, evidence) =
    if evidence_covers_clause evidence clause_ref evidence_mode
    then foldl (add_outcome contract_id current_digests evidence_id evidence)
        (record tally { evidence_refs = evidence_id ∷ tally.evidence_refs })
        (outcomes_of outcomes evidence_id evidence)
    else tally

unfoldable pub clause_status : ClauseEvidenceMode → Tally → String
clause_status review tally = "review"
clause_status _ tally =
    if tally.current_success
    then "verified"
    else if tally.current_failure
    then "failed"
    else if tally.historical_verification
    then "stale"
    else "unverified"

unfoldable pub tally_of :
    String
    → String
    → ClauseEvidenceMode
    → List (String × Value)
    → Map (List VerificationOutcome)
    → Map String
    → Tally
tally_of contract_id clause_ref evidence_mode evidence_for_clause outcomes current_digests =
    foldl (add_evidence contract_id clause_ref evidence_mode outcomes current_digests) no_tally
      evidence_for_clause

unfoldable pub clause_health :
    String
    → String
    → String
    → Value
    → List String
    → ClauseEvidenceMode
    → List (String × Value)
    → Map (List VerificationOutcome)
    → Map String
    → ClauseHealth
clause_health contract_id clause_id clause_ref clause applies_to evidence_mode evidence_for_clause
      outcomes current_digests =
    let tally =
      tally_of contract_id clause_ref evidence_mode evidence_for_clause outcomes current_digests in
    let status = clause_status evidence_mode tally in
    record {
      contract_id = contract_id;
      clause_id = clause_id;
      clause_ref = clause_ref;
      text = unwrap_or (as_str (index clause "text")) "";
      applies_to = applies_to;
      authority_ref = as_str (index clause "authority_ref");
      evidence_mode = as_text evidence_mode;
      status = status;
      evidence_refs = set_of tally.evidence_refs;
      verification_result_ids = set_of tally.verification_result_ids;
      stale_refs = if status == "stale" then set_of tally.stale_refs else [];
    }
