-- ===== src/Contracts/Health/Freshness.antt =====
-- Which recorded digests are still current: `stale_refs_for_outcome`, `verification_freshness_refs`
-- and `current_artifact_digests` of src/contract_health.rs.
use agentic_development_fram.Base.{
  String, Bool, not, ◌&&◌, Option, none, some, List, [], ◌∷◌, ◌++◌, ◌==◌, ◌<>◌, filter, flat_map,
  is_some, is_some_and, or_else, and_then, unwrap_or, text_option_eq, Result, ok, err, ok_or,
  map_err, ◌>>=◌, if◌then◌else◌,
}
use agentic_development_fram.Base.Map
use agentic_development_fram.Base.Map.{Map}
use agentic_development_fram.Base.Map.Ascending.{keys_of}
use agentic_development_fram.Base.Sets.{set_of}
use agentic_development_fram.Contracts.Scope.{member, clause_ref}
use agentic_development_fram.Json.Value.{
  Value, array, as_str, as_array, as_object, get, index, item_list,
}
use agentic_development_fram.Json.Canonical.{Crates, canonical_digest}
use agentic_development_fram.Schema.Keywords.{Failure}

-- `ContractHealthError`: its message, or a Record that its schema refuses.
pub data HealthError : Type 0 where
  message : String → HealthError
  invalid_record : String → Failure → HealthError

-- `value[field].as_array()` with no items where there is no array.
abbrev pub array_or_empty : Value → List Value
array_or_empty value = unwrap_or (as_array value) []

unfoldable pub required_string : Value → String → String → Result HealthError String
required_string value field label =
    ok_or (as_str (index value field)) (message (label <> " " <> field <> " must be a string"))

unfoldable pub record_array : Option Value → String → Result HealthError (List Value)
record_array none collection = ok []
record_array (some (array vs)) collection = ok (item_list vs)
record_array (some _) collection = err (message (collection <> " must be an array"))

unfoldable pub digest_value : Crates → Value → Result HealthError String
digest_value crates value =
    map_err (λ e. message "floating-point numbers are not supported")
      (canonical_digest crates value)

-- The freshness manifest of an outcome: its own, or its result's, or the result's inputs.
unfoldable pub freshness_manifest : Value → Value → Option Value
freshness_manifest outcome result =
    or_else (or_else (get outcome "freshness_refs") (get result "freshness_refs"))
      (get result "input_refs")

abbrev pub is_verification_result : Value → Bool
is_verification_result result =
    is_some_and (as_str (index result "result_schema")) (λ s. s == "result.evidence")
    && is_some_and (as_str (index result "role")) (λ s. s == "Builder")

unfoldable pub verification_freshness_refs : List Value → List String
verification_freshness_refs results =
    flat_map
      (λ result.
        flat_map
          (λ outcome.
            keys_of (unwrap_or (and_then (freshness_manifest outcome result) as_object) []))
          (array_or_empty (index (index result "payload") "outcomes")))
      (filter is_verification_result results)

-- A reference that is recorded with another digest than the current one.
abbrev pub is_stale : Map String → String × Value → Bool
is_stale current_digests (reference, digest) =
    not (text_option_eq (Map.get reference current_digests) (as_str digest))

unfoldable pub stale_refs_for_outcome : Value → Value → Map String → List String → List String
stale_refs_for_outcome outcome result current_digests required_refs =
    elim (and_then (freshness_manifest outcome result) as_object) [
      | none ↦ "missing-freshness-manifest" ∷ []
      | some references ↦ set_of (
          keys_of (filter (is_stale current_digests) references)
          ++ filter (λ reference. not (is_some (Map.get reference references))) required_refs)
    ]

module _ (crates : Crates) (required_refs : List String) where
  unfoldable pub clause_digests : String → List Value → Map String → Result HealthError (Map String)
  clause_digests id [] digests = ok digests
  clause_digests id (clause ∷ clauses) digests =
      required_string clause "id" "Contract clause" >>= λ clause_id.
      let reference = clause_ref id clause_id in
      (if member reference required_refs
        then (digest_value crates clause >>= λ digest. ok (Map.insert reference digest digests))
        else ok digests)
      >>= λ added. clause_digests id clauses added

  unfoldable pub record_digest :
      Map String → String → Value → Map String → Result HealthError (Map String)
  record_digest record_digests id value digests =
      if member id required_refs
      then ((elim (Map.get id record_digests) as (λ _. Result HealthError String) [
        | some digest ↦ ok digest
        | none ↦ digest_value crates value
      ])
          >>= λ digest. ok (Map.insert id digest digests))
      else ok digests

  -- One collection. The clauses of a Contract have digests too.
  unfoldable pub collection_digests :
      Map String → String → List Value → Map String → Result HealthError (Map String)
  collection_digests record_digests collection [] digests = ok digests
  collection_digests record_digests collection (value ∷ values) digests =
      required_string value "id" "Project record" >>= λ id.
      record_digest record_digests id value digests >>= λ added.
      (if collection == "contracts"
        then clause_digests id (array_or_empty (index value "clauses")) added
        else ok added)
      >>= λ more. collection_digests record_digests collection values more

  unfoldable pub collections_digests :
      Map String → Map Value → List String → Map String → Result HealthError (Map String)
  collections_digests record_digests project [] digests = ok digests
  collections_digests record_digests project (collection ∷ collections) digests =
      record_array (Map.get collection project) collection >>= λ values.
      collection_digests record_digests collection values digests >>= λ added.
      collections_digests record_digests project collections added

  -- The digest of the artifact's own is computed even where it has one.
  unfoldable pub artifact_digests : List Value → Map String → Result HealthError (Map String)
  artifact_digests [] digests = ok digests
  artifact_digests (artifact ∷ artifacts) digests =
      required_string artifact "ref" "Repository artifact" >>= λ reference.
      (if member reference required_refs
        then (digest_value crates artifact >>= λ computed. ok (
            Map.insert reference
              (elim (as_str (index artifact "digest")) [
                | none ↦ computed
                | some digest ↦ if digest == "" then computed else digest
              ])
              digests))
        else ok digests)
      >>= λ added. artifact_digests artifacts added

abbrev pub project_collections : List String
project_collections = "changes" ∷ "contracts" ∷ "decisions" ∷ "results" ∷ "evidence" ∷ []

unfoldable pub current_artifact_digests :
    Crates → Map Value → List String → Map String → Result HealthError (Map String)
current_artifact_digests crates project required_refs record_digests =
    collections_digests crates required_refs record_digests project project_collections []
    >>= λ digests.
        artifact_digests crates required_refs
          (elim (Map.get "repository" project) [
            | none ↦ []
            | some repository ↦ array_or_empty (index repository "artifacts")
          ])
          digests
