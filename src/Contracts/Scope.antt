-- ===== src/Contracts/Scope.antt =====
-- Contract and clause scope: src/contract_scope.rs. A set of texts is a list, of which only the
-- membership is read.
use agentic_development_fram.Base.{
  String, Bool, false, ◌||◌, Option, none, some, List, [], any, filter_map, is_empty, ◌==◌, ◌<>◌,
  or_else, unwrap_or, is_some, if◌then◌else◌,
}
use agentic_development_fram.Json.Value.{Value, as_array, as_str, get, index}

pub data ClauseEvidenceMode : Type 0 where
  legacy_direct direct inherited review : ClauseEvidenceMode

-- `BTreeSet::contains`
abbrev pub member : String → List String → Bool
member s ts = any (λ t. t == s) ts

-- `ClauseEvidenceMode::as_str`
unfoldable pub as_text : ClauseEvidenceMode → String
as_text legacy_direct = "direct"
as_text direct = "direct"
as_text inherited = "inherited"
as_text review = "review"

unfoldable pub effective_clause_applies_to : Value → Value → List String
effective_clause_applies_to contract clause =
    unwrap_or
      (elim (or_else (as_array (index clause "applies_to"))
        (as_array (index contract "applies_to"))) [
          | none ↦ none
          | some targets ↦ some (filter_map as_str targets)
        ])
      []

-- The match on the text of `evidence_mode`.
unfoldable pub evidence_mode_of : Option String → ClauseEvidenceMode
evidence_mode_of none = legacy_direct
evidence_mode_of (some mode) =
    if mode == "direct"
    then direct
    else if mode == "inherited"
    then inherited
    else if mode == "review"
    then review
    else legacy_direct

unfoldable pub effective_clause_evidence_mode : Value → Value → ClauseEvidenceMode
effective_clause_evidence_mode contract clause =
    evidence_mode_of
      (or_else (as_str (index clause "evidence_mode")) (as_str (index contract "evidence_mode")))

unfoldable pub clause_matches_subjects : Value → Value → List String → Bool
clause_matches_subjects contract clause subjects =
    any (λ target. member target subjects) (effective_clause_applies_to contract clause)

-- `format!("{contract_id}#{clause_id}")`
abbrev pub clause_ref : String → String → String
clause_ref contract_id clause_id = contract_id <> "#" <> clause_id

-- `contract["id"].as_str().zip(clause["id"].as_str()).is_some_and(…)`
unfoldable pub names_clause : Value → Value → List String → Bool
names_clause contract clause subjects = elim (as_str (index contract "id")) [
  | none ↦ false
  | some contract_id ↦ elim (as_str (index clause "id")) [
    | none ↦ false
    | some clause_id ↦ member (clause_ref contract_id clause_id) subjects
  ]
]

-- A Contract with no clause, or with no array of them, is matched by its own scope.
unfoldable pub matches_whole : Value → List String → Bool
matches_whole contract subjects = elim (as_array (index contract "applies_to")) [
  | none ↦ false
  | some targets ↦ any (λ target. member target subjects) (filter_map as_str targets)
]

unfoldable pub contract_matches_subjects : Value → List String → Bool
contract_matches_subjects contract subjects = elim (as_array (index contract "clauses")) [
  | none ↦ matches_whole contract subjects
  | some clauses ↦
      if is_empty clauses
      then matches_whole contract subjects
      else any
          (λ clause.
            clause_matches_subjects contract clause subjects
            || names_clause contract clause subjects)
          clauses
]

unfoldable pub contract_uses_clause_scopes : Value → Bool
contract_uses_clause_scopes contract = elim (as_array (index contract "clauses")) [
  | none ↦ false
  | some clauses ↦ any (λ clause. is_some (get clause "applies_to")) clauses
]
