-- ===== src/Kernel/ReviewOnly.antt =====
-- Instances with clauses for review only, and the clauses that their subjects select
-- (`matching_contract_clauses` of src/kernel.rs).
use agentic_development_fram.Base.{
  String, true, some, ◌≡◌, refl, ◌↔◌, ◌⊎◌, inl, inr, List, [], ◌∷◌, Memᴰ, unwrap_or, Bool-cases,
  Option-cases,
}
use agentic_development_fram.Json.Value.{Value, string_field, nested_array}
use agentic_development_fram.Contracts.Scope.{
  ClauseEvidenceMode, legacy_direct, direct, inherited, review, clause_ref,
  contract_matches_subjects, effective_clause_evidence_mode,
}
use agentic_development_fram.Rules.Types.{evidence_backed}
use agentic_development_fram.Kernel.Types.{ProjectSnapshot, RequirementInstance}
use agentic_development_fram.Kernel.Evidence.{
  MatchingContractClauses, insert_clause, add_clause, add_contract,
}
use agentic_development_fram.Kernel.Clauses.{fold-has, selects}

-- The subjects select the clause, by its reference or by its scope.
pub record IsChosen (subjects : List String) (contract clause : Value) : Type 0 where
  pub clause_id : String
  pub named : string_field clause "id" ≡ some clause_id
  pub selected :
      selects subjects contract clause
        (clause_ref (unwrap_or (string_field contract "id") "") clause_id)
      ≡ true

-- The subjects match the Contract, and select one of its clauses.
pub record HasChosen (subjects : List String) (contract : Value) : Type 0 where
  pub matches : contract_matches_subjects contract subjects ≡ true
  pub clause : Value
  pub listed : Memᴰ clause (nested_array contract ("clauses" ∷ []))
  pub chosen : IsChosen subjects contract clause

-- The instance is evidence-backed, its subjects select some clause of a Contract of the project, and
-- every clause that they select is for review.
pub record IsReviewOnly (snapshot : ProjectSnapshot) (i : RequirementInstance) : Type 0 where
  pub backed : i.assurance ≡ evidence_backed
  pub contract : Value
  pub listed : Memᴰ contract snapshot.contracts
  pub has_chosen : HasChosen i.subject_refs contract
  pub all_review :
      (c : Value)
      → Memᴰ c snapshot.contracts
      → (h : HasChosen i.subject_refs c) → effective_clause_evidence_mode c h.clause ≡ review

abbrev pub IsMatched : MatchingContractClauses → Type 0
IsMatched clauses = clauses.has_matching_clauses ≡ true

insert_clause-IsMatched :
    (mode : ClauseEvidenceMode) (r : String) (clauses : MatchingContractClauses)
    → IsMatched (insert_clause mode r clauses)
unfolding insert_clause
insert_clause-IsMatched legacy_direct r clauses = refl
insert_clause-IsMatched direct r clauses = refl
insert_clause-IsMatched inherited r clauses = refl
insert_clause-IsMatched review r clauses = refl

module _ (subjects : List String) where
  add_clause-IsMatched :
      (contract : Value) (clauses : MatchingContractClauses) (clause : Value)
      → IsMatched (add_clause subjects contract clauses clause)
        ↔ (IsMatched clauses ⊎ IsChosen subjects contract clause)
  unfolding add_clause
  add_clause-IsMatched contract clauses clause = elim (Option-cases (string_field clause "id")) [
    | inl n ↦
        rw (n, add_clause)
          (λ m. inl m, λ h. elim h [ inl m ↦ m | inr r ↦ let q = r.named in cc (n, q) ])
    | inr (id, n) ↦
        let reference = clause_ref (unwrap_or (string_field contract "id") "") id in
        let mode = effective_clause_evidence_mode contract clause in
        elim (Bool-cases (selects subjects contract clause reference)) [
          | inr f ↦
              rw (n, add_clause)
                (rw f (
                  λ m. inl m,
                  λ h. elim h [
                    | inl m ↦ m
                    | inr r ↦
                        let q = r.named in
                        let e : r.clause_id ≡ id = cc (n, q) in
                        let t = r.selected in cc (rw e at t, f)
                  ],
                ))
          | inl t ↦
              rw (n, add_clause)
                (rw t (
                  λ m. inr (record { clause_id = id; named = n; selected = t }),
                  λ h. insert_clause-IsMatched mode reference clauses,
                ))
        ]
  ]

  pub add_contract-IsMatched :
      (clauses : MatchingContractClauses) (contract : Value)
      → IsMatched (add_contract subjects clauses contract)
        ↔ (IsMatched clauses ⊎ HasChosen subjects contract)
  unfolding add_contract
  add_contract-IsMatched clauses contract =
      elim (Bool-cases (contract_matches_subjects contract subjects)) [
        | inr f ↦
            rw f (λ m. inl m, λ h. elim h [ inl m ↦ m | inr p ↦ let q = p.matches in cc (q, f) ])
        | inl t ↦
            let (into, out) =
              fold-has (add_clause subjects contract) IsMatched (IsChosen subjects contract)
                (add_clause-IsMatched contract) (nested_array contract ("clauses" ∷ [])) clauses in
            rw t (
              λ m. elim (into m) [
                | inl k ↦ inl k
                | inr (clause, n, r) ↦
                    inr (record { matches = t; clause = clause; listed = n; chosen = r })
              ],
              λ h. elim h [
                | inl k ↦ out (inl k)
                | inr p ↦ out (inr (p.clause, p.listed, p.chosen))
              ],
            )
      ]
