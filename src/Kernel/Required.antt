-- ===== src/Kernel/Required.antt =====
-- The clauses that an instance needs Evidence for, without the test of whole Contracts
-- (`matching_contract_clauses` of src/kernel.rs).
use agentic_development_fram.Base.{
  String, Bool, true, ◌≡◌, refl, ◌∙◌, ap, subst, ◌↔◌, ◌⊎◌, inl, inr, ◌||◌, some, List, [], ◌∷◌,
  Memᴰ, filter, any, is_empty, contains, unwrap_or, is_some, Bool-cases, Option-cases,
  if◌then◌else◌, any-of_mem, filter-mem, arith,
}
use agentic_development_fram.Json.Value.{
  Value, as_array, as_str, get, index, string_field, nested_array,
}
use agentic_development_fram.Contracts.Scope.{
  member, clause_ref, clause_matches_subjects, names_clause, matches_whole,
  contract_matches_subjects,
}
use agentic_development_fram.Rules.Acyclic.{member-mem, mem-member}
use agentic_development_fram.Kernel.Types.{ProjectSnapshot, RequirementInstance}
use agentic_development_fram.Kernel.Evidence.{
  MatchingContractClauses, no_clauses, required, add_clause, add_contract,
  matching_contract_clauses,
}
use agentic_development_fram.Kernel.Clauses.{fold-has, selects, IsRequired, add_clause-required}

-- A clause of the Contract is required.
pub record HasRequired (subjects : List String) (c : String) (contract : Value) : Type 0 where
  pub clause : Value
  pub listed : Memᴰ clause (nested_array contract ("clauses" ∷ []))
  pub needed : IsRequired subjects contract c clause

abbrev pub Counts : List String → String → Value → Type 0
Counts subjects c contract =
    (contract_matches_subjects contract subjects ≡ true) × HasRequired subjects c contract

pub add_contract-required :
    (subjects : List String) (c : String) (clauses : MatchingContractClauses) (contract : Value)
    → Memᴰ c (required (add_contract subjects clauses contract))
      ↔ (Memᴰ c (required clauses) ⊎ Counts subjects c contract)
unfolding add_contract
add_contract-required subjects c clauses contract =
    elim (Bool-cases (contract_matches_subjects contract subjects)) [
      | inr f ↦ rw f (λ m. inl m, λ h. elim h [ inl m ↦ m | inr p ↦ let q = p.0 in cc (q, f) ])
      | inl t ↦
          let (into, out) =
            fold-has (add_clause subjects contract) (λ s. Memᴰ c (required s))
              (IsRequired subjects contract c)
              (λ s clause. add_clause-required subjects contract c s clause)
              (nested_array contract ("clauses" ∷ [])) clauses in
          rw t (
            λ m. elim (into m) [
              | inl k ↦ inl k
              | inr (clause, n, r) ↦ inr (refl, record { clause = clause; listed = n; needed = r })
            ],
            λ h. elim h [
              | inl k ↦ out (inl k)
              | inr p ↦ out (inr (p.1.clause, p.1.listed, p.1.needed))
            ],
          )
    ]

index-string_field :
    (v : Value) (k s : String) → string_field v k ≡ some s → as_str (index v k) ≡ some s
unfolding index string_field
index-string_field v k s e = elim (Option-cases (get v k)) [
  | inl n ↦ cc (rw n at e)
  | inr (w, n) ↦ rw (n, index) (rw n at e)
]

names_clause-member :
    (subjects : List String) (contract clause : Value) (contract_id clause_id : String)
    → string_field contract "id" ≡ some contract_id
    → string_field clause "id" ≡ some clause_id
    → names_clause contract clause subjects ≡ member (clause_ref contract_id clause_id) subjects
unfolding names_clause
names_clause-member subjects contract clause contract_id clause_id e f =
    rw (index-string_field contract "id" contract_id e, names_clause)
      (rw (index-string_field clause "id" clause_id f, names_clause) refl)

or_left : (a b : Bool) → a ≡ true → (a || b) ≡ true
or_left a b h = ground arith

or_right : (a b : Bool) → b ≡ true → (a || b) ≡ true
or_right a b h = ground arith

-- The selected clause gives the test of the whole Contract, where the Contract has an id.
clause_test :
    (subjects : List String) (contract clause : Value) (contract_id clause_id : String)
    → string_field contract "id" ≡ some contract_id
    → string_field clause "id" ≡ some clause_id
    → selects subjects contract clause (clause_ref contract_id clause_id) ≡ true
    → (clause_matches_subjects contract clause subjects || names_clause contract clause subjects)
      ≡ true
clause_test subjects contract clause contract_id clause_id e f s =
    let explicit = filter (λ subject. contains subject "#") subjects in
    elim (Bool-cases (is_empty explicit)) [
      | inl n ↦ or_left _ _ (rw n at s)
      | inr n ↦ or_right _ _ (
          names_clause-member subjects contract clause contract_id clause_id e f
          ∙ mem-member (clause_ref contract_id clause_id) subjects
              (filter-mem (λ subject. contains subject "#") subjects
                (member-mem (clause_ref contract_id clause_id) explicit (rw n at s))).0)
    ]

abbrev clause_selected : List String → Value → Value → Bool
clause_selected subjects contract clause =
    clause_matches_subjects contract clause subjects || names_clause contract clause subjects

contract_matches-clause :
    (subjects : List String) (contract clause : Value)
    → Memᴰ clause (nested_array contract ("clauses" ∷ []))
    → (clause_matches_subjects contract clause subjects || names_clause contract clause subjects)
      ≡ true
    → contract_matches_subjects contract subjects ≡ true
unfolding contract_matches_subjects nested_array index
contract_matches-clause subjects contract clause m t =
    elim (Option-cases (get contract "clauses")) [
      | inl n ↦ elim (rw (n, nested_array) at m) [ ]
      | inr (w, n) ↦ elim (Option-cases (as_array w)) [
        | inl a ↦ elim (rw (n, nested_array, a) at m) [ ]
        | inr (clauses, a) ↦
            rw (n, contract_matches_subjects, index)
              (rw (a, contract_matches_subjects)
                (some_clause clauses (rw (n, nested_array, a) at m)))
      ]
    ]
  where
    some_clause :
        (clauses : List Value)
        → Memᴰ clause clauses
        → (if is_empty clauses
            then matches_whole contract subjects
            else any
                (λ c.
                  clause_matches_subjects contract c subjects || names_clause contract c subjects)
                clauses)
          ≡ true
    some_clause [] k = elim k [ ]
    some_clause (c ∷ cs) k = any-of_mem (clause_selected subjects contract) (c ∷ cs) k t

nothing_required : (c : String) → ¬ Memᴰ c (required no_clauses)
unfolding required
nothing_required c m = elim m [ ]

contract_counts :
    (subjects : List String) (c : String) (contract : Value)
    → is_some (string_field contract "id") ≡ true
    → HasRequired subjects c contract
    → contract_matches_subjects contract subjects ≡ true
contract_counts subjects c contract has_id r = elim (Option-cases (string_field contract "id")) [
  | inl n ↦ cc (rw n at has_id)
  | inr (id, n) ↦
      let q = r.needed.referred in
      let s = r.needed.selected in
      let reference : c ≡ clause_ref id r.needed.clause_id =
        q ∙ ap (λ o. clause_ref (unwrap_or o "") r.needed.clause_id) n in
      contract_matches-clause subjects contract r.clause r.listed (
        clause_test subjects contract r.clause id r.needed.clause_id n r.needed.named
          (subst (λ c. selects subjects contract r.clause c ≡ true) reference s))
]

-- An instance needs Evidence for a clause exactly if some Contract of the project has a clause with
-- this reference that the subjects select, by name or else by its scope, and that is not for review,
-- provided that every Contract has an id: the test of the whole Contract leaves no clause out.
pub matching_contract_clauses-HasRequired :
    (instance : RequirementInstance) (snapshot : ProjectSnapshot)
    → ((contract : Value)
        → Memᴰ contract snapshot.contracts
        → is_some (string_field contract "id") ≡ true)
    → (c : String)
    → Memᴰ c (required (matching_contract_clauses instance snapshot)) ↔ (
        (contract : Value) × Memᴰ contract snapshot.contracts
        × HasRequired instance.subject_refs c contract)
unfolding matching_contract_clauses
matching_contract_clauses-HasRequired instance snapshot ids c =
    let subjects = instance.subject_refs in
    let (into, out) =
      fold-has (add_contract subjects) (λ s. Memᴰ c (required s)) (Counts subjects c)
        (λ s contract. add_contract-required subjects c s contract) snapshot.contracts no_clauses in
    (
      λ m. elim (into m) [
        | inl k ↦ elim (nothing_required c k) [ ]
        | inr (contract, n, p) ↦ (contract, n, p.1)
      ],
      λ (contract, n, r).
          out (inr (contract, n, (contract_counts subjects c contract (ids contract n) r, r))),
    )
