-- ===== src/Kernel/Dropped.antt =====
-- Which instances of the Rules are dropped (`instances.retain` in `evaluate_with_health` of
-- src/kernel.rs).
use agentic_development_fram.Base.{
  subst, String, Bool, true, false, not, ◌≡◌, refl, ◌≢◌, ◌⊎◌, inl, inr, ◌||◌, List, [], ◌∷◌, Memᴰ,
  is_empty, unwrap_or, arith,
}
use agentic_development_fram.Json.Value.{Value, string_field}
use agentic_development_fram.Contracts.Scope.{
  ClauseEvidenceMode, legacy_direct, direct, inherited, review, clause_ref,
  effective_clause_evidence_mode,
}
use agentic_development_fram.Rules.Types.{Assurance, attestation, evidence_backed}
use agentic_development_fram.Kernel.Types.{ProjectSnapshot, RequirementInstance}
use agentic_development_fram.Kernel.Evidence.{
  no_clauses, required, add_contract, matching_contract_clauses,
}
use agentic_development_fram.Kernel.Clauses.{fold-has, selects}
use agentic_development_fram.Kernel.Required.{Counts, add_contract-required}
use agentic_development_fram.Kernel.Collect.{is_retained}
use agentic_development_fram.Kernel.ReviewOnly.{
  HasChosen, IsReviewOnly, IsMatched, add_contract-IsMatched,
}

assurance_cases : (a : Assurance) → (a ≡ attestation) ⊎ (a ≡ evidence_backed)
assurance_cases attestation = inl refl
assurance_cases evidence_backed = inr refl

review_cases : (m : ClauseEvidenceMode) → (m ≡ review) ⊎ (m ≢ review)
review_cases legacy_direct = inr cc
review_cases direct = inr cc
review_cases inherited = inr cc
review_cases review = inl refl

-- A selected clause that is not for review is required.
chosen-Counts :
    (subjects : List String) (contract : Value) (h : HasChosen subjects contract)
    → effective_clause_evidence_mode contract h.clause ≢ review
    → Counts subjects
        (clause_ref (unwrap_or (string_field contract "id") "") h.chosen.clause_id)
        contract
chosen-Counts subjects contract h evident = (
  h.matches,
  record {
    clause = h.clause;
    listed = h.listed;
    needed = record {
      clause_id = h.chosen.clause_id;
      named = h.chosen.named;
      referred = refl;
      selected = h.chosen.selected;
      evident = evident;
    };
  },
)

empty-mem : {A : Type 0} (xs : List A) {x : A} → is_empty xs ≡ true → ¬ Memᴰ x xs
empty-mem [] e m = elim m [ ]
empty-mem (y ∷ xs) e m = cc e

matched_and : (a b : Bool) → (not a || not b) ≡ false → (a ≡ true) × (b ≡ true)
matched_and a b h = (ground arith, ground arith)

-- What the kernel drops is evidence-backed with clauses for review only.
pub dropped-IsReviewOnly :
    (snapshot : ProjectSnapshot) (i : RequirementInstance)
    → is_retained snapshot i ≡ false
    → IsReviewOnly snapshot i
unfolding is_retained matching_contract_clauses
dropped-IsReviewOnly snapshot i h = elim (assurance_cases i.assurance) [
  | inl a ↦ cc (rw (a, is_retained) at h)
  | inr b ↦
      let clauses = matching_contract_clauses i snapshot in
      let (matched, none_required) =
        matched_and clauses.has_matching_clauses (is_empty (required clauses))
          (rw (b, is_retained) at h) in
      let (into, out) =
        fold-has (add_contract i.subject_refs) IsMatched (HasChosen i.subject_refs)
          (add_contract-IsMatched i.subject_refs) snapshot.contracts no_clauses in
      let (contract, n, chosen) = some_contract snapshot i (into matched) in
      record {
        backed = b;
        contract = contract;
        listed = n;
        has_chosen = chosen;
        all_review = λ c m k. elim (review_cases (effective_clause_evidence_mode c k.clause)) [
          | inl r ↦ r
          | inr v ↦
              let reference = clause_ref (unwrap_or (string_field c "id") "") k.chosen.clause_id in
              let (into, out) =
                fold-has (add_contract i.subject_refs) (λ s. Memᴰ reference (required s))
                  (Counts i.subject_refs reference) (add_contract-required i.subject_refs reference)
                  snapshot.contracts no_clauses in
              absurd (
                empty-mem (required clauses) none_required
                  (out (inr (c, m, chosen-Counts i.subject_refs c k v))))
        ];
      }
]
  where
    some_contract :
        (snapshot : ProjectSnapshot) (i : RequirementInstance)
        → IsMatched no_clauses
          ⊎ ((c : Value) × Memᴰ c snapshot.contracts × HasChosen i.subject_refs c)
        → (c : Value) × Memᴰ c snapshot.contracts × HasChosen i.subject_refs c
    some_contract snapshot i h = elim h [ inl k ↦ cc k | inr p ↦ p ]

-- A required clause is a selected one that is not for review.
required-HasChosen :
    (subjects : List String) (c : String) (contract : Value)
    → Counts subjects c contract
    → (h : HasChosen subjects contract) × (effective_clause_evidence_mode contract h.clause
        ≢ review)
required-HasChosen subjects c contract (t, r) = (
  record {
    matches = t;
    clause = r.clause;
    listed = r.listed;
    chosen = record {
      clause_id = r.needed.clause_id;
      named = r.needed.named;
      selected =
          subst (λ c. selects subjects contract r.clause c ≡ true) r.needed.referred
            r.needed.selected;
    };
  },
  r.needed.evident,
)

none-is_empty : {A : Type 0} (xs : List A) → ((x : A) → ¬ Memᴰ x xs) → is_empty xs ≡ true
none-is_empty [] h = refl
none-is_empty (x ∷ xs) h = absurd (h x (Memᴰ.head refl))

nothing-required : (c : String) → ¬ Memᴰ c (required no_clauses)
unfolding required
nothing-required c m = elim m [ ]

-- And all that is evidence-backed with clauses for review only is dropped.
pub review_only-dropped :
    (snapshot : ProjectSnapshot) (i : RequirementInstance)
    → IsReviewOnly snapshot i
    → is_retained snapshot i ≡ false
unfolding is_retained matching_contract_clauses
review_only-dropped snapshot i r =
    let clauses = matching_contract_clauses i snapshot in
    let (into, out) =
      fold-has (add_contract i.subject_refs) IsMatched (HasChosen i.subject_refs)
        (add_contract-IsMatched i.subject_refs) snapshot.contracts no_clauses in
    let matched : clauses.has_matching_clauses ≡ true =
      out (inr (r.contract, r.listed, r.has_chosen)) in
    let none_required : is_empty (required clauses) ≡ true = none-is_empty (required clauses) λ c m.
      let (inside, outside) =
        fold-has (add_contract i.subject_refs) (λ s. Memᴰ c (required s)) (Counts i.subject_refs c)
          (add_contract-required i.subject_refs c) snapshot.contracts no_clauses in
      elim (inside m) [
        | inl k ↦ nothing-required c k
        | inr (contract, n, counts) ↦
            let (h, evident) = required-HasChosen i.subject_refs c contract counts in
            evident (r.all_review contract n h)
      ] in
    rw (r.backed, is_retained) (dropped _ _ matched none_required)
  where
    dropped : (a b : Bool) → a ≡ true → b ≡ true → (not a || not b) ≡ false
    dropped a b h k = ground arith
