-- ===== src/Contracts/Health/Pushed.antt =====
-- Where the Evidence and the outcomes of a report come from (`evidence_by_clause` and
-- `verification_outcomes_by_evidence` of src/contract_health.rs).
use mathlib.Core.List.Memᴰ
use agentic_development_fram.Base.{
  String, Bool, true, false, some, List, [], ◌∷◌, ◌++◌, ◌≡◌, refl, ap, ◌∙◌, subst, inl, inr, ◌⊎◌,
  Memᴰ, map, filter, flat_map, unwrap_or, Option-cases, filter-mem, mem-map, append-mem,
  flat_map-mem, if◌then◌else◌, ◌==◌, eq_of_==,
}
use agentic_development_fram.Base.Map
use agentic_development_fram.Base.Map.{Map}
use agentic_development_fram.Json.Value.{Value, as_str, index}
use agentic_development_fram.Contracts.Health.Freshness.{array_or_empty, is_verification_result}
use agentic_development_fram.Contracts.Health.Clause.{VerificationOutcome}
use agentic_development_fram.Contracts.Health.Report.{
  push_all, texts, clause_evidence, evidence_by_clause, evidence_outcomes,
  verification_outcomes_by_evidence,
}

-- What is found under a key was pushed under it.
push_all-mem :
    {A : Type 0} (m : Map (List A)) (pairs : List (String × A)) (key : String) {a : A}
    → Memᴰ a (unwrap_or (Map.get key (push_all m pairs)) [])
    → Memᴰ a (unwrap_or (Map.get key m) []) ⊎ Memᴰ (key, a) pairs
unfolding push_all
push_all-mem m [] key n = inl n
push_all-mem m ((k, b) ∷ pairs) key {a} n =
    elim (push_all-mem (Map.insert k (unwrap_or (Map.get k m) [] ++ (b ∷ [])) m) pairs key n) [
      | inr t ↦ inr (Memᴰ.tail t)
      | inl i ↦ pushed (k == key) refl (
          subst (λ o. Memᴰ a (unwrap_or o []))
            (Map.get-insert k key (unwrap_or (Map.get k m) [] ++ (b ∷ [])) m) i)
    ]
  where
    pushed :
        (same : Bool)
        → (k == key) ≡ same
        → Memᴰ a (
            unwrap_or
              (if k == key then some (unwrap_or (Map.get k m) [] ++ (b ∷ [])) else Map.get key m)
              [])
        → Memᴰ a (unwrap_or (Map.get key m) []) ⊎ Memᴰ (key, a) ((k, b) ∷ pairs)
    pushed true e n = elim (append-mem (unwrap_or (Map.get k m) []) (b ∷ []) (rw e at n)) [
      | inl o ↦ inl (subst (λ j. Memᴰ a (unwrap_or (Map.get j m) [])) (eq_of_== k key e) o)
      | inr o ↦ elim (Memᴰ.cases_cons o) [
        | inl q ↦ inr (Memᴰ.head (cc (q, eq_of_== k key e)))
        | inr t ↦ elim t [ ]
      ]
    ]
    pushed false e n = inl (rw e at n)

clause_evidence-mem :
    (source : Value) (reference evidence_id : String) (value : Value)
    → Memᴰ (reference, (evidence_id, value)) (clause_evidence source)
    → (source ≡ value) × (as_str (index source "id") ≡ some evidence_id)
clause_evidence-mem source reference evidence_id value m =
    elim (Option-cases (as_str (index source "id"))) [
      | inl e ↦ elim (rw (e, clause_evidence) at m) [ ]
      | inr (id, e) ↦
          let (r, l, q) =
            mem-map (λ r. (r, (id, source))) (texts (index source "contract_clause_refs"))
              (rw (e, clause_evidence) at m) in
          (
            ap (λ (p : String × (String × Value)). p.1.1) q,
            e ∙ ap some (ap (λ (p : String × (String × Value)). p.1.0) q),
          )
    ]

pub evidence_by_clause-mem :
    (evidence : List Value) (reference evidence_id : String) (value : Value)
    → Memᴰ (evidence_id, value) (unwrap_or (Map.get reference (evidence_by_clause evidence)) [])
    → Memᴰ value evidence × (as_str (index value "id") ≡ some evidence_id)
unfolding evidence_by_clause Map.get
evidence_by_clause-mem evidence reference evidence_id value m =
    elim (push_all-mem [] (flat_map clause_evidence evidence) reference m) [
      | inl n ↦ elim n [ ]
      | inr n ↦
          let (source, k, o) = flat_map-mem clause_evidence evidence n in
          let (same, e) = clause_evidence-mem source reference evidence_id value o in
          (
            subst (λ v. Memᴰ v evidence) same k,
            subst (λ v. as_str (index v "id") ≡ some evidence_id) same e,
          )
    ]

-- A result of the project has the outcome, which cites the Evidence.
pub record IsRecorded (results : List Value) (evidence_id : String) (v : VerificationOutcome)
    : Type 0 where
  pub is_there : Memᴰ v.result results
  pub is_verification : is_verification_result v.result ≡ true
  pub has_outcome : Memᴰ v.outcome (array_or_empty (index (index v.result "payload") "outcomes"))
  pub cites : Memᴰ evidence_id (texts (index v.outcome "basis_refs"))

pub outcomes_by_evidence-IsRecorded :
    (results : List Value) (evidence_id : String) (v : VerificationOutcome)
    → Memᴰ v (unwrap_or (Map.get evidence_id (verification_outcomes_by_evidence results)) [])
    → IsRecorded results evidence_id v
unfolding verification_outcomes_by_evidence Map.get
outcomes_by_evidence-IsRecorded results evidence_id v m =
    elim (push_all-mem [] (flat_map evidence_outcomes (filter is_verification_result results))
      evidence_id m) [
        | inl n ↦ elim n [ ]
        | inr n ↦
            let (result, k, o) =
              flat_map-mem evidence_outcomes (filter is_verification_result results) n in
            let (there, checked) = filter-mem is_verification_result results k in
            let (outcome, l, p) =
              flat_map-mem (pairs result)
                (array_or_empty (index (index result "payload") "outcomes")) o in
            let (r, c, q) =
              mem-map (λ r. (r, record { result = result; outcome = outcome }))
                (texts (index outcome "basis_refs")) p in
            let same : record { result = result; outcome = outcome } ≡ v =
              ap (λ (p : String × VerificationOutcome). p.1) q in
            subst (IsRecorded results evidence_id) same (record {
              is_there = there;
              is_verification = checked;
              has_outcome = l;
              cites =
                  subst (λ s. Memᴰ s (texts (index outcome "basis_refs")))
                    (ap (λ (p : String × VerificationOutcome). p.0) q) c;
            })
      ]
  where
    pairs : Value → Value → List (String × VerificationOutcome)
    pairs result outcome =
        map (λ reference. (reference, record { result = result; outcome = outcome }))
          (texts (index outcome "basis_refs"))
