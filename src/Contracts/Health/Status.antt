-- ===== src/Contracts/Health/Status.antt =====
-- What the status of a clause means (`clause_health` of src/contract_health.rs).
use agentic_development_fram.Base.{
  String, Bool, true, false, List, ◌≡◌, ◌≢◌, refl, ◌↔◌, inl, inr, Bool-cases, if◌then◌else◌,
}
use agentic_development_fram.Contracts.Scope.{
  ClauseEvidenceMode, legacy_direct, direct, inherited, review,
}
use agentic_development_fram.Json.Value.{Value}
use agentic_development_fram.Contracts.Health.Clause.{clause_status, clause_health}
use agentic_development_fram.Contracts.Health.Flags.{Inputs, tally}
use agentic_development_fram.Contracts.Health.Verifications.{
  Succeeds, Fails, IsOutdated, succeeds_iff, fails_iff, outdated_iff,
}

module _ (inputs : Inputs) where
  open inputs use {
    contract_id, clause_ref, evidence_mode, evidence_for_clause, outcomes, current_digests,
  }

  -- What the status says. Each excludes the others.
  pub data HasStatus : String → Type 0 where
    is_review : evidence_mode ≡ review → HasStatus "review"
    is_verified : evidence_mode ≢ review → (Succeeds inputs) → HasStatus "verified"
    is_failed : evidence_mode ≢ review → ¬ (Succeeds inputs) → (Fails inputs) → HasStatus "failed"
    is_stale :
        evidence_mode ≢ review
        → ¬ (Succeeds inputs)
        → ¬ (Fails inputs)
        → (IsOutdated inputs)
        → HasStatus "stale"
    is_unverified :
        evidence_mode ≢ review
        → ¬ (Succeeds inputs)
        → ¬ (Fails inputs)
        → ¬ (IsOutdated inputs)
        → HasStatus "unverified"

  refuted : {P : Type 0} (b : Bool) → (b ≡ true) ↔ P → b ≡ false → ¬ P
  refuted b i e p = cc (i.1 p, e)

  derived :
      evidence_mode ≢ review
      → HasStatus (
          if (tally inputs).current_success
          then "verified"
          else if (tally inputs).current_failure
          then "failed"
          else if (tally inputs).historical_verification
          then "stale"
          else "unverified")
  derived n = elim (Bool-cases (tally inputs).current_success) [
    | inl s ↦ rw s (is_verified n ((succeeds_iff inputs).0 s))
    | inr s ↦ elim (Bool-cases (tally inputs).current_failure) [
      | inl f ↦
          rw s (rw f (is_failed n (refuted _ (succeeds_iff inputs) s) ((fails_iff inputs).0 f)))
      | inr f ↦ elim (Bool-cases (tally inputs).historical_verification) [
        | inl h ↦ rw s (
            rw f (
              rw h (
                is_stale n (refuted _ (succeeds_iff inputs) s) (refuted _ (fails_iff inputs) f)
                  ((outdated_iff inputs).0 h))))
        | inr h ↦ rw s (
            rw f (
              rw h (
                is_unverified n (refuted _ (succeeds_iff inputs) s) (refuted _ (fails_iff inputs) f)
                  (refuted _ (outdated_iff inputs) h))))
      ]
    ]
  ]

  -- The status of a clause that is checked says which verifications it has: a current one that
  -- succeeds; or else a current one that fails; or else one that is no longer current; or else none.
  -- A clause that is only reviewed has the status `review`.
  pub clause_health-HasStatus :
      (clause_id : String) (clause : Value) (applies_to : List String)
      → HasStatus
          (clause_health contract_id clause_id clause_ref clause applies_to evidence_mode
            evidence_for_clause outcomes current_digests).status
  unfolding clause_health clause_status
  clause_health-HasStatus clause_id clause applies_to = by_mode evidence_mode refl
    where
      by_mode :
          (mode : ClauseEvidenceMode)
          → evidence_mode ≡ mode
          → HasStatus (clause_status mode (tally inputs))
      by_mode legacy_direct e = derived λ q. cc (e, q)
      by_mode direct e = derived λ q. cc (e, q)
      by_mode inherited e = derived λ q. cc (e, q)
      by_mode review e = is_review e
