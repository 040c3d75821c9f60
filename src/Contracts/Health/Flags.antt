-- ===== src/Contracts/Health/Flags.antt =====
-- The three flags of the loop of `clause_health` of src/contract_health.rs: when each is set.
use mathlib.Core.List.{foldl}
use agentic_development_fram.Base.{
  String, Bool, true, false, not, ◌&&◌, ◌||◌, List, [], ◌∷◌, ◌≡◌, ap, ◌∙◌, inl, inr, any, is_empty,
  is_some, Option-cases, Bool-cases, arith, if◌then◌else◌,
}
use agentic_development_fram.Base.Map.{Map}
use agentic_development_fram.Contracts.Scope.{ClauseEvidenceMode}
use agentic_development_fram.Json.Value.{Value, as_str, index}
use agentic_development_fram.Contracts.Health.Freshness.{stale_refs_for_outcome}
use agentic_development_fram.Contracts.Health.Clause.{
  VerificationOutcome, Tally, no_tally, evidence_covers_clause, is_success, is_failure, add_outcome,
  outcomes_of, add_evidence, tally_of,
}

-- What the health of a clause is derived from.
pub record Inputs : Type 0 where
  pub contract_id : String
  pub clause_ref : String
  pub evidence_mode : ClauseEvidenceMode
  pub evidence_for_clause : List (String × Value)
  pub outcomes : Map (List VerificationOutcome)
  pub current_digests : Map String

-- A flag that each step of a loop keeps or sets.
foldl-flag :
    {S A : Type 0} (step : S → A → S) (flag : S → Bool) (sets : A → Bool)
    → ((s : S) (a : A) → flag (step s a) ≡ (flag s || sets a))
    → (s : S) (xs : List A) → flag (foldl step s xs) ≡ (flag s || any sets xs)
foldl-flag step flag sets h s [] = ground arith
foldl-flag step flag sets h s (x ∷ xs) =
    ground (arith, foldl-flag step flag sets h (step s x) xs, h s x)

module _ (inputs : Inputs) where
  open inputs use {
    contract_id, clause_ref, evidence_mode, evidence_for_clause, outcomes, current_digests,
  }

  abbrev pub stale_refs : String → VerificationOutcome → List String
  stale_refs evidence_id v =
      stale_refs_for_outcome v.outcome v.result current_digests (contract_id ∷ evidence_id ∷ [])

  -- Which outcomes set a flag.
  abbrev pub sets : Bool → (Value → Value → Bool) → String → Value → VerificationOutcome → Bool
  sets current test evidence_id evidence v =
      is_some (as_str (index v.result "id"))
      && ((if current
            then is_empty (stale_refs evidence_id v)
            else not (is_empty (stale_refs evidence_id v)))
          && test evidence v.outcome)

  abbrev pub some_outcome : Bool → (Value → Value → Bool) → String × Value → Bool
  some_outcome current test (evidence_id, evidence) =
      evidence_covers_clause evidence clause_ref evidence_mode
      && any (sets current test evidence_id evidence) (outcomes_of outcomes evidence_id evidence)

  outer :
      (flag : Tally → Bool) (current : Bool) (test : Value → Value → Bool)
      → ((t : Tally) (ids : List String) → flag (record t { evidence_refs = ids }) ≡ flag t)
      → ((evidence_id : String) (evidence : Value) (t : Tally) (v : VerificationOutcome)
          → flag (add_outcome contract_id current_digests evidence_id evidence t v)
            ≡ (flag t || sets current test evidence_id evidence v))
      → (t : Tally) (e : String × Value)
      → flag (add_evidence contract_id clause_ref evidence_mode outcomes current_digests t e)
        ≡ (flag t || some_outcome current test e)
  unfolding add_evidence
  outer flag current test keeps step t (evidence_id, evidence) =
      elim (Bool-cases (evidence_covers_clause evidence clause_ref evidence_mode)) [
        | inl c ↦ rw c (
            foldl-flag (add_outcome contract_id current_digests evidence_id evidence) flag
              (sets current test evidence_id evidence) (step evidence_id evidence) _
              (outcomes_of outcomes evidence_id evidence)
            ∙ ap
                (λ b.
                  b
                  || any (sets current test evidence_id evidence)
                      (outcomes_of outcomes evidence_id evidence))
                (keeps t _))
        | inr c ↦ rw c (ground arith)
      ]

  pub flag_lem :
      (flag : Tally → Bool) (current : Bool) (test : Value → Value → Bool)
      → flag no_tally ≡ false
      → ((t : Tally) (ids : List String) → flag (record t { evidence_refs = ids }) ≡ flag t)
      → ((evidence_id : String) (evidence : Value) (t : Tally) (v : VerificationOutcome)
          → flag (add_outcome contract_id current_digests evidence_id evidence t v)
            ≡ (flag t || sets current test evidence_id evidence v))
      → flag (
          tally_of contract_id clause_ref evidence_mode evidence_for_clause outcomes
            current_digests)
        ≡ any (some_outcome current test) evidence_for_clause
  unfolding tally_of
  flag_lem flag current test unset keeps step =
      foldl-flag (add_evidence contract_id clause_ref evidence_mode outcomes current_digests) flag
        (some_outcome current test) (outer flag current test keeps step) no_tally
        evidence_for_clause
      ∙ ap (λ b. b || any (some_outcome current test) evidence_for_clause) unset

  -- The three flags of the loop.
  abbrev pub tally : Tally
  tally = tally_of contract_id clause_ref evidence_mode evidence_for_clause outcomes current_digests

  module _ (flag : Tally → Bool) (current : Bool) (test : Value → Value → Bool) where
    abbrev IsStep : Type 0
    IsStep =
        (evidence_id : String) (evidence : Value) (t : Tally) (v : VerificationOutcome)
        → flag (add_outcome contract_id current_digests evidence_id evidence t v)
          ≡ (flag t || sets current test evidence_id evidence v)

  pub success_step : IsStep (λ t. t.current_success) true is_success
  unfolding add_outcome
  success_step evidence_id evidence t v = elim (Option-cases (as_str (index v.result "id"))) [
    | inl e ↦ rw (e, add_outcome) (ground arith)
    | inr (id, e) ↦
        rw (e, add_outcome)
          (elim (Bool-cases (is_empty (stale_refs evidence_id v))) [
            | inl f ↦ rw (f, add_outcome) (ground arith)
            | inr f ↦ rw (f, add_outcome) (ground arith)
          ])
  ]

  pub failure_step : IsStep (λ t. t.current_failure) true (λ e o. is_failure e)
  unfolding add_outcome
  failure_step evidence_id evidence t v = elim (Option-cases (as_str (index v.result "id"))) [
    | inl e ↦ rw (e, add_outcome) (ground arith)
    | inr (id, e) ↦
        rw (e, add_outcome)
          (elim (Bool-cases (is_empty (stale_refs evidence_id v))) [
            | inl f ↦ rw (f, add_outcome) (ground arith)
            | inr f ↦ rw (f, add_outcome) (ground arith)
          ])
  ]

  pub historical_step : IsStep (λ t. t.historical_verification) false (λ e o. true)
  unfolding add_outcome
  historical_step evidence_id evidence t v = elim (Option-cases (as_str (index v.result "id"))) [
    | inl e ↦ rw (e, add_outcome) (ground arith)
    | inr (id, e) ↦
        rw (e, add_outcome)
          (elim (Bool-cases (is_empty (stale_refs evidence_id v))) [
            | inl f ↦ rw (f, add_outcome) (ground arith)
            | inr f ↦ rw (f, add_outcome) (ground arith)
          ])
  ]
