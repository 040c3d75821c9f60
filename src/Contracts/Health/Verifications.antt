-- ===== src/Contracts/Health/Verifications.antt =====
-- Which verifications a clause has: what the flags of `clause_health` of src/contract_health.rs
-- stand for.
use agentic_development_fram.Base.{
  String, Bool, true, false, not, ◌&&◌, Option, none, some, List, [], ◌∷◌, ◌≡◌, refl, sym, ap,
  subst, ◌↔◌, Memᴰ, any, is_empty, is_some, any-mem, any-of_mem, &&-true, if◌then◌else◌,
}
use agentic_development_fram.Json.Value.{Value, as_str, index}
use agentic_development_fram.Contracts.Health.Fresh.{IsCurrent, stale_refs_for_outcome-nil}
use agentic_development_fram.Contracts.Health.Clause.{
  VerificationOutcome, evidence_covers_clause, is_success, is_failure, outcomes_of,
}
use agentic_development_fram.Contracts.Health.Flags.{
  Inputs, stale_refs, sets, some_outcome, flag_lem, tally, success_step, failure_step,
  historical_step,
}

module _ (inputs : Inputs) where
  open inputs use {
    contract_id, clause_ref, evidence_mode, evidence_for_clause, outcomes, current_digests,
  }

  -- An outcome that cites a covering Evidence Record of its result's Change.
  pub record IsVerification (evidence_id : String) (evidence : Value) (v : VerificationOutcome)
      : Type 0 where
    pub is_there : Memᴰ (evidence_id, evidence) evidence_for_clause
    pub covers : evidence_covers_clause evidence clause_ref evidence_mode ≡ true
    pub cites : Memᴰ v (outcomes_of outcomes evidence_id evidence)
    pub result_id : String
    pub named : as_str (index v.result "id") ≡ some result_id

  abbrev pub Currency : String → VerificationOutcome → Type 0
  Currency evidence_id v =
      IsCurrent v.outcome v.result current_digests (contract_id ∷ evidence_id ∷ [])

  -- Some verification that is current, or some that is not, passes a test.
  pub record SomeVerification (current : Bool) (test : Value → Value → Bool) : Type 0 where
    pub evidence_id : String
    pub evidence : Value
    pub verification : VerificationOutcome
    pub is_verification : IsVerification evidence_id evidence verification
    pub currency :
        if current then Currency evidence_id verification else ¬ Currency evidence_id verification
    pub passes : test evidence verification.outcome ≡ true

  nil_iff : (xs : List String) → (is_empty xs ≡ true) ↔ (xs ≡ [])
  nil_iff [] = (λ h. refl, λ h. refl)
  nil_iff (x ∷ xs) = (λ h. cc, λ h. cc)

  is_empty-stale_refs :
      (current : Bool) (evidence_id : String) (v : VerificationOutcome)
      → ((if current
            then is_empty ((stale_refs inputs) evidence_id v)
            else not (is_empty ((stale_refs inputs) evidence_id v)))
          ≡ true)
        ↔ (if current then Currency evidence_id v else ¬ Currency evidence_id v)
  is_empty-stale_refs current evidence_id v = by_case current
    where
      nil : ((stale_refs inputs) evidence_id v ≡ []) ↔ Currency evidence_id v
      nil =
          stale_refs_for_outcome-nil v.outcome v.result current_digests
            (contract_id ∷ evidence_id ∷ [])

      empty :
          (is_empty ((stale_refs inputs) evidence_id v) ≡ true)
          ↔ ((stale_refs inputs) evidence_id v ≡ [])
      empty = nil_iff ((stale_refs inputs) evidence_id v)

      not_empty : (b : Bool) → (b ≡ true → ⊥) → not b ≡ true
      not_empty true h = absurd (h refl)
      not_empty false h = refl

      by_case :
          (current : Bool)
          → ((if current
                then is_empty ((stale_refs inputs) evidence_id v)
                else not (is_empty ((stale_refs inputs) evidence_id v)))
              ≡ true)
            ↔ (if current then Currency evidence_id v else ¬ Currency evidence_id v)
      by_case true = (λ h. nil.0 (empty.0 h), λ c. empty.1 (nil.1 c))
      by_case false = (
        λ h c. let e = empty.1 (nil.1 c) in cc (h, e),
        λ n. not_empty _ λ h. n (nil.0 (empty.0 h)),
      )

  some_iff :
      (current : Bool) (test : Value → Value → Bool)
      → (any ((some_outcome inputs) current test) evidence_for_clause ≡ true)
        ↔ SomeVerification current test
  some_iff current test = (
    λ h.
        let ((evidence_id, evidence), m, e) =
          any-mem ((some_outcome inputs) current test) evidence_for_clause h in
        let (c, e) = &&-true (evidence_covers_clause evidence clause_ref evidence_mode) _ e in
        let (v, n, e) =
          any-mem ((sets inputs) current test evidence_id evidence)
            (outcomes_of outcomes evidence_id evidence) e in
        let (a, e) = &&-true (is_some (as_str (index v.result "id"))) _ e in
        let (b, e) =
          &&-true
            (if current
              then is_empty ((stale_refs inputs) evidence_id v)
              else not (is_empty ((stale_refs inputs) evidence_id v)))
            _ e in
        let (id, q) = named (as_str (index v.result "id")) a in
        record {
          evidence_id = evidence_id;
          evidence = evidence;
          verification = v;
          is_verification = record {
            is_there = m;
            covers = c;
            cites = n;
            result_id = id;
            named = q;
          };
          currency = (is_empty-stale_refs current evidence_id v).0 b;
          passes = e;
        },
    λ s.
        any-of_mem ((some_outcome inputs) current test) evidence_for_clause
          s.is_verification.is_there
          (both s.is_verification.covers (
            any-of_mem ((sets inputs) current test s.evidence_id s.evidence)
              (outcomes_of outcomes s.evidence_id s.evidence) s.is_verification.cites
              (both (ap is_some s.is_verification.named) (
                both ((is_empty-stale_refs current s.evidence_id s.verification).1 s.currency)
                  s.passes)))),
  )
    where
      named : (o : Option String) → is_some o ≡ true → (t : String) × (o ≡ some t)
      named none h = cc
      named (some t) h = (t, refl)

      both : {a b : Bool} → a ≡ true → b ≡ true → (a && b) ≡ true
      both p q = rw p q

  abbrev pub Succeeds : Type 0
  Succeeds = SomeVerification true is_success

  abbrev pub Fails : Type 0
  Fails = SomeVerification true (λ e o. is_failure e)

  abbrev pub IsOutdated : Type 0
  IsOutdated = SomeVerification false (λ e o. true)

  pub succeeds_iff : ((tally inputs).current_success ≡ true) ↔ Succeeds
  succeeds_iff =
      subst (λ b. (b ≡ true) ↔ Succeeds)
        (sym (
          (flag_lem inputs) (λ t. t.current_success) true is_success refl (λ t ids. refl)
            (success_step inputs)))
        (some_iff true is_success)

  pub fails_iff : ((tally inputs).current_failure ≡ true) ↔ Fails
  fails_iff =
      subst (λ b. (b ≡ true) ↔ Fails)
        (sym (
          (flag_lem inputs) (λ t. t.current_failure) true (λ e o. is_failure e) refl (λ t ids. refl)
            (failure_step inputs)))
        (some_iff true (λ e o. is_failure e))

  pub outdated_iff : ((tally inputs).historical_verification ≡ true) ↔ IsOutdated
  outdated_iff =
      subst (λ b. (b ≡ true) ↔ IsOutdated)
        (sym (
          (flag_lem inputs) (λ t. t.historical_verification) false (λ e o. true) refl
            (λ t ids. refl) (historical_step inputs)))
        (some_iff false (λ e o. true))
