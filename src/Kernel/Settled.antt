-- ===== src/Kernel/Settled.antt =====
-- What the statuses of a decision say when no instance of a phase is left unsatisfied.
use agentic_development_fram.Base.{
  String, true, false, ◌≡◌, refl, ◌∙◌, ◌≢◌, List, Memᴰ, ◌==◌, any, map, Bool-cases, inl, inr, arith,
  eq_iff, eq_of_==, any-false, mem-map,
}
use agentic_development_fram.Kernel.Types.{ProjectSnapshot, RequirementInstance}
use agentic_development_fram.Kernel.Candidates.{signal_applicability_review_requirement}
use agentic_development_fram.Kernel.Evidence.{
  is_satisfied, satisfies, reports_satisfied, has_assurance, outcome_has_current_evidence,
  matching_contract_clauses, is_current_evidence, build_baseline_satisfies, baseline_satisfies,
}
use agentic_development_fram.Kernel.Collect.{set_status, is_settled}
use agentic_development_fram.Kernel.Steps.{in_phase}

-- Every instance of the phase is settled: by its outcomes, by the baseline of the build, or, for
-- the review of the candidates, by there being none left. None is reported unsatisfied.
pub record IsSettledPhase (snapshot : ProjectSnapshot) (phase : String)
    (instances : List RequirementInstance) : Type 0 where
  pub reported :
      (i : RequirementInstance) → Memᴰ i instances → i.phase ≡ phase → i.status ≢ "unsatisfied"
  pub settled :
      (i : RequirementInstance)
      → Memᴰ i instances
      → i.phase ≡ phase
      → i.requirement_id ≢ signal_applicability_review_requirement
      → is_settled snapshot true i ≡ true

reported_of_none :
    (phase : String) (instances : List RequirementInstance) (i : RequirementInstance)
    → any (in_phase phase) instances ≡ false
    → Memᴰ i instances
    → i.phase ≡ phase
    → i.status ≢ "unsatisfied"
reported_of_none phase instances i h m e u = ground (
  arith,
  any-false (in_phase phase) instances h m,
  e,
  u,
  eq_iff i.phase phase,
  eq_iff i.status "unsatisfied",
)

-- The status that an instance had before does not matter to the test.
is_settled-status :
    (snapshot : ProjectSnapshot) (i : RequirementInstance) (t : String)
    → is_settled snapshot true (record i { status = t }) ≡ is_settled snapshot true i
unfolding is_settled is_satisfied satisfies reports_satisfied has_assurance
    outcome_has_current_evidence matching_contract_clauses is_current_evidence
    build_baseline_satisfies baseline_satisfies
is_settled-status snapshot i t = refl

-- `set_status` sets the status by the test, and leaves all that the test reads.
set_status-settled :
    (snapshot : ProjectSnapshot) (i : RequirementInstance)
    → (set_status snapshot true i).requirement_id ≢ signal_applicability_review_requirement
    → (set_status snapshot true i).status ≢ "unsatisfied"
    → is_settled snapshot true (set_status snapshot true i) ≡ true
unfolding set_status
set_status-settled snapshot i other reported =
    elim (Bool-cases (i.requirement_id == signal_applicability_review_requirement)) [
      | inl e ↦ absurd (other (rw e (eq_of_== _ _ e)))
      | inr e ↦ elim (Bool-cases (is_settled snapshot true i)) [
        | inl done ↦ rw (e, done) (is_settled-status snapshot i "satisfied" ∙ done)
        | inr left ↦ absurd (reported (rw (e, left) refl))
      ]
    ]

pub settled_phase :
    (snapshot : ProjectSnapshot) (phase : String) (collected : List RequirementInstance)
    → any (in_phase phase) (map (set_status snapshot true) collected) ≡ false
    → IsSettledPhase snapshot phase (map (set_status snapshot true) collected)
settled_phase snapshot phase collected h = record {
  reported = λ i m e. reported_of_none phase (map (set_status snapshot true) collected) i h m e;
  settled = λ i m e other.
      let (j, n, q) = mem-map (set_status snapshot true) collected m in
      rw (← q) (
        set_status-settled snapshot j (rw q other)
          (rw q (reported_of_none phase (map (set_status snapshot true) collected) i h m e)));
}
