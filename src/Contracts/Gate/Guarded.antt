-- ===== src/Contracts/Gate/Guarded.antt =====
-- What a gate that passes means for every clause (src/contract_health_gate.rs on a report of
-- src/contract_health.rs).
use agentic_development_fram.Base.{String, true, some, ◌≡◌, ◌≢◌, refl, Memᴰ, ok, Returns-ok}
use agentic_development_fram.Base.Map.{Map}
use agentic_development_fram.Contracts.Scope.{review, effective_clause_evidence_mode}
use agentic_development_fram.Json.Value.{Value, as_object, index}
use agentic_development_fram.Json.Canonical.{Crates}
use agentic_development_fram.Schema.Registry.{SchemaRegistry}
use agentic_development_fram.Schema.Keywords.{Libraries}
use agentic_development_fram.Contracts.Health.{ContractHealthReport}
use agentic_development_fram.Contracts.Health.Flags.{Inputs}
use agentic_development_fram.Contracts.Health.Freshness.{array_or_empty}
use agentic_development_fram.Contracts.Health.Verifications.{Succeeds}
use agentic_development_fram.Contracts.Health.Status.{
  HasStatus, is_review, is_verified, is_failed, is_stale, is_unverified,
}
use agentic_development_fram.Contracts.Health.Report.{build_contract_health_report_with_digests}
use agentic_development_fram.Contracts.Health.Promised.{
  IsDerived, inputs_of, build_contract_health_report_with_digests-IsDerived,
}
use agentic_development_fram.Contracts.Gate.{
  ContractHealthPolicy, allowed_failure_states, build, passed,
}
use agentic_development_fram.Contracts.Gate.Passed.{passed_iff}
use agentic_development_fram.Contracts.Gate.Backed.{IsBacked, success-IsBacked}

-- A clause that is checked and has no failing status succeeds.
succeeds_of :
    (inputs : Inputs) {s : String}
    → HasStatus inputs s
    → inputs.evidence_mode ≢ review
    → ¬ Memᴰ s allowed_failure_states
    → Succeeds inputs
succeeds_of inputs (is_review e) n h = absurd (n e)
succeeds_of inputs (is_verified n s) m h = s
succeeds_of inputs (is_failed n s f) m h = absurd (h (Memᴰ.head refl))
succeeds_of inputs (is_stale n s f o) m h = absurd (h (Memᴰ.tail (Memᴰ.head refl)))
succeeds_of inputs (is_unverified n s f o) m h = absurd (h (Memᴰ.tail (Memᴰ.tail (Memᴰ.head refl))))

-- If a policy fails on all three failing statuses and the gate passes on the report of a project,
-- then every clause of its Contracts that is not only reviewed is backed: the project has an
-- Evidence Record that covers it, and a result of the Builder whose outcome cites that Record, has a
-- freshness manifest that is current, and found the clause satisfied.
pub passed-IsBacked :
    (libraries : Libraries) (crates : Crates) (document : Value) (registry : SchemaRegistry)
    (record_digests : Map String) (path : String) (policy : ContractHealthPolicy)
    {project : Map Value} {report : ContractHealthReport}
    → as_object document ≡ some project
    → build_contract_health_report_with_digests libraries crates document registry record_digests
      ≡ ok report
    → ((s : String) → Memᴰ s allowed_failure_states → Memᴰ s policy.fail_on)
    → passed (build path policy report) ≡ true
    → (d : IsDerived crates project record_digests report) × ((contract : Value)
        → Memᴰ contract d.contracts
        → (clause : Value) → Memᴰ clause (array_or_empty (index contract "clauses"))
        → effective_clause_evidence_mode contract clause ≢ review
        → IsBacked d.results d.evidence d.digests contract clause)
passed-IsBacked libraries crates document registry record_digests path policy {project} {report} q b
      covers h =
    let d =
      Returns-ok _
        (build_contract_health_report_with_digests-IsDerived libraries crates document registry
          record_digests q)
        b in
    (
      d,
      λ contract m clause k n.
          let (health, l, e) = d.is_report.each_clause contract m clause k in
          success-IsBacked d.results d.evidence d.contracts d.digests contract clause e.contract_id
            e.clause_id e.of_contract e.of_clause
            (succeeds_of (inputs_of _ contract clause e.contract_id e.clause_id) e.of_status n
              λ f. (passed_iff path policy report).0 h health l (covers health.status f)),
    )
