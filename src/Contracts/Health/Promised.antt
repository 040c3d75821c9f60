-- ===== src/Contracts/Health/Promised.antt =====
-- What a Contract health report promises (`build_contract_health_report_with_digests` of
-- src/contract_health.rs).
use agentic_development_fram.Base.{
  String, Option, some, List, [], ◌≡◌, sym, ap, subst, Memᴰ, ok, Returns, Returns-bind, returns,
  Returns-ok, ◌+◌,
}
use agentic_development_fram.Base.Map
use agentic_development_fram.Base.Map.{Map}
use agentic_development_fram.Base.Map.Ascending.{IsAscending}
use agentic_development_fram.Base.Order.{sort_by}
use agentic_development_fram.Base.Order.Sorted.{sort_by-mem, mem-sort_by}
use agentic_development_fram.Json.Value.{Value, as_object}
use agentic_development_fram.Json.Canonical.{Crates}
use agentic_development_fram.Schema.Registry.{SchemaRegistry}
use agentic_development_fram.Schema.Keywords.{Libraries}
use agentic_development_fram.Contracts.Scope.{clause_ref, effective_clause_evidence_mode}
use agentic_development_fram.Contracts.Health.{ClauseHealth, ContractHealthReport}
use agentic_development_fram.Contracts.Health.Flags.{Inputs}
use agentic_development_fram.Contracts.Health.Status.{HasStatus}
use agentic_development_fram.Contracts.Health.Freshness.{
  array_or_empty, record_array, project_collections, verification_freshness_refs,
  current_artifact_digests,
}
use agentic_development_fram.Contracts.Health.Report.{
  Sources, ref_le, summary_of, check_collections, validate_health_records, collection_kinds,
  evidence_by_clause, verification_outcomes_by_evidence, report_contracts,
  build_contract_health_report_with_digests,
}
use agentic_development_fram.Contracts.Health.Reported.{refs_of, IsEntry}
use agentic_development_fram.Contracts.Health.AllReported.{
  AreAllReported, report_contracts-AreAllReported,
}
use agentic_development_fram.Contracts.Health.Summary.{
  HasStatus-IsKnown, length-counted, sort_by-IsAscending,
}
use agentic_development_fram.Contracts.Health.Status.{clause_health-HasStatus}
use agentic_development_fram.Contracts.Health.Clause.{clause_health}
use agentic_development_fram.Contracts.Health.Report.{health_of}
use agentic_development_fram.Contracts.Scope.{effective_clause_applies_to}
use agentic_development_fram.Base.{unwrap_or}
use agentic_development_fram.Json.Value.{as_str, index}

-- What the health of a clause of a Contract is derived from.
abbrev pub inputs_of : Sources → Value → Value → String → String → Inputs
inputs_of sources contract clause contract_id clause_id = record {
  contract_id = contract_id;
  clause_ref = clause_ref contract_id clause_id;
  evidence_mode = effective_clause_evidence_mode contract clause;
  evidence_for_clause = unwrap_or (Map.get (clause_ref contract_id clause_id) sources.evidence) [];
  outcomes = sources.outcomes;
  current_digests = sources.digests;
}

-- The entry stands for the clause, with its status.
pub record IsHealthOf (sources : Sources) (contract clause : Value) (health : ClauseHealth)
    : Type 0 where
  pub contract_id : String
  pub clause_id : String
  pub of_contract : as_str (index contract "id") ≡ some contract_id
  pub of_clause : as_str (index clause "id") ≡ some clause_id
  pub of_ref : health.clause_ref ≡ clause_ref contract_id clause_id
  pub of_status : HasStatus (inputs_of sources contract clause contract_id clause_id) health.status

-- Each clause of each Contract is reported once, and nothing else is.
pub record IsReport (sources : Sources) (contracts : List Value) (report : ContractHealthReport)
    : Type 0 where
  pub each_clause :
      (contract : Value)
      → Memᴰ contract contracts
      → (clause : Value) → Memᴰ clause (array_or_empty (index contract "clauses"))
      → (health : ClauseHealth) × Memᴰ health report.clauses
        × IsHealthOf sources contract clause health
  pub each_entry :
      (health : ClauseHealth)
      → Memᴰ health report.clauses
      → (contract : Value) × Memᴰ contract contracts
        × ((clause : Value) × Memᴰ clause (array_or_empty (index contract "clauses"))
            × IsHealthOf sources contract clause health)
  pub ascending : IsAscending (refs_of report.clauses)
  pub adds_up :
      report.summary.total
      ≡ report.summary.verified
        + (report.summary.stale
            + (report.summary.unverified + (report.summary.failed + report.summary.review)))

-- The report is derived from the arrays of the project and their current digests.
pub record IsDerived (crates : Crates) (project : Map Value) (record_digests : Map String)
    (report : ContractHealthReport) : Type 0 where
  pub results : List Value
  pub evidence : List Value
  pub contracts : List Value
  pub digests : Map String
  pub of_results : record_array (Map.get "results" project) "results" ≡ ok results
  pub of_evidence : record_array (Map.get "evidence" project) "evidence" ≡ ok evidence
  pub of_contracts : record_array (Map.get "contracts" project) "contracts" ≡ ok contracts
  pub of_digests :
      current_artifact_digests crates project (verification_freshness_refs results) record_digests
      ≡ ok digests
  pub is_report :
      IsReport
        (record {
          evidence = evidence_by_clause evidence;
          outcomes = verification_outcomes_by_evidence results;
          digests = digests;
        })
        contracts
        report

entry-IsHealthOf :
    (sources : Sources) (contract clause : Value) (health : ClauseHealth)
    → IsEntry sources contract clause health
    → IsHealthOf sources contract clause health
unfolding health_of clause_health
entry-IsHealthOf sources contract clause health e = record {
  contract_id = e.contract_id;
  clause_id = e.clause_id;
  of_contract = e.of_contract;
  of_clause = e.of_clause;
  of_ref = ap (λ (h : ClauseHealth). h.clause_ref) e.of_health;
  of_status =
      subst
        (λ (h : ClauseHealth).
          HasStatus (inputs_of sources contract clause e.contract_id e.clause_id) h.status)
        (sym e.of_health)
        (clause_health-HasStatus (inputs_of sources contract clause e.contract_id e.clause_id)
          e.clause_id clause (effective_clause_applies_to contract clause));
}

sorted-IsReport :
    (sources : Sources) (contracts : List Value) (reported : List ClauseHealth)
    (schema_version : String) (revision : Option String)
    → AreAllReported sources contracts [] reported
    → IsReport sources contracts (record {
      schema_version = schema_version;
      repository_revision = revision;
      summary = summary_of (sort_by ref_le reported);
      clauses = sort_by ref_le reported;
    })
unfolding summary_of
sorted-IsReport sources contracts reported schema_version revision a = record {
  each_clause = λ contract m clause k.
      let (h, n, e) = a.each_clause contract m clause k in
      (h, mem-sort_by ref_le reported n, entry-IsHealthOf sources contract clause h e);
  each_entry = entries;
  ascending = sort_by-IsAscending reported a.distinct;
  adds_up = length-counted (sort_by ref_le reported) λ h m.
      let (contract, k, (clause, l, e)) = entries h m in
      HasStatus-IsKnown (inputs_of sources contract clause e.contract_id e.clause_id) e.of_status;
}
  where
    entries :
        (health : ClauseHealth)
        → Memᴰ health (sort_by ref_le reported)
        → (contract : Value) × Memᴰ contract contracts
          × ((clause : Value) × Memᴰ clause (array_or_empty (index contract "clauses"))
              × IsHealthOf sources contract clause health)
    entries health m =
        let (contract, k, (clause, l, e)) = a.each_entry health (sort_by-mem ref_le reported m) in
        (contract, k, (clause, l, entry-IsHealthOf sources contract clause health e))

-- A Contract health report has one entry for each clause of each Contract and no other, in the order
-- of their references. The status of an entry says which verifications the clause has now, and the
-- counts of the statuses add up to the total.
pub build_contract_health_report_with_digests-IsDerived :
    (libraries : Libraries) (crates : Crates) (document : Value) (registry : SchemaRegistry)
    (record_digests : Map String) {project : Map Value}
    → as_object document ≡ some project
    → Returns (IsDerived crates project record_digests) (
        build_contract_health_report_with_digests libraries crates document registry record_digests)
unfolding build_contract_health_report_with_digests
build_contract_health_report_with_digests-IsDerived libraries crates document registry
      record_digests {project} q =
    rw q (
      Returns-bind (check_collections project project_collections) _ λ u a.
        Returns-bind (record_array (Map.get "results" project) "results") _ λ results b.
          Returns-bind (record_array (Map.get "evidence" project) "evidence") _ λ evidence c.
            Returns-bind
              (validate_health_records libraries registry (verification_freshness_refs results)
                project collection_kinds)
              _
              λ v d.
                Returns-bind
                  (current_artifact_digests crates project (verification_freshness_refs results)
                    record_digests)
                  _
                  λ digests e.
                    Returns-bind (record_array (Map.get "contracts" project) "contracts") _
                      λ contracts f.
                        let sources : Sources = record {
                          evidence = evidence_by_clause evidence;
                          outcomes = verification_outcomes_by_evidence results;
                          digests = digests;
                        } in
                        Returns-bind (report_contracts sources contracts []) _ λ reported g.
                          returns (record {
                            results = results;
                            evidence = evidence;
                            contracts = contracts;
                            digests = digests;
                            of_results = b;
                            of_evidence = c;
                            of_contracts = f;
                            of_digests = e;
                            is_report = sorted-IsReport sources contracts reported _ _ (
                                Returns-ok _ (report_contracts-AreAllReported sources contracts [])
                                  g);
                          }))
