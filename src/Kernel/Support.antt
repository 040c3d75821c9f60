-- ===== src/Kernel/Support.antt =====
-- What satisfies a Requirement Instance (`is_satisfied` of src/kernel.rs).
use agentic_development_fram.Base.{
  String, Bool, true, not, ◌≡◌, refl, ◌↔◌, inl, inr, ◌&&◌, some, List, [], ◌∷◌, Memᴰ, eq_of_==,
  ==-self, any, filter, flat_map, is_empty, any-mem, any-of_mem, all-mem, all-of_mem, filter-mem,
  mem-filter, flat_map-mem, mem-flat_map, Option-cases, arith,
}
use agentic_development_fram.Contracts.Scope.{member}
use agentic_development_fram.Json.Value.{Value, field_is, string_field, nested_array}
use agentic_development_fram.Rules.Types.{Assurance, attestation, evidence_backed}
use agentic_development_fram.Rules.Acyclic.{member-mem, mem-member}
use agentic_development_fram.Kernel.Types.{ProjectSnapshot, RequirementInstance}
use agentic_development_fram.Kernel.Freshness.{is_result_of, outcome_is_fresh}
use agentic_development_fram.Kernel.Evidence.{
  required, matching_contract_clauses, is_current_evidence, covered_by,
  outcome_has_current_evidence, has_assurance, reports_satisfied, satisfies, is_satisfied,
}

-- `field_is` compares the field.
pub field_is-eq : (v : Value) (k s : String) → (field_is v k s ≡ true) ↔ (string_field v k ≡ some s)
unfolding field_is
field_is-eq v k s = (
  λ h. elim (Option-cases (string_field v k)) [
    | inl n ↦ cc (rw n at h)
    | inr (t, e) ↦ rw (eq_of_== t s (rw e at h)) at e
  ],
  λ e. rw e (==-self s),
)

both-true : (a b : Bool) → (a && b) ≡ true → (a ≡ true) × (b ≡ true)
both-true a b h = (ground arith, ground arith)

true-both : (a b : Bool) → a ≡ true → b ≡ true → (a && b) ≡ true
true-both a b h k = ground arith

-- There is a current Evidence Record, and each clause that needs Evidence is covered by one.
pub record IsCovered (instance : RequirementInstance) (snapshot : ProjectSnapshot)
    (result outcome : Value) : Type 0 where
  pub some_evidence :
      (e : Value) × Memᴰ e snapshot.evidence
      × (is_current_evidence instance result outcome snapshot e ≡ true)
  pub each_clause :
      (c : String)
      → Memᴰ c (required (matching_contract_clauses instance snapshot))
      → (e : Value) × Memᴰ e snapshot.evidence
        × (is_current_evidence instance result outcome snapshot e ≡ true)
        × Memᴰ c (covered_by (matching_contract_clauses instance snapshot) e)

not_empty-some : {A : Type 0} (xs : List A) → not (is_empty xs) ≡ true → (x : A) × Memᴰ x xs
not_empty-some [] h = cc
not_empty-some (x ∷ xs) h = (x, Memᴰ.head refl)

some-not_empty : {A : Type 0} {x : A} (xs : List A) → Memᴰ x xs → not (is_empty xs) ≡ true
some-not_empty [] m = elim m [ ]
some-not_empty (y ∷ xs) m = refl

module _ (instance : RequirementInstance) (snapshot : ProjectSnapshot)
    (result outcome : Value) where
  outcome_has_current_evidence_iff :
      (outcome_has_current_evidence instance result outcome snapshot ≡ true)
      ↔ IsCovered instance snapshot result outcome
  unfolding outcome_has_current_evidence
  outcome_has_current_evidence_iff =
      let clauses = matching_contract_clauses instance snapshot in
      let is_current = is_current_evidence instance result outcome snapshot in
      let current = filter is_current snapshot.evidence in
      (
        λ h.
            let (left, right) = both-true _ _ h in
            record {
              some_evidence =
                  let (e, m) = not_empty-some current left in
                  let (n, q) = filter-mem is_current snapshot.evidence m in (e, n, q);
              each_clause = λ c m.
                  let k = member-mem c (flat_map (covered_by clauses) current) (
                    all-mem (λ c. member c (flat_map (covered_by clauses) current))
                      (required clauses) right m) in
                  let (e, n, o) = flat_map-mem (covered_by clauses) current k in
                  let (l, q) = filter-mem is_current snapshot.evidence n in (e, l, q, o);
            },
        λ h.
            let (e, m, q) = h.some_evidence in
            true-both _ _ (some-not_empty current (mem-filter is_current snapshot.evidence m q)) (
              all-of_mem (λ c. member c (flat_map (covered_by clauses) current)) (required clauses)
                (λ c n.
                  let (e, m, q, o) = h.each_clause c n in
                  mem-member c _ (
                    mem-flat_map (covered_by clauses) current
                      (mem-filter is_current snapshot.evidence m q) o))),
      )

-- What the assurance of an instance asks for.
abbrev pub IsAssured : Assurance → RequirementInstance → ProjectSnapshot → Value → Value → Type 0
IsAssured attestation instance snapshot result outcome = Unit
IsAssured evidence_backed instance snapshot result outcome =
    IsCovered instance snapshot result outcome

-- A recorded result has an outcome that satisfies the instance.
pub record IsSupported (instance : RequirementInstance) (snapshot : ProjectSnapshot) : Type 0 where
  pub result : Value
  pub recorded_result : Memᴰ result snapshot.results
  pub outcome : Value
  pub reported : Memᴰ outcome (nested_array result ("payload" ∷ "outcomes" ∷ []))
  pub of_schema : string_field result "result_schema" ≡ some instance.result_schema
  pub of_role : string_field result "role" ≡ some instance.role
  pub of_instance : string_field outcome "instance_key" ≡ some instance.instance_key
  pub of_definition : string_field outcome "definition_digest" ≡ some instance.definition_digest
  pub satisfied : string_field outcome "status" ≡ some "satisfied"
  pub current : outcome_is_fresh result outcome snapshot ≡ true
  pub assured : IsAssured instance.assurance instance snapshot result outcome

module _ (instance : RequirementInstance) (snapshot : ProjectSnapshot)
    (result outcome : Value) where
  has_assurance_iff :
      (has_assurance instance result outcome snapshot ≡ true)
      ↔ IsAssured instance.assurance instance snapshot result outcome
  unfolding has_assurance
  has_assurance_iff = by_assurance instance.assurance refl
    where
      by_assurance :
          (a : Assurance)
          → instance.assurance ≡ a
          → (has_assurance instance result outcome snapshot ≡ true)
            ↔ IsAssured a instance snapshot result outcome
      by_assurance attestation e = (λ h. tt, λ h. rw (e, has_assurance) refl)
      by_assurance evidence_backed e = (
        λ h.
            (outcome_has_current_evidence_iff instance snapshot result outcome).0
              (rw (e, has_assurance) at h),
        λ h.
            rw (e, has_assurance)
              ((outcome_has_current_evidence_iff instance snapshot result outcome).1 h),
      )

  satisfies-IsSupported :
      Memᴰ result snapshot.results
      → Memᴰ outcome (nested_array result ("payload" ∷ "outcomes" ∷ []))
      → satisfies instance snapshot result outcome ≡ true
      → IsSupported instance snapshot
  unfolding satisfies reports_satisfied is_result_of
  satisfies-IsSupported m n h =
      let (reported_now, assured) = both-true _ _ h in
      let (reports, fresh) = both-true _ _ reported_now in
      let (defined, status) = both-true _ _ reports in
      let (named, digest) = both-true _ _ defined in
      let (kind, key) = both-true _ _ named in
      let (schema, role) = both-true _ _ kind in
      record {
        result = result;
        recorded_result = m;
        outcome = outcome;
        reported = n;
        of_schema = (field_is-eq result "result_schema" instance.result_schema).0 schema;
        of_role = (field_is-eq result "role" instance.role).0 role;
        of_instance = (field_is-eq outcome "instance_key" instance.instance_key).0 key;
        of_definition =
            (field_is-eq outcome "definition_digest" instance.definition_digest).0 digest;
        satisfied = (field_is-eq outcome "status" "satisfied").0 status;
        current = fresh;
        assured = has_assurance_iff.0 assured;
      }

satisfies-of :
    (instance : RequirementInstance) (snapshot : ProjectSnapshot)
    (h : IsSupported instance snapshot)
    → satisfies instance snapshot h.result h.outcome ≡ true
unfolding satisfies reports_satisfied is_result_of
satisfies-of instance snapshot h =
    true-both _ _
      (true-both _ _
        (true-both _ _
          (true-both _ _
            (true-both _ _
              (true-both _ _
                ((field_is-eq h.result "result_schema" instance.result_schema).1 h.of_schema)
                ((field_is-eq h.result "role" instance.role).1 h.of_role))
              ((field_is-eq h.outcome "instance_key" instance.instance_key).1 h.of_instance))
            ((field_is-eq h.outcome "definition_digest" instance.definition_digest).1
              h.of_definition))
          ((field_is-eq h.outcome "status" "satisfied").1 h.satisfied))
        h.current)
      ((has_assurance_iff instance snapshot h.result h.outcome).1 h.assured)

-- An instance is satisfied exactly if a recorded result of its result schema and role has an
-- outcome for its key and definition, `satisfied` and with current inputs; and, where the instance
-- is evidence-backed, some Evidence Record is current for the outcome and each Contract clause that
-- needs Evidence is covered by such a record.
pub is_satisfied_iff :
    (instance : RequirementInstance) (snapshot : ProjectSnapshot)
    → (is_satisfied instance snapshot ≡ true) ↔ IsSupported instance snapshot
unfolding is_satisfied
is_satisfied_iff instance snapshot = (
  λ h.
      let (result, m, k) =
        any-mem
          (λ result.
            any (satisfies instance snapshot result)
              (nested_array result ("payload" ∷ "outcomes" ∷ [])))
          snapshot.results h in
      let (outcome, n, q) =
        any-mem (satisfies instance snapshot result)
          (nested_array result ("payload" ∷ "outcomes" ∷ [])) k in
      satisfies-IsSupported instance snapshot result outcome m n q,
  λ h. any-of_mem _ snapshot.results h.recorded_result (
      any-of_mem (satisfies instance snapshot h.result) _ h.reported
        (satisfies-of instance snapshot h)),
)
