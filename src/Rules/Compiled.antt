-- ===== src/Rules/Compiled.antt =====
-- What the Rule Compiler has tested of the requirements (src/rules.rs).
use agentic_development_fram.Base.{
  String, true, not, ◌&&◌, ◌≡◌, refl, sym, ap, inl, inr, List, [], ◌∷◌, Memᴰ, ◌==◌, is_some,
  is_empty, filter, ok, >>=-eq-ok, map_err, subst, Returns, returns, Returns-bind, Returns-guard,
  Returns-ok, Option-cases, arith, eq_of_==,
}
use agentic_development_fram.Base.Map
use agentic_development_fram.Base.Order.{sort}
use mathlib.Core.List.Memᴰ
use agentic_development_fram.Base.Map.{Map, get-mem, mem-insert}
use agentic_development_fram.Json.Value.{Value}
use agentic_development_fram.Json.Canonical.{Crates, canonical_digest}
use agentic_development_fram.Contracts.Scope.{member}
use agentic_development_fram.Schema.Registry.{
  SchemaRegistry, supports_result_schema, supports_result_role,
}
use agentic_development_fram.Rules.Types.{
  Assurance, attestation, evidence_backed, RequirementDefinition,
}
use agentic_development_fram.Rules.Fields.{
  require_object, required_string, optional_string, optional_string_array,
}
use agentic_development_fram.Rules.Cycles.{keys, depends_on}
use agentic_development_fram.Rules.Requirements.{
  allowed_phases, allowed_roles, compile_requirement, compile_requirements, floating_point_message,
  definition_body, is_evidence_backed, parse_assurance, allowed_context_selectors,
}
use agentic_development_fram.Rules.Compile.{check_dependencies, check_all_dependencies}
use agentic_development_fram.Rules.Acyclic.{IsClosed}

-- What the compiler has tested of a requirement.
pub record IsDefined (schemas : SchemaRegistry) (id : String) (d : RequirementDefinition)
    : Type 0 where
  pub named : d.id ≡ id
  pub phase_allowed : member d.phase allowed_phases ≡ true
  pub role_allowed : member d.role allowed_roles ≡ true
  pub schema_supported : supports_result_schema schemas d.result_schema ≡ true
  pub role_supported : supports_result_role schemas d.result_schema d.role ≡ true
  pub evidence_kept : d.assurance ≡ evidence_backed → d.result_schema ≡ "result.evidence"

abbrev pub AreDefined : SchemaRegistry → Map RequirementDefinition → Type 0
AreDefined schemas requirements =
    (e : String × RequirementDefinition) → Memᴰ e requirements → IsDefined schemas e.0 e.1

evidence_rule :
    (assurance : Assurance) (schema : String)
    → not (is_evidence_backed assurance && not (schema == "result.evidence")) ≡ true
    → assurance ≡ evidence_backed
    → schema ≡ "result.evidence"
evidence_rule attestation schema h e = cc
evidence_rule evidence_backed schema h e = eq_of_== _ _ (ground arith)

insert-AreDefined :
    (schemas : SchemaRegistry) (requirements : Map RequirementDefinition)
    → AreDefined schemas requirements
    → (id : String) (d : RequirementDefinition) → IsDefined schemas id d
    → AreDefined schemas (Map.insert id d requirements)
insert-AreDefined schemas requirements h id d defined e m = elim (mem-insert id d requirements m) [
  | inl q ↦
      subst (λ (x : String × RequirementDefinition). IsDefined schemas x.0 x.1) (sym q) defined
  | inr n ↦ h e n
]

compile_requirement-AreDefined :
    (crates : Crates) (schemas : SchemaRegistry) (requirements : Map RequirementDefinition)
    (source : Value)
    → AreDefined schemas requirements
    → Returns (AreDefined schemas) (compile_requirement crates schemas requirements source)
unfolding compile_requirement
compile_requirement-AreDefined crates schemas requirements source h =
    Returns-bind (require_object source "requirement") _ λ raw _.
      Returns-bind (required_string raw "id") _ λ id _.
        Returns-guard (not (is_some (Map.get id requirements))) _ _ λ fresh.
          Returns-bind (required_string raw "phase") _ λ phase _.
            Returns-guard (member phase allowed_phases) _ _ λ phase_ok.
              Returns-bind (required_string raw "role") _ λ role _.
                Returns-guard (member role allowed_roles) _ _ λ role_ok.
                  Returns-bind (required_string raw "result_schema") _ λ schema _.
                    Returns-guard (supports_result_schema schemas schema) _ _ λ schema_ok.
                      Returns-guard (supports_result_role schemas schema role) _ _ λ pair_ok.
                        Returns-bind (optional_string raw "assurance") _ λ text _.
                          Returns-bind (parse_assurance text) _ λ assurance _.
                            Returns-guard
                              (not
                                (is_evidence_backed assurance && not (schema == "result.evidence")))
                              _ _
                              λ evidence_ok.
                                Returns-bind (optional_string_array raw "depends_on") _
                                  λ dependencies _.
                                    Returns-bind (optional_string_array raw "context") _
                                      λ context _.
                                        Returns-guard
                                          (is_empty (
                                            filter
                                              (λ selector.
                                                not (member selector allowed_context_selectors))
                                              context))
                                          _ _
                                          λ known.
                                            Returns-bind
                                              (map_err floating_point_message (
                                                canonical_digest crates (
                                                  definition_body id phase role schema
                                                    (sort dependencies) (sort context) assurance)))
                                              _
                                              λ digest _. returns (
                                                insert-AreDefined schemas requirements h _ _
                                                  (record {
                                                    named = refl;
                                                    phase_allowed = phase_ok;
                                                    role_allowed = role_ok;
                                                    schema_supported = schema_ok;
                                                    role_supported = pair_ok;
                                                    evidence_kept =
                                                        evidence_rule assurance schema evidence_ok;
                                                  }))

pub compile_requirements-AreDefined :
    (crates : Crates) (schemas : SchemaRegistry) (raws : List Value)
    (requirements : Map RequirementDefinition)
    → AreDefined schemas requirements
    → Returns (AreDefined schemas) (compile_requirements crates schemas raws requirements)
unfolding compile_requirements
compile_requirements-AreDefined crates schemas [] requirements h = returns h
compile_requirements-AreDefined crates schemas (raw ∷ raws) requirements h =
    Returns-bind (compile_requirement crates schemas requirements raw) _ λ after e.
      compile_requirements-AreDefined crates schemas raws after (
        Returns-ok (AreDefined schemas)
          (compile_requirement-AreDefined crates schemas requirements raw h) e)

-- Every dependency that was checked is known.
check_dependencies-known :
    (requirements : Map RequirementDefinition) (id : String) (dependencies : List String)
    → check_dependencies requirements id dependencies ≡ ok tt
    → (b : String) → Memᴰ b dependencies
    → Memᴰ b (keys requirements)
unfolding check_dependencies
check_dependencies-known requirements id [] e b m = elim m [ ]
check_dependencies-known requirements id (d ∷ ds) e b m =
    elim (Option-cases (Map.get d requirements)) [
      | inl n ↦ cc (rw n at e)
      | inr (v, q) ↦ elim (Memᴰ.cases_cons m) [
        | inl h ↦ rw h (get-mem d requirements q).1
        | inr t ↦ check_dependencies-known requirements id ds (rw q at e) b t
      ]
    ]

check_all-known :
    (requirements rest : Map RequirementDefinition)
    → check_all_dependencies requirements rest ≡ ok tt
    → (a : String) (d : RequirementDefinition) → Memᴰ (a, d) rest
    → (b : String) → Memᴰ b d.depends_on
    → Memᴰ b (keys requirements)
unfolding check_all_dependencies
check_all-known requirements [] e a d m b n = elim m [ ]
check_all-known requirements ((id, c) ∷ rest) e a d m b n =
    let (u, e₁, e₂) = >>=-eq-ok (check_dependencies requirements c.id c.depends_on) _ e in
    elim (Memᴰ.cases_cons m) [
      | inl h ↦
          check_dependencies-known requirements c.id c.depends_on e₁ b
            (subst (λ (x : RequirementDefinition). Memᴰ b x.depends_on) (ap (λ p. p.1) h) n)
      | inr t ↦ check_all-known requirements rest e₂ a d t b n
    ]

pub check_all-IsClosed :
    (requirements : Map RequirementDefinition)
    → check_all_dependencies requirements requirements ≡ ok tt
    → IsClosed requirements
unfolding depends_on
check_all-IsClosed requirements e a b m = elim (Option-cases (Map.get a requirements)) [
  | inl n ↦ elim (rw (n, depends_on) at m) [ ]
  | inr (d, q) ↦
      check_all-known requirements requirements e a d (get-mem a requirements q).0 b
        (rw (q, depends_on) at m)
]
