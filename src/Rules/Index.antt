-- ===== src/Rules/Index.antt =====
-- What the Rule Compiler promises of an index that it returns (src/rules.rs).
use agentic_development_fram.Base.{
  String, eq_iff, Bool, true, false, not, ◌&&◌, ◌≡◌, refl, sym, ◌⊎◌, inl, inr, List, [], ◌∷◌, map,
  Memᴰ, ◌==◌, is_some, unwrap_or, ok, Returns, returns, Returns-bind, Returns-guard, Returns-ok,
  arith, map_err, ok_or, subst,
}
use mathlib.Core.List.Memᴰ
use agentic_development_fram.Base.Map
use agentic_development_fram.Base.Map.{Map}
use agentic_development_fram.Base.Pigeon.{Distinct}
use agentic_development_fram.Json.Value.{Value, as_object}
use agentic_development_fram.Json.Canonical.{Crates, canonical_digest}
use agentic_development_fram.Contracts.Scope.{member}
use agentic_development_fram.Schema.Registry.{SchemaRegistry}
use agentic_development_fram.Detection.Types.{SignalCatalogRegistry}
use agentic_development_fram.Rules.Types.{RequirementDefinition, ActivationRule, RuleIndex}
use agentic_development_fram.Rules.Fields.{
  optional_array, require_object, required_string, optional_string, optional_string_array,
}
use agentic_development_fram.Rules.Requirements.{
  compile_requirements, assert_acyclic, floating_point_message,
}
use agentic_development_fram.Rules.Compile.{
  is_named, rule_signal, validate_subjects, compile_rule, compile_rules, check_all_dependencies,
  normalized_value, compile_rule_index_with_registry,
}
use agentic_development_fram.Rules.Acyclic.{IsClosed, Leads, mem-member}
use agentic_development_fram.Rules.Decides.{assert_acyclic_iff}
use agentic_development_fram.Rules.Compiled.{
  AreDefined, compile_requirements-AreDefined, check_all-IsClosed,
}

-- What the compiler has tested of one rule.
pub record IsActivation (requirements : Map RequirementDefinition) (rule_ids : List String)
    (r : ActivationRule) : Type 0 where
  pub fresh : member r.id rule_ids ≡ false
  pub requirement_known : is_some (Map.get r.requirement_id requirements) ≡ true
  pub condition_known : (r.condition ≡ "always") ⊎ (r.condition ≡ "signal")
  pub signal_given : r.condition ≡ "signal" → is_named r.signal ≡ true

not-true : (b : Bool) → not b ≡ true → b ≡ false
not-true b h = ground arith

condition_cases :
    (c : String) → member c ("always" ∷ "signal" ∷ []) ≡ true → (c ≡ "always") ⊎ (c ≡ "signal")
condition_cases c h = ground (arith, eq_iff "always" c, eq_iff "signal" c)

signal_rule :
    (c : String) (named : Bool)
    → not (c == "signal" && not named) ≡ true
    → c ≡ "signal"
    → named ≡ true
signal_rule c named h e = ground (arith, eq_iff c "signal")

compile_rule-IsActivation :
    (signals : SignalCatalogRegistry) (requirements : Map RequirementDefinition)
    (rule_ids : List String) (source : Value)
    → Returns
        (IsActivation requirements rule_ids)
        (compile_rule signals requirements rule_ids source)
unfolding compile_rule
compile_rule-IsActivation signals requirements rule_ids source =
    Returns-bind (require_object source "rule") _ λ raw _.
      Returns-bind (required_string raw "id") _ λ id _.
        Returns-guard (not (member id rule_ids)) _ _ λ fresh.
          Returns-bind (required_string raw "requirement") _ λ requirement_id _.
            Returns-guard (is_some (Map.get requirement_id requirements)) _ _ λ known.
              Returns-bind (optional_string raw "when") _ λ text _.
                Returns-guard (member (unwrap_or text "signal") ("always" ∷ "signal" ∷ [])) _ _
                  λ condition. Returns-bind (optional_string raw "signal") _ λ signal _.
                    Returns-guard
                      (not (unwrap_or text "signal" == "signal" && not (is_named signal))) _ _
                      λ named.
                        Returns-guard (not (unwrap_or text "signal" == "always" && is_some signal))
                          _ _
                          λ apart. Returns-bind (rule_signal signals id signal) _ λ definition _.
                            Returns-bind (optional_string_array raw "subjects") _ λ subjects _.
                              Returns-bind (validate_subjects id subjects definition) _ λ _ _.
                                Returns-bind (optional_string raw "repository_phase") _ λ phase _.
                                  returns (record {
                                    fresh = not-true _ fresh;
                                    requirement_known = known;
                                    condition_known = condition_cases _ condition;
                                    signal_given = signal_rule _ _ named;
                                  })

-- What it has tested of all rules, of which the ids `rule_ids` are taken.
abbrev AreActivations : Map RequirementDefinition → List String → List ActivationRule → Type 0
AreActivations requirements rule_ids [] = Unit
AreActivations requirements rule_ids (r ∷ rs) =
    IsActivation requirements rule_ids r × AreActivations requirements (r.id ∷ rule_ids) rs

compile_rules-AreActivations :
    (signals : SignalCatalogRegistry) (requirements : Map RequirementDefinition) (raws : List Value)
    (rule_ids : List String)
    → Returns
        (AreActivations requirements rule_ids)
        (compile_rules signals requirements raws rule_ids)
unfolding compile_rules
compile_rules-AreActivations signals requirements [] rule_ids = returns tt
compile_rules-AreActivations signals requirements (raw ∷ raws) rule_ids =
    Returns-bind (compile_rule signals requirements rule_ids raw) _ λ r e.
      Returns-bind (compile_rules signals requirements raws (r.id ∷ rule_ids)) _ λ rs f. returns (
        Returns-ok _ (compile_rule-IsActivation signals requirements rule_ids raw) e,
        Returns-ok _ (compile_rules-AreActivations signals requirements raws (r.id ∷ rule_ids)) f,
      )

AreActivations-fresh :
    (requirements : Map RequirementDefinition) (rule_ids : List String)
    (rules : List ActivationRule)
    → AreActivations requirements rule_ids rules
    → {x : String} → Memᴰ x rule_ids
    → ¬ Memᴰ x (map (λ (r : ActivationRule). r.id) rules)
AreActivations-fresh requirements rule_ids [] h m n = elim n [ ]
AreActivations-fresh requirements rule_ids (r ∷ rs) h {x} m n = elim (Memᴰ.cases_cons n) [
  | inl e ↦ cc (mem-member r.id rule_ids (rw e at m), h.0.fresh)
  | inr t ↦ AreActivations-fresh requirements (r.id ∷ rule_ids) rs h.1 (Memᴰ.tail m) t
]

AreActivations-Distinct :
    (requirements : Map RequirementDefinition) (rule_ids : List String)
    (rules : List ActivationRule)
    → AreActivations requirements rule_ids rules
    → Distinct (map (λ (r : ActivationRule). r.id) rules)
AreActivations-Distinct requirements rule_ids [] h = tt
AreActivations-Distinct requirements rule_ids (r ∷ rs) h = (
  AreActivations-fresh requirements (r.id ∷ rule_ids) rs h.1 (Memᴰ.head refl),
  AreActivations-Distinct requirements (r.id ∷ rule_ids) rs h.1,
)

-- What a rule of a compiled index satisfies.
pub record IsActivated (requirements : Map RequirementDefinition) (r : ActivationRule)
    : Type 0 where
  pub requirement_known : is_some (Map.get r.requirement_id requirements) ≡ true
  pub condition_known : (r.condition ≡ "always") ⊎ (r.condition ≡ "signal")
  pub signal_given : r.condition ≡ "signal" → is_named r.signal ≡ true

AreActivations-member :
    (requirements : Map RequirementDefinition) (rule_ids : List String)
    (rules : List ActivationRule)
    → AreActivations requirements rule_ids rules
    → (r : ActivationRule) → Memᴰ r rules
    → IsActivated requirements r
AreActivations-member requirements rule_ids [] h r m = elim m [ ]
AreActivations-member requirements rule_ids (s ∷ rs) h r m = elim (Memᴰ.cases_cons m) [
  | inl e ↦ subst (IsActivated requirements) (sym e) (record {
    requirement_known = h.0.requirement_known;
    condition_known = h.0.condition_known;
    signal_given = h.0.signal_given;
  })
  | inr t ↦ AreActivations-member requirements (s.id ∷ rule_ids) rs h.1 r t
]

-- The promises of a compiled index.
pub record IsCompiled (schemas : SchemaRegistry) (index : RuleIndex) : Type 0 where
  pub defined : AreDefined schemas index.requirements
  pub closed : IsClosed index.requirements
  pub acyclic : (a : String) → ¬ Leads index.requirements a a
  pub activated : (r : ActivationRule) → Memᴰ r index.rules → IsActivated index.requirements r
  pub distinct : Distinct (map (λ (r : ActivationRule). r.id) index.rules)

index-IsCompiled :
    (crates : Crates) (source : Value) (schemas : SchemaRegistry) (signals : SignalCatalogRegistry)
    → Returns (IsCompiled schemas) (compile_rule_index_with_registry crates source schemas signals)
unfolding compile_rule_index_with_registry
index-IsCompiled crates source schemas signals =
    Returns-bind (ok_or (as_object source) "rule source must be a mapping") _ λ object _.
      Returns-bind (optional_array object "requirements") _ λ raws _.
        Returns-bind (compile_requirements crates schemas raws []) _ λ requirements compiled.
          Returns-bind (check_all_dependencies requirements requirements) _ λ _ checked.
            Returns-bind (assert_acyclic requirements) _ λ _ accepted.
              Returns-bind (optional_array object "rules") _ λ raw_rules _.
                Returns-bind (compile_rules signals requirements raw_rules []) _ λ rules ruled.
                  Returns-bind
                    (map_err floating_point_message
                      (canonical_digest crates (normalized_value requirements rules)))
                    _
                    λ digest _.
                      let closed = check_all-IsClosed requirements checked in
                      let activations =
                        Returns-ok (AreActivations requirements [])
                          (compile_rules-AreActivations signals requirements raw_rules []) ruled in
                      returns (record {
                        defined =
                            Returns-ok _
                              (compile_requirements-AreDefined crates schemas raws []
                                (λ e m. elim m [ ]))
                              compiled;
                        closed = closed;
                        acyclic = (assert_acyclic_iff requirements closed).0 accepted;
                        activated = AreActivations-member requirements [] rules activations;
                        distinct = AreActivations-Distinct requirements [] rules activations;
                      })

-- If the Rule Compiler returns an index, then each of its requirements stands under its own id, has
-- an allowed phase and role and a result schema that the registry supports for that role, and is
-- evidence-backed only with the evidence schema; every dependency is one of its requirements; no
-- requirement depends on itself, directly or through others; every rule activates a known
-- requirement, always or by a signal that it names; and no two rules have the same id.
pub compile_rule_index-IsCompiled :
    (crates : Crates) (source : Value) (schemas : SchemaRegistry) (signals : SignalCatalogRegistry)
    {index : RuleIndex}
    → compile_rule_index_with_registry crates source schemas signals ≡ ok index
    → IsCompiled schemas index
compile_rule_index-IsCompiled crates source schemas signals e =
    Returns-ok (IsCompiled schemas) (index-IsCompiled crates source schemas signals) e
