-- ===== src/Contracts/Gate/Policy.antt =====
-- Which policies are accepted (`ContractHealthPolicy::from_value` of src/contract_health_gate.rs).
use mathlib.Core.List.Memᴰ
use agentic_development_fram.Base.{
  String, not, some, List, [], ◌∷◌, ◌≡◌, ◌≢◌, refl, sym, ap, ◌∙◌, subst, inl, inr, ◌⊎◌, Memᴰ,
  and_then, is_empty, is_some_and, ok_or, ok_or-eq-ok, ◌==◌, Returns, Returns-bind, Returns-guard,
  returns, Returns-ok, Returns-of,
}
use agentic_development_fram.Base.Map
use agentic_development_fram.Base.Map.Ascending.{keys_of, IsAscending}
use agentic_development_fram.Base.Sets.{mem-set_of, set_of-mem, set_of-IsAscending}
use agentic_development_fram.Contracts.Scope.{member}
use agentic_development_fram.Contracts.Members.{member-mem}
use agentic_development_fram.Json.Value.{Value, string, as_str, as_array, as_object, get}
use agentic_development_fram.Json.Lookup.{object-value}
use agentic_development_fram.Delivery.Fields.{same_set}
use agentic_development_fram.Contracts.Gate.{
  allowed_failure_states, ContractHealthPolicy, normalize_states, from_value,
}

-- A policy fails on the states that its document names, which are some of those allowed, in order.
pub record IsPolicy (value : Value) (policy : ContractHealthPolicy) : Type 0 where
  pub states : List Value
  pub of_states : and_then (get value "fail_on") as_array ≡ some states
  pub some_state : states ≢ []
  pub from_document :
      (s : String) → Memᴰ s policy.fail_on → Memᴰ (string s) states × Memᴰ s allowed_failure_states
  pub each_state :
      (v : Value) → Memᴰ v states → (s : String) × (v ≡ string s) × Memᴰ s policy.fail_on
  pub ascending : IsAscending policy.fail_on

as_str-value : (v : Value) {s : String} → as_str v ≡ some s → v ≡ string s
as_str-value (string t) e = ap string (cc e)
as_str-value (Value.null) e = cc
as_str-value (Value.bool b) e = cc
as_str-value (Value.number n) e = cc
as_str-value (Value.array vs) e = cc
as_str-value (Value.object fs) e = cc

record IsNormalized (values : List Value) (before after : List String) : Type 0 where
  kept : (s : String) → Memᴰ s before → Memᴰ s after
  has : (v : Value) → Memᴰ v values → (s : String) × (v ≡ string s) × Memᴰ s after
  only :
      (s : String)
      → Memᴰ s after
      → Memᴰ s before ⊎ (Memᴰ (string s) values × Memᴰ s allowed_failure_states)

next-IsNormalized :
    (value : Value) (values : List Value) (state : String) (before after : List String)
    → value ≡ string state
    → Memᴰ state allowed_failure_states
    → IsNormalized values (state ∷ before) after
    → IsNormalized (value ∷ values) before after
next-IsNormalized value values state before after e a n = record {
  kept = λ s m. n.kept s (Memᴰ.tail m);
  has = λ v m. elim (Memᴰ.cases_cons m) [
    | inl q ↦ (state, q ∙ e, n.kept state (Memᴰ.head refl))
    | inr t ↦ n.has v t
  ];
  only = λ s m. elim (n.only s m) [
    | inl k ↦ elim (Memᴰ.cases_cons k) [
      | inl q ↦
          inr
            (Memᴰ.head (ap string q ∙ sym e), subst (λ s. Memᴰ s allowed_failure_states) (sym q) a)
      | inr t ↦ inl t
    ]
    | inr (k, l) ↦ inr (Memᴰ.tail k, l)
  ];
}

normalize_states-IsNormalized :
    (values : List Value) (before : List String)
    → Returns (IsNormalized values before) (normalize_states values before)
unfolding normalize_states
normalize_states-IsNormalized [] before =
    returns (record { kept = λ s m. m; has = λ v m. elim m [ ]; only = λ s m. inl m })
normalize_states-IsNormalized (value ∷ values) before =
    Returns-bind (ok_or (as_str value) _) _ λ state a.
      Returns-guard (member state allowed_failure_states) _ _ λ b.
        Returns-guard (not (member state before)) _ _ λ c.
          Returns-of (normalize_states values (state ∷ before)) λ after d.
            next-IsNormalized value values state before after
              (as_str-value value (ok_or-eq-ok (as_str value) _ a))
              (member-mem state allowed_failure_states b)
              (Returns-ok _ (normalize_states-IsNormalized values (state ∷ before)) d)

-- A policy that is accepted fails on some states, each of them one that may fail a gate. They are
-- those that its document names, each once and in order.
pub from_value-IsPolicy : (value : Value) → Returns (IsPolicy value) (from_value value)
unfolding from_value
from_value-IsPolicy value = Returns-bind (ok_or (as_object value) _) _ λ fields a.
    Returns-guard (same_set (keys_of fields) ("schema_version" ∷ "fail_on" ∷ [])) _ _ λ b.
      Returns-guard
        (is_some_and (and_then (Map.get "schema_version" fields) as_str) (λ s. s == "1")) _ _
        λ c. Returns-bind (ok_or (and_then (Map.get "fail_on" fields) as_array) _) _ λ fail_on d.
          Returns-guard (not (is_empty fail_on)) _ _ λ e.
            Returns-bind (normalize_states fail_on []) _ λ normalized f.
              let n = Returns-ok _ (normalize_states-IsNormalized fail_on []) f in
              returns (record {
                states = fail_on;
                of_states =
                    rw (object-value value (ok_or-eq-ok (as_object value) _ a) "fail_on")
                      (ok_or-eq-ok (and_then (Map.get "fail_on" fields) as_array) _ d);
                some_state = λ q. cc (rw q at e);
                from_document = λ s m. elim (n.only s (set_of-mem s normalized m)) [
                  | inl k ↦ elim k [ ]
                  | inr both ↦ both
                ];
                each_state = λ v m. let (s, q, k) = n.has v m in (s, q, mem-set_of s normalized k);
                ascending = set_of-IsAscending normalized;
              })
