-- ===== src/Contracts/Health/Fresh.antt =====
-- When a verification is current (`stale_refs_for_outcome` of src/contract_health.rs).
use agentic_development_fram.Base.{
  String, Bool, true, false, not, Option, none, some, List, [], ◌∷◌, ◌++◌, ◌≡◌, refl, sym, ap, ◌↔◌,
  inl, inr, Memᴰ, filter, is_some, and_then, text_option_eq, Option-cases, eq_of_==, ==-self,
  filter-mem, mem-filter, map-mem, mem-append_left, mem-append_right,
}
use agentic_development_fram.Base.Map
use agentic_development_fram.Base.Map.{Map}
use agentic_development_fram.Base.Map.Ascending.{keys_of}
use agentic_development_fram.Base.Sets.{set_map, set_of, set_of-nil}
use agentic_development_fram.Json.Value.{Value, as_str, as_object}
use agentic_development_fram.Contracts.Health.Freshness.{
  freshness_manifest, is_stale, stale_refs_for_outcome,
}

-- The outcome has a manifest, which records the current digest of each of its references, and
-- records the references that it must.
pub record IsCurrent (outcome result : Value) (current_digests : Map String)
    (required_refs : List String) : Type 0 where
  pub references : Map Value
  pub of_manifest : and_then (freshness_manifest outcome result) as_object ≡ some references
  pub is_current :
      (reference : String) (digest : Value)
      → Memᴰ (reference, digest) references
      → Map.get reference current_digests ≡ as_str digest
  pub has_required :
      (reference : String)
      → Memᴰ reference required_refs
      → is_some (Map.get reference references) ≡ true

text_option-equal : (a b : Option String) → text_option_eq a b ≡ true → a ≡ b
text_option-equal none none h = refl
text_option-equal (some s) (some t) h = ap some (eq_of_== s t h)
text_option-equal none (some t) h = cc
text_option-equal (some s) none h = cc

text_option_self : (a b : Option String) → a ≡ b → text_option_eq a b ≡ true
text_option_self none b h = rw (sym h) refl
text_option_self (some s) b h = rw (sym h) (==-self s)

no_members : {A : Type 0} (xs : List A) → ((x : A) → ¬ Memᴰ x xs) → xs ≡ []
no_members [] h = refl
no_members (x ∷ xs) h = absurd (h x (Memᴰ.head refl))

append_nil : {A : Type 0} (xs ys : List A) → xs ≡ [] → ys ≡ [] → xs ++ ys ≡ []
append_nil xs ys p q = rw p q

filter_nil :
    {A : Type 0} (p : A → Bool) (xs : List A)
    → ((x : A) → Memᴰ x xs → p x ≡ false)
    → filter p xs ≡ []
filter_nil p xs h = no_members (filter p xs) λ x m. let (n, e) = filter-mem p xs m in cc (h x n, e)

not-of : (b : Bool) → (not b ≡ true → ⊥) → b ≡ true
not-of true h = refl
not-of false h = absurd (h refl)

module _ (outcome result : Value) (current_digests : Map String) (required_refs : List String) where
  abbrev missing : Map Value → List String
  missing references =
      filter (λ reference. not (is_some (Map.get reference references))) required_refs

  sound :
      stale_refs_for_outcome outcome result current_digests required_refs ≡ []
      → IsCurrent outcome result current_digests required_refs
  unfolding stale_refs_for_outcome
  sound h = elim (Option-cases (and_then (freshness_manifest outcome result) as_object)) [
    | inl e ↦ cc (rw (e, stale_refs_for_outcome) at h)
    | inr (references, e) ↦
        let none_left =
          set_of-nil (keys_of (filter (is_stale current_digests) references) ++ missing references)
            (rw (e, stale_refs_for_outcome) at h) in
        record {
          references = references;
          of_manifest = e;
          is_current = λ reference digest m.
              text_option-equal (Map.get reference current_digests) (as_str digest) (
                not-of _ λ s.
                  elim (rw none_left at (
                    mem-append_left (keys_of (filter (is_stale current_digests) references))
                      (missing references)
                      (map-mem (λ (x : String × Value). x.0) _
                        (mem-filter (is_stale current_digests) references m s)))) [ ]);
          has_required = λ reference m. not-of _ λ s.
              elim (rw none_left at (
                mem-append_right (keys_of (filter (is_stale current_digests) references))
                  (missing references)
                  (mem-filter (λ reference. not (is_some (Map.get reference references)))
                    required_refs m s))) [ ];
        }
  ]

  complete :
      IsCurrent outcome result current_digests required_refs
      → stale_refs_for_outcome outcome result current_digests required_refs ≡ []
  unfolding stale_refs_for_outcome set_map
  complete c =
      rw (c.of_manifest, stale_refs_for_outcome)
        (ap set_of (
          append_nil (keys_of (filter (is_stale current_digests) c.references))
            (missing c.references)
            (ap keys_of (
              filter_nil (is_stale current_digests) c.references λ (reference, digest) m.
                ap not (text_option_self _ _ (c.is_current reference digest m))))
            (filter_nil (λ reference. not (is_some (Map.get reference c.references))) required_refs
              λ reference m. ap not (c.has_required reference m))))

-- No reference is stale exactly if the verification is current.
pub stale_refs_for_outcome-nil :
    (outcome result : Value) (current_digests : Map String) (required_refs : List String)
    → (stale_refs_for_outcome outcome result current_digests required_refs ≡ [])
      ↔ IsCurrent outcome result current_digests required_refs
stale_refs_for_outcome-nil outcome result current_digests required_refs = (
  sound outcome result current_digests required_refs,
  complete outcome result current_digests required_refs,
)
