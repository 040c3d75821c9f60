-- ===== src/Kernel/Held.antt =====
-- What a merge of instances holds by key (`instantiate` of src/kernel.rs).
use agentic_development_fram.Base.{
  String, ◌≡◌, refl, sym, Memᴰ, mem-append_left, mem-append_right, ◌∙◌, ap, subst, inl, inr, some,
  [], ◌∷◌, ◌++◌, ◌==◌, ==-self, eq_of_==, ok, Bool-cases, Option-cases,
}
use agentic_development_fram.Base.Order.{sort, dedup}
use agentic_development_fram.Base.Order.Sorted.{mem-dedup-sort}
use agentic_development_fram.Base.Map
use agentic_development_fram.Base.Map.{Map, get-insert, get-mem}
use agentic_development_fram.Kernel.Types.{RequirementInstance}
use agentic_development_fram.Kernel.Selection.{merge_instance}

-- An instance with the key, and with that definition, is among the selected, and names the rule.
pub record IsHeld (key digest rule_id : String) (selected : Map RequirementInstance) : Type 0 where
  pub held : RequirementInstance
  pub found : Map.get key selected ≡ some held
  pub of_definition : held.definition_digest ≡ digest
  pub by_rule : Memᴰ rule_id held.selected_by

insert-IsHeld :
    (key digest rule_id : String) (selected : Map RequirementInstance) (k : String)
    (i : RequirementInstance)
    → (k ≡ key → (i.definition_digest ≡ digest) × Memᴰ rule_id i.selected_by)
    → IsHeld key digest rule_id selected
    → IsHeld key digest rule_id (Map.insert k i selected)
insert-IsHeld key digest rule_id selected k i h held = elim (Bool-cases (k == key)) [
  | inl e ↦ record {
    held = i;
    found = get-insert k key i selected ∙ rw e refl;
    of_definition = (h (eq_of_== k key e)).0;
    by_rule = (h (eq_of_== k key e)).1;
  }
  | inr e ↦ record {
    held = held.held;
    found = get-insert k key i selected ∙ (rw e held.found);
    of_definition = held.of_definition;
    by_rule = held.by_rule;
  }
]

inserted-IsHeld :
    (selected : Map RequirementInstance) (k : String) (i : RequirementInstance) {rule_id : String}
    → Memᴰ rule_id i.selected_by
    → IsHeld k i.definition_digest rule_id (Map.insert k i selected)
inserted-IsHeld selected k i m = record {
  held = i;
  found = get-insert k k i selected ∙ rw (==-self k) refl;
  of_definition = refl;
  by_rule = m;
}

-- A merge holds the new instance's key, definition and rule, and all that was held.
pub merge-IsHeld :
    (rule_id : String) (i : RequirementInstance) (selected : Map RequirementInstance)
    {selected' : Map RequirementInstance}
    → Memᴰ rule_id i.selected_by
    → merge_instance rule_id i selected ≡ ok selected'
    → IsHeld i.instance_key i.definition_digest rule_id selected'
      × ((key digest r : String) → IsHeld key digest r selected → IsHeld key digest r selected')
unfolding merge_instance
merge-IsHeld rule_id i selected {selected'} by e =
    elim (Option-cases (Map.get i.instance_key selected)) [
      | inl n ↦
          let q : Map.insert i.instance_key i selected ≡ selected' =
            cc (rw (n, merge_instance) at e) in
          (
            subst (IsHeld i.instance_key i.definition_digest rule_id) q
                (inserted-IsHeld selected i.instance_key i by),
            λ key digest r h. subst (IsHeld key digest r) q (
                insert-IsHeld key digest r selected i.instance_key i
                  (λ k. let p = h.found in cc (rw (← k) at p, n)) h),
          )
      | inr (existing, n) ↦ elim (Bool-cases (existing.definition_digest == i.definition_digest)) [
        | inr other ↦ cc (rw (n, merge_instance, other) at e)
        | inl same ↦
            let rules = dedup (sort (existing.selected_by ++ rule_id ∷ [])) in
            let q : Map.insert i.instance_key (record existing { selected_by = rules }) selected
                ≡ selected' =
              cc (rw (n, merge_instance, same) at e) in
            (
              subst (IsHeld i.instance_key i.definition_digest rule_id) q (
                  subst
                    (λ d. IsHeld i.instance_key d rule_id (
                      Map.insert i.instance_key (record existing { selected_by = rules }) selected))
                    (eq_of_== _ _ same)
                    (inserted-IsHeld selected i.instance_key
                      (record existing { selected_by = rules })
                      (mem-dedup-sort (existing.selected_by ++ rule_id ∷ [])
                        (mem-append_right existing.selected_by (rule_id ∷ []) (Memᴰ.head refl))))),
              λ key digest r h. subst (IsHeld key digest r) q (
                  insert-IsHeld key digest r selected i.instance_key
                    (record existing { selected_by = rules })
                    (λ k.
                      let p = h.found in
                      let held_eq : existing ≡ h.held = cc (rw (← k) at p, n) in
                      (
                        ap (λ (r : RequirementInstance). r.definition_digest) held_eq
                            ∙ h.of_definition,
                        mem-dedup-sort (existing.selected_by ++ rule_id ∷ []) (
                            mem-append_left existing.selected_by (rule_id ∷ []) (
                              subst (λ (e : RequirementInstance). Memᴰ r e.selected_by)
                                (sym held_eq) h.by_rule)),
                      ))
                    h),
            )
      ]
    ]
