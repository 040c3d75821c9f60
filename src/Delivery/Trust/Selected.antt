-- ===== src/Delivery/Trust/Selected.antt =====
-- The entry that the loop over the keys selects (`trusted_key` of src/delivery.rs).
use mathlib.Core.List.Memᴰ
use agentic_development_fram.Base.{
  String, Bool, true, false, Option, none, some, List, [], ◌∷◌, ◌≡◌, ◌≢◌, refl, sym, ◌∙◌, subst,
  inl, inr, Memᴰ, Returns-ok, ok, ◌==◌, >>=-eq-ok, ok-injective, some-injective, eq_of_==,
  if◌then◌else◌, ne_of_==,
}
use agentic_development_fram.Contracts.Scope.{member}
use agentic_development_fram.Json.Value.{Value, string_field}
use agentic_development_fram.Contracts.Members.{mem-member}
use agentic_development_fram.Delivery.Trust.{SelectedKey, read_key, select_key}
use agentic_development_fram.Delivery.Trust.Entries.{IsKeyEntry, IsRead, read_key-IsRead}

-- The entry names the id.
abbrev HasId : String → Value → Type 0
HasId id value = string_field value "id" ≡ some id

same_id : {id other : String} (value : Value) → HasId id value → HasId other value → id ≡ other
same_id value p q = some-injective (sym p ∙ q)

-- Once the id is seen, no later entry has it.
select_key-seen :
    (schema_version id : String) (seen : List String) (selected : Option SelectedKey)
    (values : List Value) {out : Option SelectedKey}
    → Memᴰ id seen
    → select_key schema_version id seen selected values ≡ ok out
    → (out ≡ selected) × ((other : Value) → Memᴰ other values → ¬ HasId id other)
unfolding select_key
select_key-seen schema_version id seen selected [] {out} m h =
    (sym (ok-injective h), λ other n. elim n [ ])
select_key-seen schema_version id seen selected (value ∷ values) {out} m h =
    let (key, r, k) = >>=-eq-ok (read_key schema_version seen value) _ h in
    let (entry, unseen) =
      Returns-ok (IsRead schema_version seen value) (read_key-IsRead schema_version seen value) r in
    let other_id : key.0 ≢ id =
      λ e. cc (subst (λ x. member x seen ≡ false) e unseen, mem-member id seen m) in
    let (same, none_after) =
      select_key-seen schema_version id (key.0 ∷ seen) _ values (Memᴰ.tail m) k in
    (
      same ∙ not_selected key (key.0 == id) refl other_id,
      λ other n. elim (Memᴰ.cases_cons n) [
        | inl q ↦ λ h. other_id (same_id value entry.has_id (subst (HasId id) q h))
        | inr t ↦ none_after other t
      ],
    )
  where
    not_selected :
        (key : String × SelectedKey) (b : Bool)
        → (key.0 == id) ≡ b
        → key.0 ≢ id
        → (if b then some key.1 else selected) ≡ selected
    not_selected key true e n = absurd (n (eq_of_== key.0 id e))
    not_selected key false e n = refl

-- The entry of the id: an entry of the store, and the only one with that id.
pub record IsSelected (schema_version id : String) (values : List Value) (key : SelectedKey)
    : Type 0 where
  pub entry : Value
  pub in_store : Memᴰ entry values
  pub is_entry : IsKeyEntry schema_version entry id key
  pub only_entry :
      (other : Value) → Memᴰ other values → string_field other "id" ≡ some id → other ≡ entry

pub select_key-IsSelected :
    (schema_version id : String) (seen : List String) (values : List Value) {key : SelectedKey}
    → select_key schema_version id seen none values ≡ ok (some key)
    → IsSelected schema_version id values key
unfolding select_key
select_key-IsSelected schema_version id seen [] h = cc
select_key-IsSelected schema_version id seen (value ∷ values) {key} h =
    let (read, r, k) = >>=-eq-ok (read_key schema_version seen value) _ h in
    let (entry, unseen) =
      Returns-ok (IsRead schema_version seen value) (read_key-IsRead schema_version seen value) r in
    by_id read entry (read.0 == id) refl k
      (select_key-IsSelected schema_version id (read.0 ∷ seen) values)
  where
    by_id :
        (read : String × SelectedKey)
        → IsKeyEntry schema_version value read.0 read.1
        → (b : Bool) → (read.0 == id) ≡ b
        → select_key schema_version id (read.0 ∷ seen) (if b then some read.1 else none) values
          ≡ ok (some key)
        → (select_key schema_version id (read.0 ∷ seen) none values ≡ ok (some key)
            → IsSelected schema_version id values key)
        → IsSelected schema_version id (value ∷ values) key
    by_id read entry true e h ih =
        let q = eq_of_== read.0 id e in
        let (same, none_after) =
          select_key-seen schema_version id (read.0 ∷ seen) (some read.1) values (Memᴰ.head (sym q))
            h in
        record {
          entry = value;
          in_store = Memᴰ.head refl;
          is_entry =
              subst (λ k. IsKeyEntry schema_version value id k) (sym (some-injective same))
                (subst (λ i. IsKeyEntry schema_version value i read.1) q entry);
          only_entry = λ other m p. elim (Memᴰ.cases_cons m) [
            | inl q ↦ q
            | inr t ↦ absurd (none_after other t p)
          ];
        }
    by_id read entry false e h ih =
        let rest = ih h in
        record {
          entry = rest.entry;
          in_store = Memᴰ.tail rest.in_store;
          is_entry = rest.is_entry;
          only_entry = λ other m p. elim (Memᴰ.cases_cons m) [
            | inl q ↦
                absurd (ne_of_== read.0 id e (same_id value entry.has_id (subst (HasId id) q p)))
            | inr t ↦ rest.only_entry other t p
          ];
        }
