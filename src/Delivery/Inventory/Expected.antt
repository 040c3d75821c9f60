-- ===== src/Delivery/Inventory/Expected.antt =====
-- The files that the signed inventory expects (`verify_file_inventory` of src/delivery.rs).
use mathlib.Core.List.Memᴰ
use agentic_development_fram.Base.{
  String, true, not, Option, none, some, List, [], ◌∷◌, ◌≡◌, refl, ◌⊎◌, inl, inr, Memᴰ, ◌==◌,
  and_then, is_some, ok, ok_or, >>=-eq-ok, ok_or-eq-ok, Returns, Returns-bind, Returns-guard,
  Returns-ok, returns, ok-injective, ==-self, arith, eq_iff,
}
use agentic_development_fram.Base.Map
use agentic_development_fram.Base.Map.{Map}
use agentic_development_fram.Json.Value.{Value, as_str, as_object, string_field}
use agentic_development_fram.Json.Lookup.{object-value}
use agentic_development_fram.Delivery.Fields.{
  assert_exact_fields, required_string, validate_sha256, validate_relative_path,
}
use agentic_development_fram.Delivery.Inventory.{add_file, expected_files}

-- An entry of the inventory, with the path and the digest that it names.
abbrev pub IsFileEntry : Value → String → String → Type 0
IsFileEntry value path digest =
    (string_field value "path" ≡ some path) × (string_field value "digest" ≡ some digest)

field_of :
    (value : Value) {object : Map Value}
    → as_object value ≡ some object
    → (name : String) {s : String} → and_then (Map.get name object) as_str ≡ some s
    → string_field value name ≡ some s
unfolding string_field
field_of value o name e = rw (object-value value o name) e

-- What is added for an entry, which was not there.
abbrev IsAdded : Value → Map String → Map String → Type 0
IsAdded value expected added =
    (path : String) × (digest : String) × IsFileEntry value path digest
    × (Map.get path expected ≡ none)
    × (added ≡ Map.insert path digest expected)

add_file-IsAdded :
    (value : Value) (expected : Map String)
    → Returns (IsAdded value expected) (add_file value expected)
unfolding add_file required_string
add_file-IsAdded value expected = Returns-bind (ok_or (as_object value) _) _ λ object a.
    Returns-bind (assert_exact_fields object ("path" ∷ "digest" ∷ [])) _ λ u b.
      Returns-bind (ok_or (and_then (Map.get "path" object) as_str) _) _ λ path c.
        Returns-guard (not (path == "release.yaml")) _ _ λ not_manifest.
          Returns-bind (validate_relative_path path) _ λ v d.
            Returns-bind (ok_or (and_then (Map.get "digest" object) as_str) _) _ λ digest e.
              Returns-bind (validate_sha256 digest) _ λ w f.
                Returns-guard (not (is_some (Map.get path expected))) _ _ λ new_path.
                  let o = ok_or-eq-ok (as_object value) _ a in
                  returns (
                    path,
                    digest,
                    (
                      field_of value o "path"
                          (ok_or-eq-ok (and_then (Map.get "path" object) as_str) _ c),
                      field_of value o "digest"
                          (ok_or-eq-ok (and_then (Map.get "digest" object) as_str) _ e),
                    ),
                    absent (Map.get path expected) new_path,
                    refl,
                  )
  where
    absent : (o : Option String) → not (is_some o) ≡ true → o ≡ none
    absent none h = refl
    absent (some s) h = cc

-- The expected files are those of the entries: each entry has its path and digest in the map, and
-- the map has nothing else.
pub expected_files-exact :
    (values : List Value) (expected : Map String) {all_files : Map String}
    → expected_files values expected ≡ ok all_files
    → ((k d : String) → Map.get k expected ≡ some d → Map.get k all_files ≡ some d)
      × ((v : Value)
          → Memᴰ v values
          → (path : String) × (digest : String) × IsFileEntry v path digest
            × (Map.get path all_files ≡ some digest))
      × ((k d : String)
          → Map.get k all_files ≡ some d
          → (Map.get k expected ≡ some d) ⊎ ((v : Value) × Memᴰ v values × IsFileEntry v k d))
unfolding expected_files
expected_files-exact [] expected {all_files} h =
    let same : expected ≡ all_files = ok-injective h in
    (λ k d e. rw (← same) e, λ v m. elim m [ ], λ k d e. inl (rw same e))
expected_files-exact (value ∷ values) expected {all_files} h =
    let (added, a, k) = >>=-eq-ok (add_file value expected) _ h in
    let (path, digest, is_entry, absent, inserted) =
      Returns-ok (IsAdded value expected) (add_file-IsAdded value expected) a in
    let (kept, has, only) = expected_files-exact values added k in
    let lookup = λ (j : String). Map.get-insert path j digest expected in
    (
      λ j d e. kept j d (rw inserted (ground (arith, lookup j, eq_iff path j, e, absent))),
      λ v m. elim (Memᴰ.cases_cons m) [
        | inl q ↦ (
          path,
          digest,
          (rw q is_entry.0, rw q is_entry.1),
          kept path digest (rw inserted (ground (arith, lookup path, ==-self path))),
        )
        | inr t ↦ has v t
      ],
      λ j d e. elim (only j d e) [
        | inr (v, m, f) ↦ inr (v, Memᴰ.tail m, f)
        | inl g ↦ elim (Map.insert-found path j digest expected (rw inserted at g)) [
          | inl (p, q) ↦ inr (value, Memᴰ.head refl, rw (← p, ← q) is_entry)
          | inr o ↦ inl o
        ]
      ],
    )
