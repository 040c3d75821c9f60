-- ===== src/Delivery/Inventory/Listed.antt =====
-- A release holds the files of its inventory, and no others (`verify_file_inventory` of
-- src/delivery.rs).
use mathlib.Core.List.Memᴰ
use agentic_development_fram.Base.{
  String, true, Option, none, some, List, [], ◌∷◌, ◌≡◌, ◌≢◌, sym, ◌∙◌, ap, subst, ◌⊎◌, inl, inr,
  Memᴰ, ◌==◌, all, all-mem, and_then, Result, ok, ok_or, guard, >>=-eq-ok, ok_or-eq-ok, guard-eq-ok,
  Returns-ok, some-injective, &&-true, eq_of_==,
}
use agentic_development_fram.Base.Map
use agentic_development_fram.Base.Map.{Map}
use agentic_development_fram.Base.Map.Ascending.{keys_of}
use agentic_development_fram.Contracts.Scope.{member}
use agentic_development_fram.Contracts.Members.{member-mem}
use agentic_development_fram.Json.Value.{Value, as_array}
use agentic_development_fram.Schema.Validate.Conforms.{IsDistinct}
use agentic_development_fram.Delivery.Fields.{same_set}
use agentic_development_fram.Delivery.Inventory.{
  Entries, Files, visit, collect_release_files, expected_files, check_digests,
  verify_file_inventory,
}
use agentic_development_fram.Delivery.Inventory.Walk.{
  release_files, put_all, visit-files, paths_of, put_all-get, put_all-mem,
}
use agentic_development_fram.Delivery.Inventory.Expected.{IsFileEntry, expected_files-exact}

-- Each file of the map could be read, and has the digest that is expected.
check_digests-each :
    (expected : Map String) (fs : List (String × Result String String)) {u : Unit {0}}
    → check_digests expected fs ≡ ok u
    → (k : String) (r : Result String String) → Memᴰ (k, r) fs
    → (digest : String) × (r ≡ ok digest) × (Map.get k expected ≡ some digest)
unfolding check_digests
check_digests-each expected [] h k r m = elim m [ ]
check_digests-each expected ((path, file_digest) ∷ fs) h k r m =
    let (actual, a, h) = >>=-eq-ok file_digest _ h in
    let (digest, b, h) = >>=-eq-ok (ok_or (Map.get path expected) _) _ h in
    let (u, c, h) = >>=-eq-ok (guard (actual == digest) _) _ h in
    let same = eq_of_== actual digest (guard-eq-ok (actual == digest) _ c) in
    elim (Memᴰ.cases_cons m) [
      | inl q ↦
          subst
            (λ (f : String × Result String String).
              (digest : String) × (f.1 ≡ ok digest) × (Map.get f.0 expected ≡ some digest))
            (sym q) (digest, a ∙ ap ok same, ok_or-eq-ok (Map.get path expected) _ b)
      | inr t ↦ check_digests-each expected fs h k r t
    ]

-- The files of a release are those of its manifest's inventory.
pub record IsExact (root : Entries) (manifest : Map Value) : Type 0 where
  pub values : List Value
  pub of_files : and_then (Map.get "files" manifest) as_array ≡ some values
  pub each_is_there :
      (value : Value)
      → Memᴰ value values
      → (path : String) × (digest : String) × IsFileEntry value path digest
        × Memᴰ (path, ok digest) (release_files root)
  pub each_is_listed :
      IsDistinct (paths_of (release_files root))
      → (path : String) (r : Result String String) → Memᴰ (path, r) (release_files root)
      → path ≢ "release.yaml"
      → (digest : String) × (r ≡ ok digest)
        × ((value : Value) × Memᴰ value values × IsFileEntry value path digest)

-- If the inventory of a release is verified, then every entry of it is a file of the release with
-- that digest; and, as long as no two files are read under one path, every file of the release but
-- the manifest is an entry with its digest.
pub verify_file_inventory-IsExact :
    (root : Entries) (manifest : Map Value) {u : Unit {0}}
    → verify_file_inventory root manifest ≡ ok u
    → IsExact root manifest
unfolding verify_file_inventory collect_release_files Map.get
verify_file_inventory-IsExact root manifest h =
    let (values, a, h) = >>=-eq-ok (ok_or (and_then (Map.get "files" manifest) as_array) _) _ h in
    let (expected, b, h) = >>=-eq-ok (expected_files values []) _ h in
    let (actual, c, h) = >>=-eq-ok (visit "" root []) _ h in
    let (u, d, h) = >>=-eq-ok (guard (same_set (keys_of actual) (keys_of expected)) _) _ h in
    exact values expected actual (ok_or-eq-ok (and_then (Map.get "files" manifest) as_array) _ a) b
      (Returns-ok _ (visit-files "" root []) c) (guard-eq-ok _ _ d) h
  where
    exact :
        (values : List Value) (expected : Map String) (actual : Files) {u : Unit {0}}
        → and_then (Map.get "files" manifest) as_array ≡ some values
        → expected_files values [] ≡ ok expected
        → actual ≡ put_all [] (release_files root)
        → same_set (keys_of actual) (keys_of expected) ≡ true
        → check_digests expected actual ≡ ok u
        → IsExact root manifest
    exact values expected actual o e collected same h =
        let (kept, has, only) = expected_files-exact values [] e in
        let (l, r) = &&-true (all (λ s. member s (keys_of expected)) (keys_of actual)) _ same in
        record {
          values = values;
          of_files = o;
          each_is_there = λ value m.
              let (path, digest, is_entry, g) = has value m in
              let listed =
                all-mem (λ s. member s (keys_of actual)) (keys_of expected) r
                  (Map.get-mem path expected g).1 in
              let (found, f) = Map.get-key path actual (member-mem path (keys_of actual) listed) in
              let (other, q, k) =
                check_digests-each expected actual h path found (Map.get-mem path actual f).0 in
              (
                path,
                digest,
                is_entry,
                in_release path digest found other (rw collected at f) q (sym k ∙ g),
              );
          each_is_listed = λ distinct path r m n.
              let g : Map.get path actual ≡ some r =
                rw collected (put_all-get [] (release_files root) path r distinct m n) in
              let (digest, q, k) =
                check_digests-each expected actual h path r (Map.get-mem path actual g).0 in
              (digest, q, listed_entry path digest (only path digest k));
        }
      where
        listed_entry :
            (path digest : String)
            → (Path (Option String) none (some digest))
              ⊎ ((v : Value) × Memᴰ v values × IsFileEntry v path digest)
            → (v : Value) × Memᴰ v values × IsFileEntry v path digest
        listed_entry path digest (inl e) = cc
        listed_entry path digest (inr x) = x

        in_release :
            (path digest : String) (found : Result String String) (other : String)
            → Map.get path (put_all [] (release_files root)) ≡ some found
            → found ≡ ok other
            → Path (Option String) (some other) (some digest)
            → Memᴰ (path, ok digest) (release_files root)
        in_release path digest found other f q e =
            elim (put_all-mem [] (release_files root) path found f) [
              | inr n ↦ cc
              | inl m ↦
                  subst (λ r. Memᴰ (path, r) (release_files root)) (q ∙ ap ok (some-injective e)) m
            ]
