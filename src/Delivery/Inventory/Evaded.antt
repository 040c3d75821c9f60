-- ===== src/Delivery/Inventory/Evaded.antt =====
-- Two files under one path (`collect_release_files` of src/delivery.rs).
use agentic_development_fram.Base.{String, [], ◌∷◌, ◌≡◌, refl, ok, ==-self}
use agentic_development_fram.Base.Map
use agentic_development_fram.Base.Map.{Map}
use agentic_development_fram.Json.Value.{Value, string, array, items, object, fields}
use agentic_development_fram.Delivery.Fields.{
  validate_sha256, assert_exact_fields, required_string, validate_relative_path, is_relative_path,
  split_path, rest_is_normal,
}
use agentic_development_fram.Delivery.Inventory.{
  Entries, end, entry, file, directory, verify_file_inventory, expected_files, add_file,
  collect_release_files, visit, replace_backslashes, check_digests,
}

-- The inventory of a release with the one file `a/b`.
abbrev pub one_file : String → Map Value
one_file digest =
    (
      "files",
      array
          (items (object (fields (("path", string "a/b") ∷ ("digest", string digest) ∷ [])) ∷ [])),
    )
    ∷ []

-- A release that holds `a/b` with other bytes, and beside the folder `a` a file of the name `a\b`
-- with the bytes that were signed.
abbrev pub two_files : String → String → Entries
two_files signed tampered =
    entry "a" (directory (entry "b" (file (ok tampered)) end)) (entry "a\\b" (file (ok signed)) end)

-- The inventory of a file `a/b` with a digest is verified whatever the digest of `a/b` in the
-- release is, if the release has a file of the name `a\b` with that digest: both are read under the
-- path `a/b`, and the second replaces the first.
pub inventory_evaded :
    (signed tampered : String)
    → validate_sha256 signed ≡ ok tt
    → verify_file_inventory (two_files signed tampered) (one_file signed) ≡ ok tt
unfolding verify_file_inventory Map.get expected_files add_file assert_exact_fields required_string
    validate_relative_path is_relative_path split_path rest_is_normal collect_release_files visit
    replace_backslashes Map.insert check_digests
inventory_evaded signed tampered h = rw (h, ==-self signed) refl
