-- ===== src/Delivery/Inventory.antt =====
-- The files of a release: `collect_release_files` and `verify_file_inventory` of src/delivery.rs.
pub mod Walk
pub mod Expected
pub mod Listed
pub mod Evaded
use Prim.Native.Char.{code}
use agentic_development_fram.Base.{
  String, Bool, true, false, not, ◌&&◌, Option, none, some, List, [], ◌∷◌, ◌==◌, ◌<>◌, all,
  and_then, is_some, nat_eq, map, Result, ok, err, ok_or, guard, ◌>>=◌, ◌>>◌, if◌then◌else◌,
}
use agentic_development_fram.Base.Map
use agentic_development_fram.Base.Map.{Map}
use agentic_development_fram.Base.Map.Ascending.{keys_of}
use agentic_development_fram.Json.Value.{Value, as_str, as_array, as_object}
use agentic_development_fram.Delivery.Fields.{
  same_set, assert_exact_fields, required_string, validate_sha256, validate_relative_path,
}

-- A directory, its entries in the order of their names. Of a file the release's check sees only what
-- `raw_file_digest` gives: the digest of its bytes, or that they cannot be read. A
-- directory that cannot be listed is `unreadable`.
mutual
  pub data Entry : Type 0 where
    file : Result String String → Entry
    directory : Entries → Entry
    symlink special : Entry
    unreadable : String → Entry

  pub data Entries : Type 0 where
    end : Entries
    entry : String → Entry → Entries → Entries

-- `replace('\\', "/")`
unfoldable pub replace_backslashes : String → String
replace_backslashes String.[] = ""
replace_backslashes (String.◌∷◌ c s) =
    let rest = replace_backslashes s in
    if nat_eq (code c) 92 then "/" <> rest else String.◌∷◌ c rest

abbrev pub Files : Type 0
Files = Map (Result String String)

-- `visit`: a file is put in the map by its path below the root, but for the manifest itself.
unfoldable mutual
  pub visit : String → Entries → Files → Result String Files
  visit prefix end output = ok output
  visit prefix (entry name e rest) output =
      visit_entry (prefix <> name) e output >>= λ visited. visit prefix rest visited

  pub visit_entry : String → Entry → Files → Result String Files
  visit_entry path (file digest) output =
      let relative = replace_backslashes path in
      ok (if relative == "release.yaml" then output else Map.insert relative digest output)
  visit_entry path (directory entries) output = visit (path <> "/") entries output
  visit_entry path symlink output = err "Framework Release must not contain symlinks"
  visit_entry path special output = err "Framework Release contains an unsupported filesystem entry"
  visit_entry path (unreadable error) output = err error

unfoldable pub collect_release_files : Entries → Result String Files
collect_release_files root = visit "" root []

-- An entry of the signed inventory.
unfoldable pub add_file : Value → Map String → Result String (Map String)
add_file value expected =
    ok_or (as_object value) "Framework Release file entry must be a mapping" >>= λ entry.
    assert_exact_fields entry ("path" ∷ "digest" ∷ [])
    >> (required_string entry "path" >>= λ relative.
        guard (not (relative == "release.yaml"))
          "release.yaml must not appear in the signed file inventory"
        >> (validate_relative_path relative
            >> (required_string entry "digest" >>= λ digest.
                validate_sha256 digest
                >> (guard (not (is_some (Map.get relative expected)))
                      "duplicate Framework Release file path"
                    >> ok (Map.insert relative digest expected)))))

unfoldable pub expected_files : List Value → Map String → Result String (Map String)
expected_files [] expected = ok expected
expected_files (value ∷ values) expected =
    add_file value expected >>= λ added. expected_files values added

-- The loop over the actual files.
unfoldable pub check_digests :
    Map String → List (String × Result String String) → Result String (Unit {0})
check_digests expected [] = ok tt
check_digests expected ((relative, file_digest) ∷ files) = file_digest >>= λ actual.
    ok_or (Map.get relative expected) "no entry found for key" >>= λ digest.
    guard (actual == digest) "Framework Release file digest mismatch"
    >> check_digests expected files

unfoldable pub verify_file_inventory : Entries → Map Value → Result String (Unit {0})
verify_file_inventory root manifest =
    ok_or (and_then (Map.get "files" manifest) as_array) "Framework Release files must be an array"
    >>= λ files. expected_files files [] >>= λ expected. collect_release_files root >>= λ actual.
        guard (same_set (keys_of actual) (keys_of expected))
          "Framework Release file inventory mismatch"
        >> check_digests expected actual
