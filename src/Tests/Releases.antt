-- ===== src/Tests/Releases.antt =====
-- A release that is resolved for its lock, and the theorem at it (`resolve_verified_release_for` of
-- src/delivery.rs).
use agentic_development_fram.Base.{
  String, [], ◌≡◌, refl, ok, err, Result, Returns, ◌==◌, if◌then◌else◌, decimal,
}
use agentic_development_fram.Base.Order.{sort_by}
use agentic_development_fram.Base.Map
use agentic_development_fram.Json.Value.{Value, string_field, get}
use agentic_development_fram.Json.Canonical.{
  canonical_digest, canonical_json, write_number, write_entries, join_items, write_canonical,
}
use agentic_development_fram.Kernel.Candidates.{json_object}
use agentic_development_fram.Schema.Load.{RegistryError}
use agentic_development_fram.Delivery.Fields.{
  required_lock_string, assert_safe_release_id, is_safe_release_id, validate_relative_path,
  is_relative_path, split_path, rest_is_normal,
}
use agentic_development_fram.Delivery.Trust.{runtime}
use agentic_development_fram.Delivery.Release.{
  outside, yaml_file, schema_directory, Release, Catalogs, release_asset_path, read_file, is_file,
  open_directory, catalog_asset, check_catalog_file, load_catalog, resolve_verified_release_for,
}
use agentic_development_fram.Delivery.Release.Verified.{
  IsVerified, resolve_verified_release_for-IsVerified,
}
use agentic_development_fram.Tests.Documents.{test_files, test_registry, load_run}
use agentic_development_fram.Tests.Deliveries.{test_delivery, test_lock, released_run}

-- A catalog that is the source it is made of.
abbrev test_catalogs : Catalogs
test_catalogs = record {
  Catalog = Value;
  built_in = json_object [];
  with_release_source = λ source. ok source;
}

abbrev test_release : Release
test_release = record {
  delivery = test_delivery;
  asset = λ path.
      if path == "rules.yaml"
      then ok (yaml_file (ok (json_object [])))
      else if path == "schemas"
      then ok (schema_directory test_files)
      else ok outside;
}

abbrev find_release : String → Result String Release
find_release id = if id == "r1" then ok test_release else err "not found"

abbrev error_text : RegistryError → String
error_text e = "schema registry"

verified_run :
    resolve_verified_release_for test_catalogs error_text find_release test_lock runtime
    ≡ ok (record {
      release_id = "r1";
      rule_source = json_object [];
      schema_registry = test_registry;
      framework_catalog = json_object [];
    })
unfolding resolve_verified_release_for required_lock_string assert_safe_release_id
    is_safe_release_id release_asset_path validate_relative_path is_relative_path split_path
    rest_is_normal read_file is_file open_directory catalog_asset check_catalog_file load_catalog
    canonical_digest canonical_json write_canonical write_number write_entries join_items decimal
    sort_by Map.get get
verified_run = rw released_run (rw load_run refl)

resolve_verified_release_for-IsVerified_example :
    Returns
      (IsVerified test_catalogs find_release test_lock runtime)
      (resolve_verified_release_for test_catalogs error_text find_release test_lock runtime)
unfolding string_field get Map.get
resolve_verified_release_for-IsVerified_example =
    resolve_verified_release_for-IsVerified test_catalogs error_text find_release test_lock runtime
      refl
