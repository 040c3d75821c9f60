-- ===== src/Delivery/Release.antt =====
-- Resolving a release: `resolve_verified_release_for` of src/delivery.rs.
pub mod Verified
use agentic_development_fram.Base.{
  String, Bool, true, false, Option, none, some, List, [], ◌∷◌, ◌==◌, Result, ok, err, ok_or,
  map_err, guard, ◌>>=◌, ◌>>◌,
}
use agentic_development_fram.Json.Value.{Value}
use agentic_development_fram.Json.Canonical.{canonical_digest}
use agentic_development_fram.Schema.Registry.{SchemaRegistry}
use agentic_development_fram.Schema.Load.{SchemaFiles, RegistryError, load, schema_bundle_version}
use agentic_development_fram.Delivery.Fields.{
  required_lock_string, assert_safe_release_id, validate_relative_path,
}
use agentic_development_fram.Delivery.Trust.{TrustUse}
use agentic_development_fram.Delivery.Manifest.{Delivery, VerifiedManifest, verify_release_manifest}

-- Where a path of a release leads: outside the release's root, or to a YAML file with what
-- `read_yaml` gives for it, or to a directory of schemas.
pub data Asset : Type 0 where
  outside : Asset
  yaml_file : Result String Value → Asset
  schema_directory : SchemaFiles → Asset

-- A release that is found at its root: what it is checked against, and what its paths lead to. The
-- error of `canonicalize` is its text.
pub record Release : Type 0 where
  pub delivery : Delivery
  pub asset : String → Result String Asset

-- `FrameworkCatalog::with_release_source` of src/framework_detection.rs, whose catalog is `Catalog`.
pub record Catalogs : Type 1 where
  pub Catalog : Type 0
  pub built_in : Catalog
  pub with_release_source : Value → Result String Catalog

-- The root of the release is where it was found, and is left out.
pub record VerifiedRelease (catalogs : Catalogs) : Type 0 where
  pub release_id : String
  pub rule_source : Value
  pub schema_registry : SchemaRegistry
  pub framework_catalog : catalogs.Catalog

unfoldable pub release_asset_path : Release → String → Result String Asset
release_asset_path release relative =
    validate_relative_path relative
    >> (release.asset relative >>= λ asset. elim asset as (λ _. Result String Asset) [
      | outside ↦ err "Framework Release asset path escapes Release root"
      | yaml_file read ↦ ok (yaml_file read)
      | schema_directory files ↦ ok (schema_directory files)
    ])

-- `is_file` and `read_yaml`; `is_dir`.
unfoldable pub read_file : Asset → Result String Value
read_file (yaml_file read) = read
read_file outside = err "is not a file"
read_file (schema_directory files) = err "is not a file"

unfoldable pub is_file : Asset → Bool
is_file (yaml_file read) = true
is_file outside = false
is_file (schema_directory files) = false

unfoldable pub open_directory : Asset → Result String SchemaFiles
open_directory (schema_directory files) = ok files
open_directory outside = err "Framework Schema root is not a directory"
open_directory (yaml_file read) = err "Framework Schema root is not a directory"

-- The path of the catalog, if the manifest has one.
unfoldable pub catalog_asset : Release → Option String → Result String (Option Asset)
catalog_asset release none = ok none
catalog_asset release (some path) = release_asset_path release path >>= λ asset. ok (some asset)

unfoldable pub check_catalog_file : Option Asset → Result String (Unit {0})
check_catalog_file none = ok tt
check_catalog_file (some asset) = guard (is_file asset) "Framework Catalog is not a file"

unfoldable pub load_catalog :
    (catalogs : Catalogs) → Option Asset → Result String (catalogs.Catalog)
load_catalog catalogs none = ok catalogs.built_in
load_catalog catalogs (some asset) =
    read_file asset >>= λ source. catalogs.with_release_source source

-- The release is looked up by the lock's name or by an explicit path: `find` gives the directory, or
-- why there is none. `text` is the text of a registry's error.
unfoldable pub resolve_verified_release_for :
    (catalogs : Catalogs)
    → (RegistryError → String)
    → (String → Result String Release)
    → Value
    → TrustUse
    → Result String (VerifiedRelease catalogs)
resolve_verified_release_for catalogs text find framework_lock trust_use =
    required_lock_string framework_lock ("framework_release" ∷ []) >>= λ release_id.
    assert_safe_release_id release_id
    >> (find release_id >>= λ release.
        verify_release_manifest release.delivery framework_lock trust_use >>= λ manifest.
        release_asset_path release manifest.rules >>= λ rules.
        release_asset_path release manifest.schemas >>= λ schemas.
        catalog_asset release manifest.framework_catalog >>= λ catalog.
        guard (is_file rules) "Framework Rule source is not a file"
        >> (open_directory schemas >>= λ schema_files.
            check_catalog_file catalog
            >> (read_file rules >>= λ rule_source.
                map_err (λ e. "floating-point numbers are not supported")
                  (canonical_digest release.delivery.crates rule_source)
                >>= λ actual_rule_digest.
                    required_lock_string framework_lock ("rule_set" ∷ "source_digest" ∷ [])
                    >>= λ expected_rule_digest.
                        guard (actual_rule_digest == expected_rule_digest)
                          "Framework Rule source digest mismatch"
                        >> (required_lock_string framework_lock ("schema_bundle" ∷ "version" ∷ [])
                            >>= λ expected_schema_version.
                                guard (expected_schema_version == schema_bundle_version)
                                  "Framework Schema bundle version mismatch"
                                >> (map_err text (load release.delivery.crates schema_files)
                                    >>= λ registry.
                                        required_lock_string framework_lock
                                          ("schema_bundle" ∷ "digest" ∷ [])
                                        >>= λ expected_schema_digest.
                                            guard (registry.digest == expected_schema_digest)
                                              "Framework Schema bundle digest mismatch"
                                            >> (load_catalog catalogs catalog
                                                >>= λ framework_catalog. ok (record {
                                                  release_id = release_id;
                                                  rule_source = rule_source;
                                                  schema_registry = registry;
                                                  framework_catalog = framework_catalog;
                                                })))))))
