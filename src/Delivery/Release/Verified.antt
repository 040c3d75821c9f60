-- ===== src/Delivery/Release/Verified.antt =====
-- What a release that is resolved has (`resolve_verified_release_for` of src/delivery.rs).
use agentic_development_fram.Base.{
  String, true, Option, none, some, >>=-eq-ok, ok-injective, subst, [], ◌∷◌, ◌≡◌, sym, ◌∙◌, ap,
  ◌==◌, Result, ok, map_err, Returns, Returns-bind, Returns-guard, returns, map_err-eq-ok, eq_of_==,
}
use agentic_development_fram.Json.Value.{Value, object, string, field, end, fields, string_field}
use agentic_development_fram.Json.Canonical.{Crates, CanonicalError, canonical_digest}
use agentic_development_fram.Schema.Registry.{SchemaRegistry}
use agentic_development_fram.Schema.Load.{SchemaFiles, RegistryError, load, schema_bundle_version}
use agentic_development_fram.Schema.Load.Loaded.{IsLoaded, load-IsLoaded}
use agentic_development_fram.Schema.Load.Read.{IsRead, load-IsRead}
use agentic_development_fram.Delivery.Fields.{required_lock_string, assert_safe_release_id}
use agentic_development_fram.Delivery.Trust.{TrustUse}
use agentic_development_fram.Delivery.Manifest.{
  VerifiedManifest, verify_release_manifest, signed_framework_lock_schema_version,
}
use agentic_development_fram.Delivery.Manifest.Released.{
  IsReleased, verify_release_manifest-IsReleased,
}
use agentic_development_fram.Delivery.Release.{
  Asset, Release, Catalogs, VerifiedRelease, release_asset_path, read_file, is_file, open_directory,
  catalog_asset, check_catalog_file, load_catalog, resolve_verified_release_for,
}

-- The framework catalog is the program's own where the manifest names none, and else is made of the
-- file of the release that it names.
unfoldable pub HasCatalog :
    (catalogs : Catalogs) → Release → Option String → catalogs.Catalog → Type 0
HasCatalog catalogs release none catalog = catalog ≡ catalogs.built_in
HasCatalog catalogs release (some path) catalog =
    (asset : Asset) × (source : Value) × (release_asset_path release path ≡ ok asset)
    × (read_file asset ≡ ok source)
    × (catalogs.with_release_source source ≡ ok catalog)

load_catalog-HasCatalog :
    (catalogs : Catalogs) (release : Release) (named : Option String) {asset : Option Asset}
    {catalog : catalogs.Catalog}
    → catalog_asset release named ≡ ok asset
    → load_catalog catalogs asset ≡ ok catalog
    → HasCatalog catalogs release named catalog
unfolding HasCatalog catalog_asset load_catalog
load_catalog-HasCatalog catalogs release none {asset} {catalog} e f =
    let q : none ≡ asset = ok-injective e in
    let g = subst (λ a. load_catalog catalogs a ≡ ok catalog) (sym q) f in sym (ok-injective g)
load_catalog-HasCatalog catalogs release (some path) {asset} {catalog} e f =
    let (found, a, b) = >>=-eq-ok (release_asset_path release path) _ e in
    let q : some found ≡ asset = ok-injective b in
    let g = subst (λ a. load_catalog catalogs a ≡ ok catalog) (sym q) f in
    let (source, c, d) = >>=-eq-ok (read_file found) _ g in (found, source, a, c, d)

-- The release of the lock's name, authentic, with the rules and the schemas that the lock pins.
pub record IsVerified (catalogs : Catalogs) (find : String → Result String Release)
    (framework_lock : Value) (trust_use : TrustUse) (verified : VerifiedRelease catalogs)
    : Type 0 where
  pub release : Release
  pub manifest : VerifiedManifest
  pub of_lock :
      required_lock_string framework_lock ("framework_release" ∷ []) ≡ ok verified.release_id
  pub found : find verified.release_id ≡ ok release
  pub is_released : IsReleased release.delivery framework_lock trust_use manifest
  pub rules : Asset
  pub of_rules : release_asset_path release manifest.rules ≡ ok rules
  pub of_source : read_file rules ≡ ok verified.rule_source
  pub is_pinned_source :
      Path
        (Result String String)
        (map_err
          (λ (e : CanonicalError). "floating-point numbers are not supported")
          (canonical_digest release.delivery.crates verified.rule_source))
        (required_lock_string framework_lock ("rule_set" ∷ "source_digest" ∷ []))
  pub schemas : Asset
  pub of_schemas : release_asset_path release manifest.schemas ≡ ok schemas
  pub schema_files : SchemaFiles
  pub of_files : open_directory schemas ≡ ok schema_files
  pub is_loaded : IsLoaded verified.schema_registry
  pub is_read : IsRead release.delivery.crates schema_files verified.schema_registry
  pub is_pinned_schema :
      Path
        (Result String String)
        (map_err
          (λ (e : CanonicalError). "floating-point numbers are not supported")
          (canonical_digest release.delivery.crates (
            object (
              field "bundle_version" (string schema_bundle_version) (
                field "record_schemas" (object (fields verified.schema_registry.record_schemas)) (
                  field "result_payload_schemas"
                    (object (fields verified.schema_registry.result_payload_schemas))
                    end))))))
        (required_lock_string framework_lock ("schema_bundle" ∷ "digest" ∷ []))
  pub is_pinned_version :
      required_lock_string framework_lock ("schema_bundle" ∷ "version" ∷ [])
      ≡ ok schema_bundle_version
  pub has_catalog :
      HasCatalog catalogs release manifest.framework_catalog verified.framework_catalog

same_digest :
    (a b : Result String String) {x y : String} → a ≡ ok x → b ≡ ok y → (x == y) ≡ true → a ≡ b
same_digest a b {x} {y} p q h = p ∙ ap ok (eq_of_== x y h) ∙ sym q

-- The digest of a registry is that of its version and all its schemas.
digest_of_bundle :
    (crates : Crates) (files : SchemaFiles) {registry : SchemaRegistry}
    → IsRead crates files registry
    → map_err {F = String}
        (λ (e : CanonicalError). "floating-point numbers are not supported")
        (canonical_digest crates (
          object (
            field "bundle_version" (string schema_bundle_version) (
              field "record_schemas" (object (fields registry.record_schemas)) (
                field "result_payload_schemas"
                  (object (fields registry.result_payload_schemas))
                  end)))))
      ≡ ok registry.digest
digest_of_bundle crates files r =
    ap (map_err {F = String} (λ (e : CanonicalError). "floating-point numbers are not supported"))
      r.of_digest

-- A release that is resolved for a signed lock is the one that the lock names, and is authentic.
-- The source of its rules is read from the release and has the digest that the lock pins. Its schemas
-- are the contents of the release's schema files, for each kind of Record and for each file of a
-- result's payload, and no others. Each expected schema is there, and the version of the bundle is
-- the one that the lock pins, and the digest of the version with all these schemas is the pinned one.
-- Its framework catalog is made of the file that the manifest names, or is the program's own.
pub resolve_verified_release_for-IsVerified :
    (catalogs : Catalogs) (text : RegistryError → String) (find : String → Result String Release)
    (framework_lock : Value) (trust_use : TrustUse)
    → string_field framework_lock "schema_version" ≡ some signed_framework_lock_schema_version
    → Returns
        (IsVerified catalogs find framework_lock trust_use)
        (resolve_verified_release_for catalogs text find framework_lock trust_use)
unfolding resolve_verified_release_for
resolve_verified_release_for-IsVerified catalogs text find framework_lock trust_use version =
    Returns-bind (required_lock_string framework_lock ("framework_release" ∷ [])) _ λ release_id a.
      Returns-bind (assert_safe_release_id release_id) _ λ u b.
        Returns-bind (find release_id) _ λ release c.
          Returns-bind (verify_release_manifest release.delivery framework_lock trust_use) _
            λ manifest d. Returns-bind (release_asset_path release manifest.rules) _ λ rules e.
              Returns-bind (release_asset_path release manifest.schemas) _ λ schemas f.
                Returns-bind (catalog_asset release manifest.framework_catalog) _ λ catalog g.
                  Returns-guard (is_file rules) _ _ λ i.
                    Returns-bind (open_directory schemas) _ λ schema_files j.
                      Returns-bind (check_catalog_file catalog) _ λ v k.
                        Returns-bind (read_file rules) _ λ rule_source l.
                          Returns-bind
                            (map_err
                              (λ (e : CanonicalError). "floating-point numbers are not supported")
                              (canonical_digest release.delivery.crates rule_source))
                            _
                            λ actual m.
                              Returns-bind
                                (required_lock_string framework_lock
                                  ("rule_set" ∷ "source_digest" ∷ []))
                                _
                                λ expected n. Returns-guard (actual == expected) _ _ λ o.
                                  Returns-bind
                                    (required_lock_string framework_lock
                                      ("schema_bundle" ∷ "version" ∷ []))
                                    _
                                    λ bundle q.
                                      Returns-guard (bundle == schema_bundle_version) _ _ λ r.
                                        Returns-bind
                                          (map_err text (load release.delivery.crates schema_files))
                                          _
                                          λ registry s.
                                            Returns-bind
                                              (required_lock_string framework_lock
                                                ("schema_bundle" ∷ "digest" ∷ []))
                                              _
                                              λ digest t.
                                                Returns-guard (registry.digest == digest) _ _ λ w.
                                                  Returns-bind (load_catalog catalogs catalog) _
                                                    λ framework_catalog x. returns (record {
                                                      release = release;
                                                      manifest = manifest;
                                                      of_lock = a;
                                                      found = c;
                                                      is_released =
                                                          verify_release_manifest-IsReleased
                                                            release.delivery framework_lock
                                                            trust_use version d;
                                                      rules = rules;
                                                      of_rules = e;
                                                      of_source = l;
                                                      is_pinned_source = same_digest _ _ m n o;
                                                      schemas = schemas;
                                                      of_schemas = f;
                                                      schema_files = schema_files;
                                                      of_files = j;
                                                      is_loaded =
                                                          load-IsLoaded release.delivery.crates
                                                            schema_files (map_err-eq-ok text _ s);
                                                      is_read =
                                                          load-IsRead release.delivery.crates
                                                            schema_files (map_err-eq-ok text _ s);
                                                      is_pinned_schema =
                                                          same_digest _ _
                                                            (digest_of_bundle
                                                            release.delivery.crates schema_files
                                                            (load-IsRead release.delivery.crates
                                                            schema_files (map_err-eq-ok text _ s)))
                                                            t w;
                                                      is_pinned_version =
                                                          q
                                                          ∙ ap ok (
                                                            eq_of_== bundle schema_bundle_version
                                                            r);
                                                      has_catalog =
                                                          load_catalog-HasCatalog catalogs release
                                                            manifest.framework_catalog g x;
                                                    })
