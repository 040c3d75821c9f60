-- ===== src/Delivery/Manifest.antt =====
-- The manifest of a release: `verify_signed_manifest` and `verify_release_manifest` of
-- src/delivery.rs.
pub mod Signed
pub mod Authentic
pub mod Released
use agentic_development_fram.Base.{
  String, Bool, true, false, not, ◌&&◌, Option, none, some, List, [], ◌∷◌, ◌==◌, all, filter,
  and_then, is_some_and, strip_prefix, Result, ok, err, ok_or, map_err, guard, ◌>>=◌, ◌>>◌,
  if◌then◌else◌,
}
use agentic_development_fram.Base.Map
use agentic_development_fram.Base.Map.{Map}
use agentic_development_fram.Base.Map.Ascending.{keys_of}
use agentic_development_fram.Contracts.Scope.{member}
use agentic_development_fram.Json.Value.{
  Value, object, fields, as_str, as_object, string_field, get,
}
use agentic_development_fram.Json.Canonical.{Crates, canonical_json, canonical_digest}
use agentic_development_fram.Delivery.Hex.{decode_hex}
use agentic_development_fram.Delivery.Fields.{
  same_set, assert_exact_fields, required_string, required_lock_string,
}
use agentic_development_fram.Delivery.Trust.{TrustUse, Ed25519, trusted_key}
use agentic_development_fram.Delivery.Inventory.{Entries, verify_file_inventory}

abbrev pub framework_lock_schema_version : String
framework_lock_schema_version = "1"

abbrev pub signed_framework_lock_schema_version : String
signed_framework_lock_schema_version = "2"

-- What a release is checked against: the crates, the project's key store and the files of the
-- release, with what `read_yaml` gives for its manifest.
pub record Delivery : Type 0 where
  pub crates : Crates
  pub crypto : Ed25519
  pub store : Result String Value
  pub manifest : Result String Value
  pub root : Entries

-- `payload`: the manifest without its signature.
unfoldable pub signed_payload : Map Value → Value
signed_payload manifest =
    object (fields (filter (λ (e : String × Value). not (e.0 == "signature")) manifest))

-- The comparison with what a signed lock pins.
unfoldable pub check_pinned : Value → String → String → String → Result String (Unit {0})
check_pinned framework_lock artifact_digest source_id key_id =
    required_lock_string framework_lock ("release_artifact" ∷ "artifact_digest" ∷ [])
    >>= λ expected_digest.
        required_lock_string framework_lock ("release_artifact" ∷ "source_id" ∷ [])
        >>= λ expected_source.
            required_lock_string framework_lock ("release_artifact" ∷ "signer_key_id" ∷ [])
            >>= λ expected_signer.
                guard (artifact_digest == expected_digest)
                  "Framework Release artifact digest mismatch"
                >> (guard (source_id == expected_source) "Framework Release source mismatch"
                    >> guard (key_id == expected_signer) "Framework Release signer mismatch")

abbrev pub is_signed_lock : Value → Bool
is_signed_lock framework_lock =
    is_some_and (string_field framework_lock "schema_version")
      (λ version. version == signed_framework_lock_schema_version)

unfoldable pub verify_signature :
    Delivery → String → String → TrustUse → Map Value → Result String (Unit {0})
verify_signature delivery key_id source_id trust_use manifest =
    trusted_key delivery.crypto delivery.store key_id source_id trust_use >>= λ key.
    required_string manifest "signature" >>= λ signature_text.
    ok_or (strip_prefix signature_text "ed25519:")
      "Framework Release signature must start with ed25519:"
    >>= λ signature_hex. decode_hex 64 signature_hex >>= λ signature.
        map_err (λ e. "floating-point numbers are not supported")
          (canonical_json delivery.crates (signed_payload manifest))
        >>= λ payload.
            guard (delivery.crypto.verify_strict key payload signature)
              "Framework Release signature verification failed"

unfoldable pub verify_signed_manifest :
    Delivery → Value → Map Value → TrustUse → Result String (Unit {0})
verify_signed_manifest delivery framework_lock manifest trust_use =
    assert_exact_fields manifest (
      "schema_version" ∷ "release_id" ∷ "source_id" ∷ "assets" ∷ "files" ∷ "signer" ∷ "signature"
      ∷ [])
    >> (required_string manifest "source_id" >>= λ source_id.
        ok_or (and_then (Map.get "signer" manifest) as_object)
          "Framework Release signer must be a mapping"
        >>= λ signer.
            assert_exact_fields signer ("algorithm" ∷ "key_id" ∷ [])
            >> (required_string signer "algorithm" >>= λ algorithm.
                guard (algorithm == "ed25519") "Framework Release signer.algorithm must be ed25519"
                >> (required_string signer "key_id" >>= λ key_id.
                    map_err (λ e. "floating-point numbers are not supported")
                      (canonical_digest delivery.crates (signed_payload manifest))
                    >>= λ artifact_digest.
                        (if is_signed_lock framework_lock
                          then check_pinned framework_lock artifact_digest source_id key_id
                          else ok tt)
                        >> (verify_signature delivery key_id source_id trust_use manifest
                            >> verify_file_inventory delivery.root manifest))))

pub record VerifiedManifest : Type 0 where
  pub rules : String
  pub schemas : String
  pub framework_catalog : Option String

-- `assert_optional_framework_catalog_asset`
unfoldable pub assert_optional_framework_catalog_asset : Map Value → Result String (Unit {0})
assert_optional_framework_catalog_asset assets =
    guard
      (member "rules" (keys_of assets)
        && (member "schemas" (keys_of assets)
            && all (λ key. member key ("framework_catalog" ∷ "rules" ∷ "schemas" ∷ []))
                (keys_of assets)))
      "signed Framework Release assets fields are invalid"

-- The match on the schema of the manifest.
unfoldable pub check_manifest :
    Delivery → Value → Map Value → Map Value → String → TrustUse → Result String (Unit {0})
check_manifest delivery framework_lock manifest assets schema_version trust_use =
    if schema_version == "1"
    then guard
        (is_some_and (string_field framework_lock "schema_version")
          (λ version. version == framework_lock_schema_version))
        "signed Framework lock requires a signed Release manifest"
      >> (assert_exact_fields manifest ("schema_version" ∷ "release_id" ∷ "assets" ∷ [])
          >> assert_exact_fields assets ("rules" ∷ "schemas" ∷ []))
    else if schema_version == "2"
    then assert_optional_framework_catalog_asset assets
      >> verify_signed_manifest delivery framework_lock manifest trust_use
    else err "unsupported Framework Release manifest Schema"

-- The optional path of the framework catalog.
unfoldable pub catalog_path : Map Value → Result String (Option String)
catalog_path assets = elim (Map.get "framework_catalog" assets) [
  | none ↦ ok none
  | some value ↦ required_string assets "framework_catalog" >>= λ path. ok (some path)
]

unfoldable pub verify_release_manifest :
    Delivery → Value → TrustUse → Result String VerifiedManifest
verify_release_manifest delivery framework_lock trust_use =
    required_lock_string framework_lock ("framework_release" ∷ []) >>= λ release_id.
    delivery.manifest >>= λ document.
    ok_or (as_object document) "Framework Release manifest must be a mapping" >>= λ manifest.
    required_string manifest "schema_version" >>= λ schema_version.
    guard (is_some_and (and_then (Map.get "release_id" manifest) as_str) (λ id. id == release_id))
      "Framework Release ID mismatch"
    >> (ok_or (and_then (Map.get "assets" manifest) as_object)
          "Framework Release assets must be a mapping"
        >>= λ assets.
            check_manifest delivery framework_lock manifest assets schema_version trust_use
            >> (required_string assets "rules" >>= λ rules.
                required_string assets "schemas" >>= λ schemas.
                catalog_path assets >>= λ framework_catalog. ok (record {
                  rules = rules;
                  schemas = schemas;
                  framework_catalog = framework_catalog;
                })))
