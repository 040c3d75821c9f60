-- ===== src/Delivery/Manifest/Released.antt =====
-- What a signed lock gets (`verify_release_manifest` of src/delivery.rs).
use agentic_development_fram.Base.{
  String, true, Option, none, some, [], ◌∷◌, ◌≡◌, refl, ap, subst, inl, inr, ◌==◌, and_then,
  is_some_and, Result, ok, err, ok_or, guard, >>=-eq-ok, ok_or-eq-ok, guard-eq-ok, Returns,
  Returns-bind, Returns-guard, Returns-ok, returns, Bool-cases, eq_of_==,
}
use agentic_development_fram.Base.Map
use agentic_development_fram.Base.Map.{Map}
use agentic_development_fram.Json.Value.{Value, as_object, string_field}
use agentic_development_fram.Delivery.Fields.{required_string, required_lock_string}
use agentic_development_fram.Delivery.Trust.{TrustUse}
use agentic_development_fram.Delivery.Manifest.{
  Delivery, is_signed_lock, assert_optional_framework_catalog_asset, check_manifest,
  verify_release_manifest, framework_lock_schema_version, signed_framework_lock_schema_version,
  VerifiedManifest, catalog_path,
}
use agentic_development_fram.Delivery.Manifest.Signed.{text_of}
use agentic_development_fram.Delivery.Manifest.Authentic.{
  IsAuthentic, verify_signed_manifest-IsAuthentic,
}

-- What a signed lock gets: the manifest of the release that it names, authentic.
pub record IsReleased (delivery : Delivery) (framework_lock : Value) (trust_use : TrustUse)
    (verified : VerifiedManifest) : Type 0 where
  pub document : Value
  pub manifest : Map Value
  pub assets : Map Value
  pub release_id : String
  pub of_manifest : delivery.manifest ≡ ok document
  pub is_mapping : as_object document ≡ some manifest
  pub of_lock : required_lock_string framework_lock ("framework_release" ∷ []) ≡ ok release_id
  pub of_release : text_of manifest "release_id" ≡ some release_id
  pub is_authentic : IsAuthentic delivery framework_lock manifest trust_use
  pub of_assets : and_then (Map.get "assets" manifest) as_object ≡ some assets
  pub of_rules : text_of assets "rules" ≡ some verified.rules
  pub of_schemas : text_of assets "schemas" ≡ some verified.schemas

text_is : (o : Option String) (s : String) → is_some_and o (λ t. t == s) ≡ true → o ≡ some s
text_is none s h = cc
text_is (some t) s h = ap some (eq_of_== t s h)

check_manifest-IsAuthentic :
    (delivery : Delivery) (framework_lock : Value) (manifest assets : Map Value)
    (schema_version : String) (trust_use : TrustUse) {u : Unit {0}}
    → check_manifest delivery framework_lock manifest assets schema_version trust_use ≡ ok u
    → is_signed_lock framework_lock ≡ true
    → IsAuthentic delivery framework_lock manifest trust_use
unfolding check_manifest
check_manifest-IsAuthentic delivery framework_lock manifest assets schema_version trust_use {u} h
      l =
    elim (Bool-cases (schema_version == "1")) [
      | inl e ↦
          let (u, a, b) = >>=-eq-ok (guard _ _) _ (rw (e, check_manifest) at h) in
          absurd (two_versions (string_field framework_lock "schema_version") (guard-eq-ok _ _ a) l)
      | inr e ↦ elim (Bool-cases (schema_version == "2")) [
        | inl f ↦
            let (u, a, b) =
              >>=-eq-ok (assert_optional_framework_catalog_asset assets) _
                (rw (f, check_manifest) at (rw (e, check_manifest) at h)) in
            Returns-ok _
              (verify_signed_manifest-IsAuthentic delivery framework_lock manifest trust_use) b
        | inr f ↦ absurd (unsupported (rw (f, check_manifest) at (rw (e, check_manifest) at h)))
      ]
    ]
  where
    two_versions :
        (o : Option String)
        → is_some_and o (λ v. v == framework_lock_schema_version) ≡ true
        → is_some_and o (λ v. v == signed_framework_lock_schema_version) ≡ true
        → ⊥
    two_versions none h k = cc
    two_versions (some v) h k =
        cc (subst (λ v. (v == signed_framework_lock_schema_version) ≡ true) (eq_of_== v _ h) k)

    unsupported :
        Path (Result String (Unit {0})) (err "unsupported Framework Release manifest Schema") (ok u)
        → ⊥
    unsupported h = cc

release-IsReleased :
    (delivery : Delivery) (framework_lock : Value) (trust_use : TrustUse)
    → is_signed_lock framework_lock ≡ true
    → Returns
        (IsReleased delivery framework_lock trust_use)
        (verify_release_manifest delivery framework_lock trust_use)
unfolding verify_release_manifest required_string
release-IsReleased delivery framework_lock trust_use l =
    Returns-bind (required_lock_string framework_lock ("framework_release" ∷ [])) _ λ release_id a.
      Returns-bind delivery.manifest _ λ document b.
        Returns-bind (ok_or (as_object document) _) _ λ manifest c.
          Returns-bind (ok_or (text_of manifest "schema_version") _) _ λ schema_version d.
            Returns-guard (is_some_and (text_of manifest "release_id") (λ id. id == release_id)) _ _
              λ e.
                Returns-bind (ok_or (and_then (Map.get "assets" manifest) as_object) _) _
                  λ assets f.
                    Returns-bind
                      (check_manifest delivery framework_lock manifest assets schema_version
                        trust_use)
                      _
                      λ u g. Returns-bind (ok_or (text_of assets "rules") _) _ λ rules i.
                        Returns-bind (ok_or (text_of assets "schemas") _) _ λ schemas j.
                          Returns-bind (catalog_path assets) _ λ framework_catalog k.
                            returns (record {
                              document = document;
                              manifest = manifest;
                              assets = assets;
                              release_id = release_id;
                              of_manifest = b;
                              is_mapping = ok_or-eq-ok (as_object document) _ c;
                              of_lock = a;
                              of_release = text_is (text_of manifest "release_id") release_id e;
                              is_authentic =
                                  check_manifest-IsAuthentic delivery framework_lock manifest assets
                                    schema_version trust_use g l;
                              of_assets =
                                  ok_or-eq-ok (and_then (Map.get "assets" manifest) as_object) _ f;
                              of_rules = ok_or-eq-ok (text_of assets "rules") _ i;
                              of_schemas = ok_or-eq-ok (text_of assets "schemas") _ j;
                            })

-- A release that is verified for a signed lock has the id that the lock names, and its manifest is
-- signed: the signature is by the ed25519 key that the manifest names, over the canonical text of
-- the manifest without it; the project trusts that key for the source and the use; the lock pins
-- the digest of that text, the source and the key; and the release has the files of the manifest.
-- An unsigned manifest is never accepted for such a lock.
pub verify_release_manifest-IsReleased :
    (delivery : Delivery) (framework_lock : Value) (trust_use : TrustUse)
    {verified : VerifiedManifest}
    → string_field framework_lock "schema_version" ≡ some signed_framework_lock_schema_version
    → verify_release_manifest delivery framework_lock trust_use ≡ ok verified
    → IsReleased delivery framework_lock trust_use verified
verify_release_manifest-IsReleased delivery framework_lock trust_use version h =
    Returns-ok _ (release-IsReleased delivery framework_lock trust_use (is_some_and-eq version)) h
  where
    is_some_and-eq :
        string_field framework_lock "schema_version" ≡ some signed_framework_lock_schema_version
        → is_signed_lock framework_lock ≡ true
    is_some_and-eq e = rw e refl
