-- ===== src/Delivery/Manifest/Authentic.antt =====
-- What a signed manifest that is verified has (`verify_signed_manifest` of src/delivery.rs).
use agentic_development_fram.Base.{
  String, true, some, ◌≡◌, refl, sym, ◌∙◌, ap, subst, ◌==◌, ◌<>◌, and_then, ok, ok_or, map_err,
  if◌then◌else◌, ok_or-eq-ok, map_err-eq-ok, Returns, Returns-bind, Returns-guard, Returns-of,
  Returns-ok, ok-injective, eq_of_==,
}
use agentic_development_fram.Base.Map
use agentic_development_fram.Base.Map.{Map}
use agentic_development_fram.Json.Value.{Value, as_object}
use agentic_development_fram.Json.Canonical.{
  Crates, CanonicalError, canonical_json, canonical_digest,
}
use agentic_development_fram.Delivery.Fields.{assert_exact_fields, required_string}
use agentic_development_fram.Delivery.Trust.{TrustUse}
use agentic_development_fram.Delivery.Inventory.{verify_file_inventory}
use agentic_development_fram.Delivery.Inventory.Listed.{IsExact, verify_file_inventory-IsExact}
use agentic_development_fram.Delivery.Manifest.{
  Delivery, signed_payload, check_pinned, is_signed_lock, verify_signature, verify_signed_manifest,
}
use agentic_development_fram.Delivery.Manifest.Signed.{
  text_of, IsPinned, check_pinned-IsPinned, IsSigned, verify_signature-IsSigned,
}

-- The release is what its signer signed, the signer is trusted with it, and it is what the lock
-- pins.
pub record IsAuthentic (delivery : Delivery) (framework_lock : Value) (manifest : Map Value)
    (trust_use : TrustUse) : Type 0 where
  pub signer : Map Value
  pub source_id : String
  pub key_id : String
  pub of_source : text_of manifest "source_id" ≡ some source_id
  pub of_signer : and_then (Map.get "signer" manifest) as_object ≡ some signer
  pub of_key : text_of signer "key_id" ≡ some key_id
  pub is_ed25519 : text_of signer "algorithm" ≡ some "ed25519"
  pub is_signed : IsSigned delivery key_id source_id trust_use manifest
  pub is_pinned :
      is_signed_lock framework_lock ≡ true
      → IsPinned framework_lock
          ("sha256:" <> delivery.crates.sha256_hex is_signed.payload)
          source_id
          key_id
  pub is_exact : IsExact delivery.root manifest

digest_of :
    (crates : Crates) (v : Value) {text digest : String}
    → canonical_json crates v ≡ ok text
    → canonical_digest crates v ≡ ok digest
    → digest ≡ "sha256:" <> crates.sha256_hex text
unfolding canonical_digest
digest_of crates v {text} {digest} a b = ok-injective (sym b ∙ rw a refl)

signed_lock_pins :
    (framework_lock : Value) (artifact_digest source_id key_id : String) {u : Unit {0}}
    → (if is_signed_lock framework_lock
        then check_pinned framework_lock artifact_digest source_id key_id
        else ok tt)
      ≡ ok u
    → is_signed_lock framework_lock ≡ true
    → IsPinned framework_lock artifact_digest source_id key_id
signed_lock_pins framework_lock artifact_digest source_id key_id h e =
    Returns-ok _ (check_pinned-IsPinned framework_lock artifact_digest source_id key_id) (rw e at h)

pub verify_signed_manifest-IsAuthentic :
    (delivery : Delivery) (framework_lock : Value) (manifest : Map Value) (trust_use : TrustUse)
    → Returns
        (λ u. IsAuthentic delivery framework_lock manifest trust_use)
        (verify_signed_manifest delivery framework_lock manifest trust_use)
unfolding verify_signed_manifest required_string
verify_signed_manifest-IsAuthentic delivery framework_lock manifest trust_use =
    Returns-bind (assert_exact_fields manifest _) _ λ u a.
      Returns-bind (ok_or (text_of manifest "source_id") _) _ λ source_id b.
        Returns-bind (ok_or (and_then (Map.get "signer" manifest) as_object) _) _ λ signer c.
          Returns-bind (assert_exact_fields signer _) _ λ v d.
            Returns-bind (ok_or (text_of signer "algorithm") _) _ λ algorithm e.
              Returns-guard (algorithm == "ed25519") _ _ λ f.
                Returns-bind (ok_or (text_of signer "key_id") _) _ λ key_id g.
                  Returns-bind
                    (map_err (λ (e : CanonicalError). "floating-point numbers are not supported")
                      (canonical_digest delivery.crates (signed_payload manifest)))
                    _
                    λ artifact_digest h.
                      Returns-bind
                        (if is_signed_lock framework_lock
                          then check_pinned framework_lock artifact_digest source_id key_id
                          else ok tt)
                        _
                        λ w i.
                          Returns-bind
                            (verify_signature delivery key_id source_id trust_use manifest) _
                            λ x j. Returns-of (verify_file_inventory delivery.root manifest) λ y k.
                              let signed =
                                Returns-ok _
                                  (verify_signature-IsSigned delivery key_id source_id trust_use
                                    manifest)
                                  j in
                              let digest =
                                digest_of delivery.crates (signed_payload manifest)
                                  signed.of_payload
                                  (map_err-eq-ok _
                                    (canonical_digest delivery.crates (signed_payload manifest))
                                    h) in
                              record {
                                signer = signer;
                                source_id = source_id;
                                key_id = key_id;
                                of_source = ok_or-eq-ok (text_of manifest "source_id") _ b;
                                of_signer =
                                    ok_or-eq-ok (and_then (Map.get "signer" manifest) as_object) _
                                      c;
                                of_key = ok_or-eq-ok (text_of signer "key_id") _ g;
                                is_ed25519 =
                                    ok_or-eq-ok (text_of signer "algorithm") _ e
                                    ∙ ap some (eq_of_== algorithm "ed25519" f);
                                is_signed = signed;
                                is_pinned = λ l.
                                    subst (λ d. IsPinned framework_lock d source_id key_id) digest
                                      (signed_lock_pins framework_lock artifact_digest source_id
                                        key_id i l);
                                is_exact = verify_file_inventory-IsExact delivery.root manifest k;
                              }
