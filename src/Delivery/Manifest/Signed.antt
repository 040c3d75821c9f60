-- ===== src/Delivery/Manifest/Signed.antt =====
-- The signature of a manifest, and what a lock pins of it (`verify_signed_manifest` of
-- src/delivery.rs).
use agentic_development_fram.Base.{
  ℕ, String, true, Option, some, List, [], ◌∷◌, ◌≡◌, sym, ◌∙◌, ap, ◌==◌, and_then, strip_prefix, ok,
  ok_or, map_err, ok_or-eq-ok, map_err-eq-ok, Returns, Returns-bind, Returns-guard, guard-Returns,
  Returns-ok, eq_of_==,
}
use agentic_development_fram.Base.Map
use agentic_development_fram.Base.Map.{Map}
use agentic_development_fram.Json.Value.{Value, as_str}
use agentic_development_fram.Json.Canonical.{CanonicalError, canonical_json}
use agentic_development_fram.Delivery.Hex.{decode_hex}
use agentic_development_fram.Delivery.Fields.{required_string, required_lock_string}
use agentic_development_fram.Delivery.Trust.{TrustUse, trusted_key}
use agentic_development_fram.Delivery.Trust.Trusted.{
  IsTrusted, trusted_key-IsTrusted, trusted_key-store,
}
use agentic_development_fram.Delivery.Manifest.{
  Delivery, signed_payload, check_pinned, verify_signature,
}

abbrev pub text_of : Map Value → String → Option String
text_of manifest field = and_then (Map.get field manifest) as_str

-- What is pinned is compared with the manifest's.
abbrev pub IsPinned : Value → String → String → String → Type 0
IsPinned framework_lock artifact_digest source_id key_id =
    (required_lock_string framework_lock ("release_artifact" ∷ "artifact_digest" ∷ [])
      ≡ ok artifact_digest)
    × (required_lock_string framework_lock ("release_artifact" ∷ "source_id" ∷ []) ≡ ok source_id)
    × (required_lock_string framework_lock ("release_artifact" ∷ "signer_key_id" ∷ []) ≡ ok key_id)

pub check_pinned-IsPinned :
    (framework_lock : Value) (artifact_digest source_id key_id : String)
    → Returns
        (λ u. IsPinned framework_lock artifact_digest source_id key_id)
        (check_pinned framework_lock artifact_digest source_id key_id)
unfolding check_pinned
check_pinned-IsPinned framework_lock artifact_digest source_id key_id =
    Returns-bind (required_lock_string framework_lock ("release_artifact" ∷ "artifact_digest" ∷ []))
      _
      λ d a.
        Returns-bind (required_lock_string framework_lock ("release_artifact" ∷ "source_id" ∷ [])) _
          λ s b.
            Returns-bind
              (required_lock_string framework_lock ("release_artifact" ∷ "signer_key_id" ∷ [])) _
              λ k c. Returns-guard (artifact_digest == d) _ _ λ e.
                Returns-guard (source_id == s) _ _ λ f. guard-Returns (key_id == k) _ λ g. (
                  a ∙ ap ok (sym (eq_of_== artifact_digest d e)),
                  b ∙ ap ok (sym (eq_of_== source_id s f)),
                  c ∙ ap ok (sym (eq_of_== key_id k g)),
                )

-- The signature is the key's, of the manifest without it.
pub record IsSigned (delivery : Delivery) (key_id source_id : String) (trust_use : TrustUse)
    (manifest : Map Value) : Type 0 where
  pub store : Value
  pub key : List ℕ
  pub signature_text : String
  pub signature_hex : String
  pub signature : List ℕ
  pub payload : String
  pub of_store : delivery.store ≡ ok store
  pub is_trusted : IsTrusted delivery.crypto store key_id source_id trust_use key
  pub of_signature : text_of manifest "signature" ≡ some signature_text
  pub of_hex : strip_prefix signature_text "ed25519:" ≡ some signature_hex
  pub of_bytes : decode_hex 64 signature_hex ≡ ok signature
  pub of_payload : canonical_json delivery.crates (signed_payload manifest) ≡ ok payload
  pub verified : delivery.crypto.verify_strict key payload signature ≡ true

pub verify_signature-IsSigned :
    (delivery : Delivery) (key_id source_id : String) (trust_use : TrustUse) (manifest : Map Value)
    → Returns
        (λ u. IsSigned delivery key_id source_id trust_use manifest)
        (verify_signature delivery key_id source_id trust_use manifest)
unfolding verify_signature required_string
verify_signature-IsSigned delivery key_id source_id trust_use manifest =
    Returns-bind (trusted_key delivery.crypto delivery.store key_id source_id trust_use) _ λ key a.
      Returns-bind (ok_or (text_of manifest "signature") _) _ λ signature_text b.
        Returns-bind (ok_or (strip_prefix signature_text "ed25519:") _) _ λ signature_hex c.
          Returns-bind (decode_hex 64 signature_hex) _ λ signature d.
            Returns-bind
              (map_err (λ (e : CanonicalError). "floating-point numbers are not supported")
                (canonical_json delivery.crates (signed_payload manifest)))
              _
              λ payload f.
                guard-Returns (delivery.crypto.verify_strict key payload signature) _ λ g.
                  let (store, h, i) =
                    trusted_key-store delivery.crypto delivery.store key_id source_id trust_use a in
                  record {
                    store = store;
                    key = key;
                    signature_text = signature_text;
                    signature_hex = signature_hex;
                    signature = signature;
                    payload = payload;
                    of_store = h;
                    is_trusted =
                        Returns-ok _
                          (trusted_key-IsTrusted delivery.crypto store key_id source_id trust_use)
                          i;
                    of_signature = ok_or-eq-ok (text_of manifest "signature") _ b;
                    of_hex = ok_or-eq-ok (strip_prefix signature_text "ed25519:") _ c;
                    of_bytes = d;
                    of_payload =
                        map_err-eq-ok _ (canonical_json delivery.crates (signed_payload manifest))
                          f;
                    verified = g;
                  }
