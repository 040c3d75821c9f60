-- ===== src/Delivery/Trust/Trusted.antt =====
-- Which keys are trusted (`trusted_key` of src/delivery.rs).
use agentic_development_fram.Base.{
  ℕ, String, Bool, true, false, none, some, List, [], ◌∷◌, ◌≡◌, ◌≢◌, refl, ◌∙◌, ap, inl, inr, Memᴰ,
  Returns, Returns-bind, Returns-guard, returns, Result, ok, err, ok_or, ◌==◌, and_then,
  ok_or-eq-ok, Bool-cases, ne_of_==,
}
use agentic_development_fram.Base.Map
use agentic_development_fram.Base.Map.{Map}
use agentic_development_fram.Contracts.Scope.{member}
use agentic_development_fram.Json.Value.{Value, as_str, as_array, as_object, string_field, get}
use agentic_development_fram.Json.Lookup.{object-value}
use agentic_development_fram.Contracts.Members.{member-mem}
use agentic_development_fram.Delivery.Hex.{decode_hex}
use agentic_development_fram.Delivery.Fields.{assert_exact_fields, required_string}
use agentic_development_fram.Delivery.Trust.{
  TrustUse, runtime, new_activation, rollback, Ed25519, SelectedKey, trust_store_schema_version,
  legacy_trust_store_schema_version, select_key, check_status, trusted_key,
}
use agentic_development_fram.Delivery.Trust.Entries.{field_of}
use agentic_development_fram.Delivery.Trust.Selected.{IsSelected, select_key-IsSelected}

-- The key that a release's signer names, in a key store.
pub record IsTrusted (crypto : Ed25519) (store : Value) (key_id source_id : String)
    (trust_use : TrustUse) (key_bytes : List ℕ) : Type 0 where
  pub schema_version : String
  pub keys : List Value
  pub key : SelectedKey
  pub of_schema : string_field store "schema_version" ≡ some schema_version
  pub of_keys : and_then (get store "keys") as_array ≡ some keys
  pub selected : IsSelected schema_version key_id keys key
  pub allows_source : Memᴰ source_id key.allowed_sources
  pub not_revoked : key.status ≢ "revoked"
  pub not_retired : trust_use ≡ new_activation → key.status ≢ "retired"
  pub decoded : decode_hex 32 key.public_key ≡ ok key_bytes
  pub is_valid : crypto.is_key key_bytes ≡ true

is_new_activation : TrustUse → Bool
is_new_activation runtime = false
is_new_activation new_activation = true
is_new_activation rollback = false

-- The status check, by the use of the key.
check_status-allows :
    (status : String) (trust_use : TrustUse) {u : Unit {0}}
    → check_status status trust_use ≡ ok u
    → (status ≢ "revoked") × (trust_use ≡ new_activation → status ≢ "retired")
unfolding check_status is_new_activation
check_status-allows status trust_use {u} h = elim (Bool-cases (status == "revoked")) [
  | inl e ↦ cc (rw (e, check_status) at h)
  | inr e ↦ elim (Bool-cases (status == "retired")) [
    | inr f ↦ (ne_of_== status _ e, λ q. ne_of_== status _ f)
    | inl f ↦ (
      ne_of_== status _ e,
      λ q. absurd (refused q (rw (f, check_status) at (rw (e, check_status) at h))),
    )
  ]
]
  where
    refused :
        trust_use ≡ new_activation
        → (elim trust_use as (λ _. Result String (Unit {0})) [
          | new_activation ↦
              err "retired Framework Release signer cannot authorize a new install or switch"
          | runtime ↦ ok tt
          | rollback ↦ ok tt
        ])
          ≡ ok u
        → ⊥
    refused q h = cc (rw q at h)

-- A signer's key is only used if the project's key store has it, under an id that no other entry
-- has, as an ed25519 key that may sign for the source and is not revoked; a new activation does not
-- use a retired one either.
pub trusted_key-IsTrusted :
    (crypto : Ed25519) (store : Value) (key_id source_id : String) (trust_use : TrustUse)
    → Returns
        (IsTrusted crypto store key_id source_id trust_use)
        (trusted_key crypto (ok store) key_id source_id trust_use)
unfolding trusted_key required_string
trusted_key-IsTrusted crypto store key_id source_id trust_use =
    Returns-bind (ok_or (as_object store) _) _ λ object a.
      Returns-bind (assert_exact_fields object ("schema_version" ∷ "keys" ∷ [])) _ λ u b.
        Returns-bind (ok_or (and_then (Map.get "schema_version" object) as_str) _) _
          λ schema_version c.
            Returns-guard
              (member schema_version
                (legacy_trust_store_schema_version ∷ trust_store_schema_version ∷ []))
              _ _
              λ supported.
                Returns-bind (ok_or (and_then (Map.get "keys" object) as_array) _) _ λ keys d.
                  Returns-bind (select_key schema_version key_id [] none keys) _ λ selected e.
                    Returns-bind (ok_or selected _) _ λ key f.
                      Returns-guard (member source_id key.allowed_sources) _ _ λ allowed.
                        Returns-bind (check_status key.status trust_use) _ λ w g.
                          Returns-bind (decode_hex 32 key.public_key) _ λ key_bytes i.
                            Returns-guard (crypto.is_key key_bytes) _ _ λ valid.
                              let o = ok_or-eq-ok (as_object store) _ a in
                              let status = check_status-allows key.status trust_use g in
                              returns (record {
                                schema_version = schema_version;
                                keys = keys;
                                key = key;
                                of_schema = field_of store o "schema_version" (
                                    ok_or-eq-ok (and_then (Map.get "schema_version" object) as_str)
                                      _ c);
                                of_keys =
                                    rw (object-value store o "keys")
                                      (ok_or-eq-ok (and_then (Map.get "keys" object) as_array) _ d);
                                selected =
                                    select_key-IsSelected schema_version key_id [] keys
                                      (e ∙ ap ok (ok_or-eq-ok selected _ f));
                                allows_source = member-mem source_id key.allowed_sources allowed;
                                not_revoked = status.0;
                                not_retired = status.1;
                                decoded = i;
                                is_valid = valid;
                              })

-- No key is trusted where the store cannot be read.
pub trusted_key-store :
    (crypto : Ed25519) (read : Result String Value) (key_id source_id : String)
    (trust_use : TrustUse) {key : List ℕ}
    → trusted_key crypto read key_id source_id trust_use ≡ ok key
    → (store : Value) × (read ≡ ok store)
      × (trusted_key crypto (ok store) key_id source_id trust_use ≡ ok key)
unfolding trusted_key
trusted_key-store crypto (ok store) key_id source_id trust_use h = (store, refl, h)
trusted_key-store crypto (err e) key_id source_id trust_use h = cc
