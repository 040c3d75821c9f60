-- ===== src/Delivery/Trust.antt =====
-- The trusted keys of a project: `trusted_key` of src/delivery.rs.
pub mod Entries
pub mod Selected
pub mod Trusted
use agentic_development_fram.Base.{
  ℕ, String, Bool, true, false, not, ◌&&◌, ◌||◌, Option, none, some, List, [], ◌∷◌, ◌==◌, all, any,
  is_some, is_some_and, and_then, filter_map, length, is_empty, nat_eq, Result, ok, err, ok_or,
  guard, ◌>>=◌, ◌>>◌, if◌then◌else◌,
}
use agentic_development_fram.Base.Map
use agentic_development_fram.Base.Map.{Map}
use agentic_development_fram.Contracts.Scope.{member}
use agentic_development_fram.Json.Value.{Value, as_str, as_array, as_object}
use agentic_development_fram.Schema.Keywords.{collect_set}
use agentic_development_fram.Delivery.Hex.{decode_hex}
use agentic_development_fram.Delivery.Fields.{assert_exact_fields, required_string}

pub data TrustUse : Type 0 where
  runtime new_activation rollback : TrustUse

-- `ed25519_dalek`: which bytes are a public key, and `verify_strict` of a text with a signature.
pub record Ed25519 : Type 0 where
  pub is_key : List ℕ → Bool
  pub verify_strict : List ℕ → String → List ℕ → Bool

-- What the loop selects of a key.
pub record SelectedKey : Type 0 where
  pub public_key : String
  pub allowed_sources : List String
  pub status : String

abbrev pub trust_store_schema_version : String
trust_store_schema_version = "2"

abbrev pub legacy_trust_store_schema_version : String
legacy_trust_store_schema_version = "1"

abbrev pub key_fields : String → List String
key_fields schema_version =
    if schema_version == trust_store_schema_version
    then "id" ∷ "algorithm" ∷ "public_key" ∷ "allowed_sources" ∷ "status" ∷ []
    else "id" ∷ "algorithm" ∷ "public_key" ∷ "allowed_sources" ∷ []

-- `unique_sources` is not empty, and none is there twice.
abbrev pub are_unique : List String → ℕ → Bool
are_unique sources n =
    not (is_empty (collect_set sources)) && nat_eq (length (collect_set sources)) n

-- The checks of one key, which give its id and what could be selected.
unfoldable pub read_key : String → List String → Value → Result String (String × SelectedKey)
read_key schema_version seen_ids value =
    ok_or (as_object value) "trusted Release key entry must be a mapping" >>= λ key.
    assert_exact_fields key (key_fields schema_version)
    >> (required_string key "id" >>= λ id.
        guard (not (member id seen_ids)) "duplicate trusted Release key ID"
        >> (guard (is_some_and (and_then (Map.get "algorithm" key) as_str) (λ s. s == "ed25519"))
              "trusted Release key does not use ed25519"
            >> (ok_or (and_then (Map.get "allowed_sources" key) as_array)
                  "trusted Release key allowed_sources must be an array"
                >>= λ allowed.
                    let sources = filter_map as_str allowed in
                    guard (all (λ v. is_some (as_str v)) allowed)
                      "trusted Release key allowed_sources must contain only strings"
                    >> (guard (are_unique sources (length allowed))
                          "trusted Release key allowed_sources must be non-empty and unique"
                        >> (required_string key "public_key" >>= λ public_key.
                            decode_hex 32 public_key >>= λ decoded.
                            (if schema_version == trust_store_schema_version
                              then required_string key "status"
                              else ok "active")
                            >>= λ status.
                                guard (member status ("active" ∷ "retired" ∷ "revoked" ∷ []))
                                  "trusted Release key has unsupported status"
                                >> ok (
                                  id,
                                  record {
                                    public_key = public_key;
                                    allowed_sources = sources;
                                    status = status;
                                  },
                                ))))))

-- The loop over the keys: every one is checked, and the one with the id is selected.
unfoldable pub select_key :
    String
    → String
    → List String
    → Option SelectedKey
    → List Value
    → Result String (Option SelectedKey)
select_key schema_version key_id seen_ids selected [] = ok selected
select_key schema_version key_id seen_ids selected (value ∷ values) =
    read_key schema_version seen_ids value >>= λ key.
    select_key schema_version key_id (key.0 ∷ seen_ids)
      (if key.0 == key_id then some key.1 else selected) values

-- The `match` on the status and the use of the key.
unfoldable pub check_status : String → TrustUse → Result String (Unit {0})
check_status status trust_use =
    if status == "revoked"
    then err "Framework Release signer has been revoked"
    else if status == "retired"
    then (elim trust_use as (λ _. Result String (Unit {0})) [
      | new_activation ↦
          err "retired Framework Release signer cannot authorize a new install or switch"
      | runtime ↦ ok tt
      | rollback ↦ ok tt
    ])
    else ok tt

-- The store is what `read_yaml` gives for `.adf/trusted-release-keys.yaml`.
unfoldable pub trusted_key :
    Ed25519 → Result String Value → String → String → TrustUse → Result String (List ℕ)
trusted_key crypto store key_id source_id trust_use = store >>= λ document.
    ok_or (as_object document) "trusted Release key store must be a mapping" >>= λ object.
    assert_exact_fields object ("schema_version" ∷ "keys" ∷ [])
    >> (required_string object "schema_version" >>= λ schema_version.
        guard
          (member schema_version
            (legacy_trust_store_schema_version ∷ trust_store_schema_version ∷ []))
          "unsupported trusted Release key store Schema"
        >> (ok_or (and_then (Map.get "keys" object) as_array)
              "trusted Release key store keys must be an array"
            >>= λ keys. select_key schema_version key_id [] none keys >>= λ selected.
                ok_or selected "Framework Release signer is not trusted" >>= λ key.
                guard (member source_id key.allowed_sources)
                  "trusted Release key does not allow source"
                >> (check_status key.status trust_use
                    >> (decode_hex 32 key.public_key >>= λ bytes.
                        guard (crypto.is_key bytes) "invalid trusted Release key" >> ok bytes))))
