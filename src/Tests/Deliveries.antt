-- ===== src/Tests/Deliveries.antt =====
-- A signed release, its keys and the lock that pins it, and the theorems at these (src/delivery.rs).
use agentic_development_fram.Base.{
  ℕ, String, none, List, [], ◌∷◌, ◌≡◌, refl, ok, err, nat_eq, length, decimal, Returns, All, ◌<>◌,
  arith, is_sha256_hex,
}
use agentic_development_fram.Base.Bytes.{bytes, utf8}
use agentic_development_fram.Base.Order.{sort_by}
use agentic_development_fram.Base.Map
use agentic_development_fram.Base.Map.{Map}
use agentic_development_fram.Json.Value
use agentic_development_fram.Json.Value.{
  Value, as_object, get, string_field, string, array, items, object, fields,
}
use agentic_development_fram.Json.Canonical.{
  canonical_digest, canonical_json, write_number, write_entries, join_items, write_canonical,
}
use agentic_development_fram.Kernel.Candidates.{json_object, json_texts}
use agentic_development_fram.Schema.Keywords.{collect_set}
use agentic_development_fram.Delivery.Hex.{
  encode_hex, decode_hex, decode_pairs, hex_nibble, join_nibbles, nibble_digit,
}
use agentic_development_fram.Delivery.Hex.Bytes.{IsByte, decode_hex-encode_hex, decode_hex-bytes}
use agentic_development_fram.Delivery.Fields.{
  required_lock_string, validate_sha256, assert_exact_fields, required_string,
  validate_relative_path, is_relative_path, split_path, rest_is_normal,
}
use agentic_development_fram.Delivery.Trust.{
  runtime, new_activation, Ed25519, select_key, read_key, check_status, trusted_key,
}
use agentic_development_fram.Delivery.Trust.Trusted.{IsTrusted, trusted_key-IsTrusted}
use agentic_development_fram.Delivery.Inventory.{
  Entries, end, entry, file, directory, verify_file_inventory, expected_files, add_file,
  collect_release_files, visit, replace_backslashes, check_digests,
}
use agentic_development_fram.Delivery.Inventory.Listed.{IsExact, verify_file_inventory-IsExact}
use agentic_development_fram.Delivery.Inventory.Evaded.{two_files, one_file, inventory_evaded}
use agentic_development_fram.Delivery.Manifest.{
  Delivery, VerifiedManifest, signed_payload, check_pinned, verify_signature,
  verify_signed_manifest, assert_optional_framework_catalog_asset, check_manifest, catalog_path,
  verify_release_manifest,
}
use agentic_development_fram.Delivery.Manifest.Released.{
  IsReleased, verify_release_manifest-IsReleased,
}
use agentic_development_fram.Tests.Data.{test_crates, list_of}

abbrev two_bytes : List ℕ
two_bytes = 10 ∷ 255 ∷ []

two_bytes_run : bytes "0aff" ≡ encode_hex two_bytes
unfolding bytes utf8 encode_hex nibble_digit
two_bytes_run = refl

are_bytes : All IsByte two_bytes
are_bytes = (omega arith, (omega arith, tt))

decode_hex-encode_hex_example : decode_hex 2 "0aff" ≡ ok two_bytes
decode_hex-encode_hex_example = decode_hex-encode_hex "0aff" two_bytes two_bytes_run are_bytes

upper_run : decode_hex 2 "0AfF" ≡ ok two_bytes
unfolding decode_hex decode_pairs hex_nibble join_nibbles bytes utf8
upper_run = refl

decode_hex-bytes_example : (length two_bytes ≡ 2) × All IsByte two_bytes
decode_hex-bytes_example = decode_hex-bytes 2 "0AfF" upper_run

abbrev zeros : String
zeros = "0000000000000000000000000000000000000000000000000000000000000000"

abbrev file_digest : String
file_digest = "sha256:0000000000000000000000000000000000000000000000000000000000000000"

-- A signature is accepted if it has its length.
abbrev test_crypto : Ed25519
test_crypto = record {
  is_key = λ key. nat_eq (length key) 32;
  verify_strict = λ key text signature. nat_eq (length signature) 64;
}

abbrev test_store : Value
test_store = json_object (
    ("schema_version", string "2")
    ∷ (
      "keys",
      list_of (
          json_object (
            ("id", string "release-key")
            ∷ ("algorithm", string "ed25519")
            ∷ ("public_key", string zeros)
            ∷ ("allowed_sources", json_texts ("source.main" ∷ []))
            ∷ ("status", string "retired")
            ∷ [])
          ∷ []),
    )
    ∷ [])

trusted_key-IsTrusted_example :
    Returns
      (IsTrusted test_crypto test_store "release-key" "source.main" runtime)
      (trusted_key test_crypto (ok test_store) "release-key" "source.main" runtime)
trusted_key-IsTrusted_example =
    trusted_key-IsTrusted test_crypto test_store "release-key" "source.main" runtime

retired_run :
    trusted_key test_crypto (ok test_store) "release-key" "source.main" new_activation
    ≡ err "retired Framework Release signer cannot authorize a new install or switch"
unfolding trusted_key assert_exact_fields required_string select_key read_key check_status
    decode_hex decode_pairs hex_nibble join_nibbles bytes utf8 collect_set Map.get
retired_run = refl

abbrev zero_bytes : List ℕ
zero_bytes =
    0 ∷ 0 ∷ 0 ∷ 0 ∷ 0 ∷ 0 ∷ 0 ∷ 0 ∷ 0 ∷ 0 ∷ 0 ∷ 0 ∷ 0 ∷ 0 ∷ 0 ∷ 0 ∷ 0 ∷ 0 ∷ 0 ∷ 0 ∷ 0 ∷ 0 ∷ 0 ∷ 0
    ∷ 0 ∷ 0 ∷ 0 ∷ 0 ∷ 0 ∷ 0 ∷ 0 ∷ 0 ∷ []

runtime_run :
    trusted_key test_crypto (ok test_store) "release-key" "source.main" runtime ≡ ok zero_bytes
unfolding trusted_key assert_exact_fields required_string select_key read_key check_status
    decode_hex decode_pairs hex_nibble join_nibbles bytes utf8 collect_set Map.get
runtime_run = refl

abbrev file_entry : String → Value
file_entry path = json_object (("path", string path) ∷ ("digest", string file_digest) ∷ [])

abbrev test_manifest : Value
test_manifest = json_object (
    ("schema_version", string "2")
    ∷ ("release_id", string "r1")
    ∷ ("source_id", string "source.main")
    ∷ ("assets", json_object (("rules", string "rules.yaml") ∷ ("schemas", string "schemas") ∷ []))
    ∷ ("files", list_of (file_entry "rules.yaml" ∷ file_entry "schemas/a" ∷ []))
    ∷ (
      "signer",
      json_object (("algorithm", string "ed25519") ∷ ("key_id", string "release-key") ∷ []),
    )
    ∷ ("signature", string ("ed25519:" <> (zeros <> zeros)))
    ∷ [])

abbrev test_root : Entries
test_root = entry "release.yaml" (file (ok "sha256:manifest")) (
    entry "rules.yaml" (file (ok file_digest))
      (entry "schemas" (directory (entry "a" (file (ok file_digest)) end)) end))

abbrev pub test_delivery : Delivery
test_delivery = record {
  crates = test_crates;
  crypto = test_crypto;
  store = ok test_store;
  manifest = ok test_manifest;
  root = test_root;
}

abbrev lock_with : String → Value
lock_with digest = json_object (
    ("schema_version", string "2")
    ∷ ("framework_release", string "r1")
    ∷ (
      "release_artifact",
      json_object (
          ("artifact_digest", string digest)
          ∷ ("source_id", string "source.main")
          ∷ ("signer_key_id", string "release-key")
          ∷ []),
    )
    ∷ ("rule_set", json_object (("source_digest", string "sha256:2") ∷ []))
    ∷ (
      "schema_bundle",
      json_object (("digest", string "sha256:1056") ∷ ("version", string "5") ∷ []),
    )
    ∷ [])

abbrev pub test_lock : Value
test_lock = lock_with "sha256:393"

abbrev test_verified : VerifiedManifest
test_verified = record { rules = "rules.yaml"; schemas = "schemas"; framework_catalog = none }

pub released_run : verify_release_manifest test_delivery test_lock runtime ≡ ok test_verified
unfolding verify_release_manifest required_lock_string required_string check_manifest
    assert_optional_framework_catalog_asset verify_signed_manifest assert_exact_fields
    signed_payload check_pinned verify_signature trusted_key select_key read_key check_status
    decode_hex decode_pairs hex_nibble join_nibbles bytes utf8 collect_set verify_file_inventory
    expected_files add_file validate_sha256 is_sha256_hex validate_relative_path is_relative_path
    split_path rest_is_normal collect_release_files visit replace_backslashes check_digests
    catalog_path canonical_digest canonical_json write_canonical write_number write_entries
    join_items decimal sort_by Map.get Map.insert get Value.string_field
released_run = refl

verify_release_manifest-IsReleased_example :
    IsReleased test_delivery test_lock runtime test_verified
unfolding string_field get Map.get
verify_release_manifest-IsReleased_example =
    verify_release_manifest-IsReleased test_delivery test_lock runtime refl released_run

digest_run : validate_sha256 file_digest ≡ ok tt
unfolding validate_sha256 is_sha256_hex
digest_run = refl

inventory_evaded_example :
    verify_file_inventory (two_files file_digest "sha256:other") (one_file file_digest) ≡ ok tt
inventory_evaded_example = inventory_evaded file_digest "sha256:other" digest_run

abbrev test_files_of : Map Value
test_files_of = ("files", list_of (file_entry "rules.yaml" ∷ file_entry "schemas/a" ∷ [])) ∷ []

inventory_run : verify_file_inventory test_root test_files_of ≡ ok tt
unfolding verify_file_inventory required_string assert_exact_fields expected_files add_file
    validate_sha256 is_sha256_hex validate_relative_path is_relative_path split_path rest_is_normal
    collect_release_files visit replace_backslashes check_digests Map.get Map.insert
inventory_run = refl

verify_file_inventory-IsExact_example : IsExact test_root test_files_of
verify_file_inventory-IsExact_example =
    verify_file_inventory-IsExact test_root test_files_of inventory_run
