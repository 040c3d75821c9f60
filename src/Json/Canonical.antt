-- ===== src/Json/Canonical.antt =====
-- Canonical JSON and its digest: `canonical_json`, `canonical_digest` and `write_canonical` of
-- src/lib.rs.
use agentic_development_fram.Base.{
  String, Bool, Result, ok, err, ◌>>=◌, ◌<>◌, decimal, List, [], ◌∷◌, if◌then◌else◌,
}
use agentic_development_fram.Base.Order.{sort_by, text_le}
use agentic_development_fram.Base.Map.{Map}
use agentic_development_fram.Json.Value.{
  Value, null, bool, number, string, array, object, Items, nil, cons, Fields, end, field, Number,
  unsigned, negative, float,
}

-- The two crates behind an identity: `serde_json::to_string` of a text, and the lower-case
-- hexadecimal SHA-256 of a text's bytes.
pub record Crates : Type 0 where
  pub quote : String → String
  pub sha256_hex : String → String

pub data CanonicalError : Type 0 where
  floating_point_not_supported : CanonicalError

-- `Number::to_string`, for the numbers that are integers
unfoldable pub write_number : Number → Result CanonicalError String
write_number (unsigned n) = ok (decimal n)
write_number (negative n) = ok ("-" <> decimal n)
write_number (float s) = err floating_point_not_supported

abbrev pub key_le : String × String → String × String → Bool
key_le (k, s) (l, t) = text_le k l

-- `item,item,…`, with the comma before each item but the first
unfoldable pub join_items : List String → String
join_items [] = ""
join_items (s ∷ []) = s
join_items (s ∷ t ∷ ts) = s <> "," <> join_items (t ∷ ts)

module _ (crates : Crates) where
  unfoldable pub write_entries : Map String → List String
  write_entries [] = []
  write_entries ((k, s) ∷ es) = (crates.quote k <> ":" <> s) ∷ write_entries es

-- `write_canonical` returns the text that it appends. The fields are written first and sorted by
-- their keys after, which is the same text, and the same error, since there is only one.
unfoldable mutual
  pub write_canonical : Crates → Value → Result CanonicalError String
  write_canonical crates null = ok "null"
  write_canonical crates (bool b) = ok (if b then "true" else "false")
  write_canonical crates (number n) = write_number n
  write_canonical crates (string s) = ok (crates.quote s)
  write_canonical crates (array vs) =
      write_items crates vs >>= λ ts. ok ("[" <> join_items ts <> "]")
  write_canonical crates (object fs) = write_fields crates fs >>= λ es.
      ok ("{" <> join_items (write_entries crates (sort_by key_le es)) <> "}")

  pub write_items : Crates → Items → Result CanonicalError (List String)
  write_items crates nil = ok []
  write_items crates (cons v vs) =
      write_canonical crates v >>= λ t. write_items crates vs >>= λ ts. ok (t ∷ ts)

  pub write_fields : Crates → Fields → Result CanonicalError (Map String)
  write_fields crates end = ok []
  write_fields crates (field k v fs) =
      write_canonical crates v >>= λ t. write_fields crates fs >>= λ es. ok ((k, t) ∷ es)

unfoldable pub canonical_json : Crates → Value → Result CanonicalError String
canonical_json crates v = write_canonical crates v

unfoldable pub canonical_digest : Crates → Value → Result CanonicalError String
canonical_digest crates v =
    canonical_json crates v >>= λ text. ok ("sha256:" <> crates.sha256_hex text)

-- `canonical_digest(…).expect(…)`, with the empty text in place of the panic, which
-- `HasNoFloat` values never reach.
unfoldable pub expect_digest : Crates → Value → String
expect_digest crates v = elim (canonical_digest crates v) [ ok d ↦ d | err e ↦ "" ]
