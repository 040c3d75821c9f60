-- ===== src/Json/Total.antt =====
-- Which values have a canonical text (`canonical_json` and `canonical_digest` of src/lib.rs).
use agentic_development_fram.Base.{
  String, ◌≡◌, refl, Bool, true, false, ◌||◌, Result, ok, err, ◌>>=◌, ◌<>◌,
}
use agentic_development_fram.Json.Value.{
  Value, null, bool, number, string, array, object, Items, nil, cons, Fields, end, field, Number,
  unsigned, negative, float,
}
use agentic_development_fram.Json.Canonical.{
  Crates, CanonicalError, floating_point_not_supported, write_number, write_canonical, write_items,
  write_fields, canonical_json, canonical_digest, expect_digest,
}

-- A number that is no integer stands somewhere in the value.
abbrev mutual
  pub has_float : Value → Bool
  has_float (number (float s)) = true
  has_float (array vs) = items_have_float vs
  has_float (object fs) = fields_have_float fs
  has_float _ = false

  items_have_float : Items → Bool
  items_have_float nil = false
  items_have_float (cons v vs) = has_float v || items_have_float vs

  fields_have_float : Fields → Bool
  fields_have_float end = false
  fields_have_float (field k v fs) = has_float v || fields_have_float fs

-- A writer fails exactly where there is a float.
abbrev Writes : {A : Type 0} → Bool → Result CanonicalError A → Type 0
Writes b (ok a) = b ≡ false
Writes b (err e) = b ≡ true

Writes-bind :
    {A B : Type 0} (b c : Bool) (m : Result CanonicalError A) (f : A → Result CanonicalError B)
    → Writes b m
    → ((a : A) → Writes c (f a))
    → Writes (b || c) (m >>= f)
Writes-bind b c (ok a) f h k = rw h (k a)
Writes-bind b c (err e) f h k = rw h refl

Writes-return :
    {A B : Type 0} (b : Bool) (m : Result CanonicalError A) (f : A → B)
    → Writes b m
    → Writes b (m >>= λ a. ok (f a))
Writes-return b (ok a) f h = h
Writes-return b (err e) f h = h

write_number-Writes : (n : Number) → Writes (has_float (number n)) (write_number n)
unfolding write_number
write_number-Writes (unsigned n) = refl
write_number-Writes (negative n) = refl
write_number-Writes (float s) = refl

mutual
  unfolding write_canonical

  write_canonical-Writes :
      (crates : Crates) (v : Value) → Writes (has_float v) (write_canonical crates v)
  write_canonical-Writes crates null = refl
  write_canonical-Writes crates (bool b) = refl
  write_canonical-Writes crates (number n) = write_number-Writes n
  write_canonical-Writes crates (string s) = refl
  write_canonical-Writes crates (array vs) =
      Writes-return _ (write_items crates vs) _ (write_items-Writes crates vs)
  write_canonical-Writes crates (object fs) =
      Writes-return _ (write_fields crates fs) _ (write_fields-Writes crates fs)

  write_items-Writes :
      (crates : Crates) (vs : Items) → Writes (items_have_float vs) (write_items crates vs)
  write_items-Writes crates nil = refl
  write_items-Writes crates (cons v vs) =
      Writes-bind _ _ (write_canonical crates v) _ (write_canonical-Writes crates v)
        λ t. Writes-return _ (write_items crates vs) _ (write_items-Writes crates vs)

  write_fields-Writes :
      (crates : Crates) (fs : Fields) → Writes (fields_have_float fs) (write_fields crates fs)
  write_fields-Writes crates end = refl
  write_fields-Writes crates (field k v fs) =
      Writes-bind _ _ (write_canonical crates v) _ (write_canonical-Writes crates v)
        λ t. Writes-return _ (write_fields crates fs) _ (write_fields-Writes crates fs)

-- The digest of a value, by whether there is a float in it.
abbrev pub HasDigest : Crates → Value → Bool → Type 0
HasDigest crates v true = canonical_digest crates v ≡ err floating_point_not_supported
HasDigest crates v false =
    (text : String) × (canonical_json crates v ≡ ok text)
    × (canonical_digest crates v ≡ ok ("sha256:" <> crates.sha256_hex text))
    × (expect_digest crates v ≡ "sha256:" <> crates.sha256_hex text)

-- A value with no floating-point number anywhere has a canonical text, and its digest is the hash
-- of that text behind `sha256:`; a value with one has no digest, and the error says so.
pub canonical_digest-total : (crates : Crates) (v : Value) → HasDigest crates v (has_float v)
unfolding canonical_digest canonical_json expect_digest
canonical_digest-total crates v =
    by_result (write_canonical crates v) refl (has_float v) (write_canonical-Writes crates v)
  where
    by_result :
        (r : Result CanonicalError String)
        → write_canonical crates v ≡ r
        → (b : Bool) → Writes b r
        → HasDigest crates v b
    by_result (ok t) e false h =
        (t, rw e refl, rw e refl, rw (e, expect_digest, canonical_digest, canonical_json) refl)
    by_result (ok t) e true h = cc
    by_result (err floating_point_not_supported) e false h = cc
    by_result (err floating_point_not_supported) e true h = rw e refl
