-- ===== src/Delivery/Trust/Entries.antt =====
-- Reading an entry of the key store (`trusted_key` of src/delivery.rs).
use agentic_development_fram.Base.{
  String, Bool, true, false, not, Option, none, some, List, [], ◌∷◌, ◌≡◌, ◌≢◌, refl, sym, ap, inl,
  inr, Returns, Returns-bind, Returns-guard, returns, Result, ok, ok_or, ◌==◌, all, is_some,
  is_some_and, and_then, filter_map, length, ok_or-eq-ok, Bool-cases, ok-injective, eq_of_==,
  if◌then◌else◌, ne_of_==,
}
use agentic_development_fram.Base.Map
use agentic_development_fram.Base.Map.{Map}
use agentic_development_fram.Contracts.Scope.{member}
use agentic_development_fram.Json.Value.{Value, as_str, as_array, as_object, string_field, get}
use agentic_development_fram.Json.Lookup.{object-value}
use agentic_development_fram.Delivery.Hex.{decode_hex}
use agentic_development_fram.Delivery.Fields.{assert_exact_fields, required_string}
use agentic_development_fram.Delivery.Trust.{
  SelectedKey, trust_store_schema_version, key_fields, are_unique, read_key,
}

-- An entry of the key store: an ed25519 key with an id, the sources that it may sign for, and its
-- state, which a store of the legacy schema does not have.
pub record IsKeyEntry (schema_version : String) (value : Value) (id : String) (key : SelectedKey)
    : Type 0 where
  pub has_id : string_field value "id" ≡ some id
  pub is_ed25519 : string_field value "algorithm" ≡ some "ed25519"
  pub has_key : string_field value "public_key" ≡ some key.public_key
  pub has_sources :
      (allowed : List Value) × (and_then (get value "allowed_sources") as_array ≡ some allowed)
      × (key.allowed_sources ≡ filter_map as_str allowed)
  pub has_status :
      (schema_version ≡ trust_store_schema_version → string_field value "status" ≡ some key.status)
      × (schema_version ≢ trust_store_schema_version → key.status ≡ "active")

is_some_and-eq : (o : Option String) (s : String) → is_some_and o (λ t. t == s) ≡ true → o ≡ some s
is_some_and-eq none s h = cc
is_some_and-eq (some t) s h = ap some (eq_of_== t s h)

status_of :
    (schema_version : String) (r : Result String String) {status : String}
    → (if schema_version == trust_store_schema_version then r else ok "active") ≡ ok status
    → (schema_version ≡ trust_store_schema_version → r ≡ ok status)
      × (schema_version ≢ trust_store_schema_version → status ≡ "active")
status_of schema_version r {status} h =
    elim (Bool-cases (schema_version == trust_store_schema_version)) [
      | inl e ↦ (λ q. rw e at h, λ n. absurd (n (eq_of_== schema_version _ e)))
      | inr e ↦ (λ q. absurd (ne_of_== schema_version _ e q), λ n. sym (ok-injective (rw e at h)))
    ]

pub field_of :
    (value : Value) {object : Map Value}
    → as_object value ≡ some object
    → (name : String) {s : String} → and_then (Map.get name object) as_str ≡ some s
    → string_field value name ≡ some s
unfolding string_field
field_of value o name e = rw (object-value value o name) e

-- What is read of an entry: the entry, with an id that was not seen.
abbrev pub IsRead : String → List String → Value → String × SelectedKey → Type 0
IsRead schema_version seen value (id, key) =
    IsKeyEntry schema_version value id key × (member id seen ≡ false)

pub read_key-IsRead :
    (schema_version : String) (seen : List String) (value : Value)
    → Returns (IsRead schema_version seen value) (read_key schema_version seen value)
unfolding read_key required_string
read_key-IsRead schema_version seen value = Returns-bind (ok_or (as_object value) _) _ λ object a.
    Returns-bind (assert_exact_fields object (key_fields schema_version)) _ λ u b.
      Returns-bind (ok_or (and_then (Map.get "id" object) as_str) _) _ λ id c.
        Returns-guard (not (member id seen)) _ _ λ unseen.
          Returns-guard
            (is_some_and (and_then (Map.get "algorithm" object) as_str) (λ s. s == "ed25519")) _ _
            λ algorithm.
              Returns-bind (ok_or (and_then (Map.get "allowed_sources" object) as_array) _) _
                λ allowed d. Returns-guard (all (λ v. is_some (as_str v)) allowed) _ _ λ texts.
                  Returns-guard (are_unique (filter_map as_str allowed) (length allowed)) _ _
                    λ unique.
                      Returns-bind (ok_or (and_then (Map.get "public_key" object) as_str) _) _
                        λ public_key e. Returns-bind (decode_hex 32 public_key) _ λ decoded f.
                          Returns-bind
                            (if schema_version == trust_store_schema_version
                              then ok_or (and_then (Map.get "status" object) as_str) _
                              else ok "active")
                            _
                            λ status g.
                              Returns-guard (member status ("active" ∷ "retired" ∷ "revoked" ∷ []))
                                _ _
                                λ known. returns (
                                  entry object id public_key status allowed
                                      (ok_or-eq-ok (as_object value) _ a)
                                      (ok_or-eq-ok (and_then (Map.get "id" object) as_str) _ c)
                                      (is_some_and-eq _ "ed25519" algorithm)
                                      (ok_or-eq-ok
                                        (and_then (Map.get "allowed_sources" object) as_array) _ d)
                                      (ok_or-eq-ok (and_then (Map.get "public_key" object) as_str) _
                                        e)
                                      (status_of schema_version _ g),
                                  not_true (member id seen) unseen,
                                )
  where
    not_true : (b : Bool) → not b ≡ true → b ≡ false
    not_true true h = cc
    not_true false h = refl

    entry :
        (object : Map Value) (id public_key status : String) (allowed : List Value)
        → as_object value ≡ some object
        → and_then (Map.get "id" object) as_str ≡ some id
        → and_then (Map.get "algorithm" object) as_str ≡ some "ed25519"
        → and_then (Map.get "allowed_sources" object) as_array ≡ some allowed
        → and_then (Map.get "public_key" object) as_str ≡ some public_key
        → ((schema_version ≡ trust_store_schema_version
              → ok_or {E = String} (and_then (Map.get "status" object) as_str) "must be a string"
                ≡ ok status)
            × (schema_version ≢ trust_store_schema_version → status ≡ "active"))
        → IsKeyEntry schema_version value id (record {
          public_key = public_key;
          allowed_sources = filter_map as_str allowed;
          status = status;
        })
    entry object id public_key status allowed o i a s k t = record {
      has_id = field_of value o "id" i;
      is_ed25519 = field_of value o "algorithm" a;
      has_key = field_of value o "public_key" k;
      has_sources = (allowed, rw (object-value value o "allowed_sources") s, refl);
      has_status = (
        λ q.
            field_of value o "status"
              (ok_or-eq-ok (and_then (Map.get "status" object) as_str) _ (t.0 q)),
        t.1,
      );
    }
