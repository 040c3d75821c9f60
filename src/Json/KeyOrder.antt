-- ===== src/Json/KeyOrder.antt =====
-- The canonical text of a value does not depend on the order in which its objects hold their
-- fields (`write_canonical` of src/lib.rs sorts the keys).
use agentic_development_fram.Base.{
  String, ◌≡◌, refl, sym, ◌∙◌, ap, ◌≢◌, Result, ok, err, ◌>>=◌, ◌<>◌, arith, [], ◌∷◌,
}
use agentic_development_fram.Base.Order.{sort_by, insert_sorted}
use agentic_development_fram.Base.Order.Laws.{text_le_total, text_le_antisymm, text_le_trans}
use agentic_development_fram.Base.Map.{Map}
use agentic_development_fram.Json.Value.{Value, array, object, Items, nil, cons, Fields, end, field}
use agentic_development_fram.Json.Canonical.{
  Crates, CanonicalError, floating_point_not_supported, key_le, join_items, write_entries,
  write_canonical, write_items, write_fields, canonical_json, canonical_digest,
}

-- The same value, up to the order of the fields of the objects in it. Fields of one key keep their
-- order, and an object of the program has none.
mutual
  pub data Agrees : Value → Value → Type 0 where
    same : {v : Value} → Agrees v v
    arrays : {vs ws : Items} → ItemsAgree vs ws → Agrees (array vs) (array ws)
    objects : {fs gs : Fields} → FieldsAgree fs gs → Agrees (object fs) (object gs)

  pub data ItemsAgree : Items → Items → Type 0 where
    nils : ItemsAgree nil nil
    conses :
        {v w : Value} {vs ws : Items}
        → Agrees v w
        → ItemsAgree vs ws
        → ItemsAgree (cons v vs) (cons w ws)

  pub data FieldsAgree : Fields → Fields → Type 0 where
    ends : FieldsAgree end end
    keep :
        {k : String} {v w : Value} {fs gs : Fields}
        → Agrees v w
        → FieldsAgree fs gs
        → FieldsAgree (field k v fs) (field k w gs)
    swap :
        {k l : String} {v w : Value} {fs : Fields}
        → k ≢ l
        → FieldsAgree (field k v (field l w fs)) (field l w (field k v fs))
    chain : {fs gs hs : Fields} → FieldsAgree fs gs → FieldsAgree gs hs → FieldsAgree fs hs

insert_sorted-swap :
    (k l : String) (s t : String) (es : Map String)
    → k ≢ l
    → insert_sorted key_le (k, s) (insert_sorted key_le (l, t) es)
      ≡ insert_sorted key_le (l, t) (insert_sorted key_le (k, s) es)
unfolding insert_sorted
insert_sorted-swap k l s t [] n = ground (arith, text_le_total k l, text_le_antisymm k l)
insert_sorted-swap k l s t ((j, u) ∷ es) n = ground (
  arith,
  text_le_total k l,
  text_le_antisymm k l,
  text_le_trans k l j,
  text_le_trans l k j,
  insert_sorted-swap k l s t es n,
)

-- The fields of an object as they are written: sorted, or the error.
abbrev sorted_fields : Crates → Fields → Result CanonicalError (Map String)
sorted_fields crates fs = write_fields crates fs >>= λ es. ok (sort_by key_le es)

abbrev add_sorted :
    String
    → Result CanonicalError String
    → Result CanonicalError (Map String)
    → Result CanonicalError (Map String)
add_sorted k t es = t >>= λ s. es >>= λ rest. ok (insert_sorted key_le (k, s) rest)

sorted_fields-field :
    (crates : Crates) (k : String) (v : Value) (fs : Fields)
    → sorted_fields crates (field k v fs)
      ≡ add_sorted k (write_canonical crates v) (sorted_fields crates fs)
unfolding write_canonical sort_by
sorted_fields-field crates k v fs = ground arith

add_sorted-swap :
    (k l : String) (s t : Result CanonicalError String) (es : Result CanonicalError (Map String))
    → k ≢ l
    → add_sorted k s (add_sorted l t es) ≡ add_sorted l t (add_sorted k s es)
add_sorted-swap k l (ok s) (ok t) (ok es) n = ap ok (insert_sorted-swap k l s t es n)
add_sorted-swap k l (ok s) (ok t) (err e) n = refl
add_sorted-swap k l (ok s) (err e) (ok es) n = refl
add_sorted-swap k l (err e) (ok t) (ok es) n = refl
add_sorted-swap k l (ok s) (err floating_point_not_supported) (err floating_point_not_supported) n =
    refl
add_sorted-swap k l (err floating_point_not_supported) (ok t) (err floating_point_not_supported) n =
    refl
add_sorted-swap k l (err floating_point_not_supported) (err floating_point_not_supported) es n =
    refl

fields-swap :
    (crates : Crates) (k l : String) (v w : Value) (fs : Fields)
    → k ≢ l
    → sorted_fields crates (field k v (field l w fs))
      ≡ sorted_fields crates (field l w (field k v fs))
fields-swap crates k l v w fs n =
    sorted_fields-field crates k v (field l w fs)
    ∙ (ap (add_sorted k (write_canonical crates v)) (sorted_fields-field crates l w fs)
        ∙ (add_sorted-swap k l (write_canonical crates v) (write_canonical crates w)
              (sorted_fields crates fs) n
            ∙ (ap (add_sorted l (write_canonical crates w))
                  (sym (sorted_fields-field crates k v fs))
                ∙ sym (sorted_fields-field crates l w (field k v fs)))))

-- The text of an object is made from its sorted fields.
object_text : Crates → Map String → String
object_text crates es = "{" <> join_items (write_entries crates es) <> "}"

object-sorted :
    (crates : Crates) (fs : Fields)
    → write_canonical crates (object fs)
      ≡ (sorted_fields crates fs >>= λ es. ok (object_text crates es))
unfolding write_canonical object_text
object-sorted crates fs = ground arith

object-eq :
    (crates : Crates) (fs gs : Fields)
    → sorted_fields crates fs ≡ sorted_fields crates gs
    → write_canonical crates (object fs) ≡ write_canonical crates (object gs)
object-eq crates fs gs e =
    object-sorted crates fs
    ∙ (ap (λ r. r >>= λ es. ok (object_text crates es)) e ∙ sym (object-sorted crates gs))

mutual
  unfolding write_canonical

  Agrees-write :
      (crates : Crates) {v w : Value}
      → Agrees v w
      → write_canonical crates v ≡ write_canonical crates w
  Agrees-write crates same = refl
  Agrees-write crates (arrays h) =
      ap (λ r. r >>= λ ts. ok ("[" <> join_items ts <> "]")) (ItemsAgree-write crates h)
  Agrees-write crates (objects {fs = fs} {gs = gs} h) =
      object-eq crates fs gs (FieldsAgree-write crates h)

  ItemsAgree-write :
      (crates : Crates) {vs ws : Items}
      → ItemsAgree vs ws
      → write_items crates vs ≡ write_items crates ws
  ItemsAgree-write crates nils = refl
  ItemsAgree-write crates (conses h hs) =
      rw (Agrees-write crates h, ItemsAgree-write crates hs) refl

  FieldsAgree-write :
      (crates : Crates) {fs gs : Fields}
      → FieldsAgree fs gs
      → sorted_fields crates fs ≡ sorted_fields crates gs
  FieldsAgree-write crates ends = refl
  FieldsAgree-write crates (keep {k = k} {v = v} {w = w} {fs = fs} {gs = gs} h hs) =
      sorted_fields-field crates k v fs
      ∙ (rw (Agrees-write crates h, FieldsAgree-write crates hs)
          (sym (sorted_fields-field crates k w gs)))
  FieldsAgree-write crates (swap {k = k} {l = l} {v = v} {w = w} {fs = fs} n) =
      fields-swap crates k l v w fs n
  FieldsAgree-write crates (chain h k) = FieldsAgree-write crates h ∙ FieldsAgree-write crates k

-- Two values that differ only in the order in which their objects hold fields of different keys,
-- at any depth, have the same canonical text, or both have none; so they have the same digest.
pub canonical_json-key_order :
    (crates : Crates) {v w : Value}
    → Agrees v w
    → (canonical_json crates v ≡ canonical_json crates w)
      × (canonical_digest crates v ≡ canonical_digest crates w)
unfolding canonical_json canonical_digest
canonical_json-key_order crates h = let e = Agrees-write crates h in (e, rw e refl)
