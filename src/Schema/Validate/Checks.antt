-- ===== src/Schema/Validate/Checks.antt =====
-- What each group of keyword checks accepts (`validate_value` of src/schema.rs), for a validator of
-- the schemas inside.
use mathlib.Core.List.Memᴰ
use agentic_development_fram.Base.{
  suc, String, Bool, true, Option, none, some, List, [], ◌∷◌, ◌≡◌, refl, sym, ap, ◌∙◌, subst, ◌↔◌,
  inl, inr, Memᴰ, ok, err, guard, ◌>>◌, is_some, map, ◌≤◌, length, nat_eq, any, any-mem, any-of_mem,
  Bool-cases, Option-cases, filter_map, arith, ◌==◌, eq_of_==, ==-self, guard-eq-ok,
}
use agentic_development_fram.Base.Map
use agentic_development_fram.Base.Map.{Map}
use agentic_development_fram.Json.Value.{Value, string, object, as_str}
use agentic_development_fram.Schema.Keywords.{
  Failure, Validation, where_some, collect_set, check_required,
}
use agentic_development_fram.Schema.Validate.Conforms.{IsDistinct}

abbrev pub Passes : Validation → Type 0
Passes r = r ≡ ok tt

-- A sequence passes if both parts do.
pub >>-Passes : {a b : Validation} → Passes a → Passes b → Passes (a >> b)
>>-Passes {a} {b} p q = rw p q

pub Passes-split : (a b : Validation) → Passes (a >> b) → Passes a × Passes b
Passes-split (ok tt) b h = (refl, h)
Passes-split (err e) b h = cc

pub guard-Passes : {b : Bool} (e : Failure) → b ≡ true → Passes (guard b e)
guard-Passes e h = rw h refl

pub where_some-Passes :
    {A : Type 0} (o : Option A) {check : A → Validation}
    → ((a : A) → o ≡ some a → Passes (check a))
    → Passes (where_some o check)
where_some-Passes none h = refl
where_some-Passes (some a) h = h a refl

pub Passes-where_some :
    {A : Type 0} {o : Option A} (check : A → Validation) {a : A}
    → o ≡ some a
    → Passes (where_some o check)
    → Passes (check a)
Passes-where_some check e h = subst (λ o. Passes (where_some o check)) e h

-- The set of the texts is as large as their list only if no text is there twice.
collect_set-le : (ss : List String) → length (collect_set ss) ≤ length ss
unfolding collect_set
collect_set-le [] = omega arith
collect_set-le (s ∷ ss) = ground (arith, collect_set-le ss)

mem-collect_set : {t : String} (ss : List String) → Memᴰ t ss → Memᴰ t (collect_set ss)
unfolding collect_set
mem-collect_set [] m = elim m [ ]
mem-collect_set {t} (s ∷ ss) m = elim (Bool-cases (any (λ t. t == s) (collect_set ss))) [
  | inl e ↦ rw e (elim (Memᴰ.cases_cons m) [
    | inl q ↦
        let (u, n, h) = any-mem (λ t. t == s) (collect_set ss) e in
        subst (λ x. Memᴰ x (collect_set ss)) (eq_of_== u s h ∙ sym q) n
    | inr n ↦ mem-collect_set ss n
  ])
  | inr e ↦
      rw e (elim (Memᴰ.cases_cons m) [
        | inl q ↦ Memᴰ.head q
        | inr n ↦ Memᴰ.tail (mem-collect_set ss n)
      ])
]

collect_set-mem : {t : String} (ss : List String) → Memᴰ t (collect_set ss) → Memᴰ t ss
unfolding collect_set
collect_set-mem [] m = m
collect_set-mem {t} (s ∷ ss) m = elim (Bool-cases (any (λ t. t == s) (collect_set ss))) [
  | inl e ↦ Memᴰ.tail (collect_set-mem ss (rw e at m))
  | inr e ↦ elim (Memᴰ.cases_cons (rw e at m)) [
    | inl q ↦ Memᴰ.head q
    | inr n ↦ Memᴰ.tail (collect_set-mem ss n)
  ]
]

IsDistinct-length : (ss : List String) → IsDistinct ss → length (collect_set ss) ≡ length ss
unfolding collect_set
IsDistinct-length [] h = refl
IsDistinct-length (s ∷ ss) h = elim (Bool-cases (any (λ t. t == s) (collect_set ss))) [
  | inl e ↦
      let (u, n, q) = any-mem (λ t. t == s) (collect_set ss) e in
      absurd (h.0 (subst (λ x. Memᴰ x ss) (eq_of_== u s q) (collect_set-mem ss n)))
  | inr e ↦ rw e (ap suc (IsDistinct-length ss h.1))
]

length-IsDistinct : (ss : List String) → length (collect_set ss) ≡ length ss → IsDistinct ss
unfolding collect_set
length-IsDistinct [] h = tt
length-IsDistinct (s ∷ ss) h = elim (Bool-cases (any (λ t. t == s) (collect_set ss))) [
  | inl e ↦ absurd (omega (arith, rw e at h, collect_set-le ss))
  | inr e ↦ (
    λ m. cc (any-of_mem (λ t. t == s) (collect_set ss) (mem-collect_set ss m) (==-self s), e),
    length-IsDistinct ss (omega (arith, rw e at h)),
  )
]

pub unique_iff :
    (ss : List String) → (nat_eq (length (collect_set ss)) (length ss) ≡ true) ↔ IsDistinct ss
unique_iff ss =
    (λ h. length-IsDistinct ss (ground (arith, h)), λ d. ground (arith, IsDistinct-length ss d))

-- Each required name that is a text is looked up.
pub Passes-required :
    (entries : Map Value) (path : String) (names : List String)
    → Passes (check_required entries path names)
    → (name : String) → Memᴰ name names
    → is_some (Map.get name entries) ≡ true
unfolding check_required
Passes-required entries path [] h name m = elim m [ ]
Passes-required entries path (n ∷ names) h name m =
    let (first, rest) = Passes-split (guard (is_some (Map.get n entries)) _) _ h in
    elim (Memᴰ.cases_cons m) [
      | inl q ↦ rw q (guard-eq-ok (is_some (Map.get n entries)) _ first)
      | inr t ↦ Passes-required entries path names rest name t
    ]

pub required-Passes :
    (entries : Map Value) (path : String) (names : List String)
    → ((name : String) → Memᴰ name names → is_some (Map.get name entries) ≡ true)
    → Passes (check_required entries path names)
unfolding check_required
required-Passes entries path [] h = refl
required-Passes entries path (n ∷ names) h =
    >>-Passes (guard-Passes _ (h n (Memᴰ.head refl)))
      (required-Passes entries path names (λ m t. h m (Memᴰ.tail t)))

pub mem-names :
    {name : String} (vs : List Value) → Memᴰ (string name) vs → Memᴰ name (filter_map as_str vs)
mem-names [] m = elim m [ ]
mem-names {name} (v ∷ vs) m = elim (Memᴰ.cases_cons m) [
  | inl q ↦ rw (sym q) (Memᴰ.head refl)
  | inr t ↦ elim (Option-cases (as_str v)) [
    | inl e ↦ rw (e, filter_map) (mem-names vs t)
    | inr (s, e) ↦ rw (e, filter_map) (Memᴰ.tail (mem-names vs t))
  ]
]

as_str-string : (v : Value) {s : String} → as_str v ≡ some s → v ≡ string s
as_str-string (string t) e = ap string (cc e)
as_str-string Value.null e = cc
as_str-string (Value.bool b) e = cc
as_str-string (Value.number n) e = cc
as_str-string (Value.array vs) e = cc
as_str-string (object fs) e = cc

pub names-mem :
    {name : String} (vs : List Value) → Memᴰ name (filter_map as_str vs) → Memᴰ (string name) vs
names-mem [] m = elim m [ ]
names-mem {name} (v ∷ vs) m = elim (Option-cases (as_str v)) [
  | inl e ↦ Memᴰ.tail (names-mem vs (rw (e, filter_map) at m))
  | inr (s, e) ↦ elim (Memᴰ.cases_cons (rw (e, filter_map) at m)) [
    | inl q ↦ Memᴰ.head (ap string q ∙ sym (as_str-string v e))
    | inr t ↦ Memᴰ.tail (names-mem vs t)
  ]
]

pub length-map : {A B : Type 0} (f : A → B) (xs : List A) → length xs ≡ length (map f xs)
length-map f [] = refl
length-map f (x ∷ xs) = ap suc (length-map f xs)
