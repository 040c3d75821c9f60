-- ===== src/Base/Members.antt =====
-- What the Boolean list walks say of the members.
use mathlib.Core.Path.{◌≡◌, refl, sym, ap, subst, ◌∙◌}
use mathlib.Core.Logic.{◌⊎◌, inl, inr}
use mathlib.Core.Bool.{Bool, true, false}
use mathlib.Core.Option.{Option, none, some}
use mathlib.Core.List.{List, [], ◌∷◌, ◌++◌, map, Memᴰ}
use mathlib.Core.List.Memᴰ
use native.Mathlib.Omega.{arith}
use agentic_development_fram.Base.Bools.{Bool-cases, Option-cases}
use agentic_development_fram.Base.Lists.{any, all, filter, find, is_empty, find_map, flat_map}

-- Every member satisfies `P`.
abbrev pub All {ℓ κ} : {A : Type ℓ} → (A → Type κ) → List A → Type κ
All P [] = Unit
All P (x ∷ xs) = P x × All P xs

module _ {ℓ κ} {A : Type ℓ} where
  pub All-mem : (P : A → Type κ) {x : A} (xs : List A) → All P xs → Memᴰ x xs → P x
  All-mem P [] h m = elim m [ ]
  All-mem P (y ∷ xs) h (Memᴰ.head e) = subst P (sym e) h.0
  All-mem P (y ∷ xs) h (Memᴰ.tail m) = All-mem P xs h.1 m

  pub All-of_mem : (P : A → Type κ) (xs : List A) → ((x : A) → Memᴰ x xs → P x) → All P xs
  All-of_mem P [] h = tt
  All-of_mem P (x ∷ xs) h = (h x (Memᴰ.head refl), All-of_mem P xs (λ y m. h y (Memᴰ.tail m)))

module _ {ℓ} {A : Type ℓ} (p : A → Bool) where
  -- `any` and `all` decide `there is a member` and `every member`.
  pub any-mem : (xs : List A) → any p xs ≡ true → (x : A) × Memᴰ x xs × (p x ≡ true)
  any-mem [] h = cc
  any-mem (x ∷ xs) h = elim (Bool-cases (p x)) [
    | inl e ↦ (x, Memᴰ.head refl, e)
    | inr e ↦ let (y, m, q) = any-mem xs (rw e at h) in (y, Memᴰ.tail m, q)
  ]

  pub any-of_mem : {x : A} (xs : List A) → Memᴰ x xs → p x ≡ true → any p xs ≡ true
  any-of_mem [] m h = elim m [ ]
  any-of_mem (y ∷ xs) (Memᴰ.head e) h = rw (ap p (sym e)) (rw h)
  any-of_mem (y ∷ xs) (Memᴰ.tail m) h = ground (arith, any-of_mem xs m h)

  pub any-false : {x : A} (xs : List A) → any p xs ≡ false → Memᴰ x xs → p x ≡ false
  any-false {x} xs h m = elim (Bool-cases (p x)) [ inl e ↦ cc (any-of_mem xs m e) | inr e ↦ e ]

  pub all-mem : {x : A} (xs : List A) → all p xs ≡ true → Memᴰ x xs → p x ≡ true
  all-mem [] h m = elim m [ ]
  all-mem (y ∷ xs) h (Memᴰ.head e) = rw e (ground arith)
  all-mem (y ∷ xs) h (Memᴰ.tail m) = all-mem xs (ground arith) m

  pub all-of_mem : (xs : List A) → ((x : A) → Memᴰ x xs → p x ≡ true) → all p xs ≡ true
  all-of_mem [] h = refl
  all-of_mem (x ∷ xs) h = rw (h x (Memᴰ.head refl)) (all-of_mem xs (λ y m. h y (Memᴰ.tail m)))

  pub all-false : (xs : List A) → all p xs ≡ false → (x : A) × Memᴰ x xs × (p x ≡ false)
  all-false [] h = cc
  all-false (x ∷ xs) h = elim (Bool-cases (p x)) [
    | inl e ↦ let (y, m, q) = all-false xs (rw e at h) in (y, Memᴰ.tail m, q)
    | inr e ↦ (x, Memᴰ.head refl, e)
  ]

  -- The members of `filter p xs` are those of `xs` that pass `p`.
  pub filter-mem : {x : A} (xs : List A) → Memᴰ x (filter p xs) → Memᴰ x xs × (p x ≡ true)
  filter-mem [] m = elim m [ ]
  filter-mem {x} (y ∷ xs) m = elim (Bool-cases (p y)) [
    | inl e ↦ kept e (filter-mem xs) (rw e at m)
    | inr e ↦ let (n, q) = filter-mem xs (rw e at m) in (Memᴰ.tail n, q)
  ]
    where
      kept :
          p y ≡ true
          → (Memᴰ x (filter p xs) → Memᴰ x xs × (p x ≡ true))
          → Memᴰ x (y ∷ filter p xs)
          → Memᴰ x (y ∷ xs) × (p x ≡ true)
      kept e ih (Memᴰ.head q) = (Memᴰ.head q, rw q e)
      kept e ih (Memᴰ.tail n) = (Memᴰ.tail (ih n).0, (ih n).1)

  pub mem-filter : {x : A} (xs : List A) → Memᴰ x xs → p x ≡ true → Memᴰ x (filter p xs)
  mem-filter [] m h = elim m [ ]
  mem-filter (y ∷ xs) (Memᴰ.head e) h = rw (ap p (sym e)) (rw h (Memᴰ.head e))
  mem-filter (y ∷ xs) (Memᴰ.tail m) h = elim (Bool-cases (p y)) [
    | inl e ↦ rw e (Memᴰ.tail (mem-filter xs m h))
    | inr e ↦ rw e (mem-filter xs m h)
  ]

  pub is_empty-filter :
      {x : A} (xs : List A) → is_empty (filter p xs) ≡ true → Memᴰ x xs → p x ≡ false
  is_empty-filter {x} xs h m = elim (Bool-cases (p x)) [
    | inl e ↦ absurd (none_left (filter p xs) h (mem-filter xs m e))
    | inr e ↦ e
  ]
    where
      none_left : (ys : List A) → is_empty ys ≡ true → Memᴰ x ys → ⊥
      none_left [] h m = elim m [ ]
      none_left (y ∷ ys) h m = cc

  pub find-mem : (xs : List A) {x : A} → find p xs ≡ some x → Memᴰ x xs × (p x ≡ true)
  find-mem [] h = cc
  find-mem (y ∷ xs) {x} h = elim (Bool-cases (p y)) [
    | inl e ↦ let q : y ≡ x = cc (rw e at h) in (Memᴰ.head (sym q), rw (← q) e)
    | inr e ↦ let (m, q) = find-mem xs (rw e at h) in (Memᴰ.tail m, q)
  ]

  pub find-none : {x : A} (xs : List A) → find p xs ≡ none → Memᴰ x xs → p x ≡ false
  find-none [] h m = elim m [ ]
  find-none (y ∷ xs) h (Memᴰ.head e) = rw e (ground arith)
  find-none (y ∷ xs) h (Memᴰ.tail m) = find-none xs (ground arith) m

pub List-cases {ℓ} :
    {A : Type ℓ} (xs : List A) → (xs ≡ []) ⊎ ((x : A) × (rest : List A) × (xs ≡ x ∷ rest))
List-cases [] = inl refl
List-cases (x ∷ xs) = inr (x, xs, refl)

module _ {ℓ κ} {A : Type ℓ} {B : Type κ} (f : A → B) where
  pub mem-map : {y : B} (xs : List A) → Memᴰ y (map f xs) → (x : A) × Memᴰ x xs × (f x ≡ y)
  mem-map [] m = elim m [ ]
  mem-map (x ∷ xs) (Memᴰ.head e) = (x, Memᴰ.head refl, sym e)
  mem-map (x ∷ xs) (Memᴰ.tail m) = let (z, n, q) = mem-map xs m in (z, Memᴰ.tail n, q)

module _ {A B : Type 0} (f : A → Option B) where
  -- What `find_map` finds is the image of some member.
  pub find_map-mem :
      (xs : List A) {b : B} → find_map f xs ≡ some b → (a : A) × Memᴰ a xs × (f a ≡ some b)
  find_map-mem [] e = cc
  find_map-mem (x ∷ xs) {b} e = elim (Option-cases (f x)) [
    | inl n ↦ let (a, m, q) = find_map-mem xs (rw (n, find_map) at e) in (a, Memᴰ.tail m, q)
    | inr (c, m) ↦ (x, Memᴰ.head refl, m ∙ (rw (m, find_map) at e))
  ]

  -- Where it finds nothing, no member has an image.
  pub find_map-none : {a : A} (xs : List A) → find_map f xs ≡ none → Memᴰ a xs → f a ≡ none
  find_map-none [] e m = elim m [ ]
  find_map-none {a} (x ∷ xs) e m = elim (Option-cases (f x)) [
    | inr (c, q) ↦ cc (rw (q, find_map) at e)
    | inl q ↦ elim (Memᴰ.cases_cons m) [
      | inl h ↦ rw h q
      | inr t ↦ find_map-none xs (rw (q, find_map) at e) t
    ]
  ]

module _ {A B : Type 0} (f : A → B) where
  pub map-mem : {x : A} (xs : List A) → Memᴰ x xs → Memᴰ (f x) (map f xs)
  map-mem [] m = elim m [ ]
  map-mem (y ∷ xs) m = elim (Memᴰ.cases_cons m) [
    | inl e ↦ Memᴰ.head (ap f e)
    | inr t ↦ Memᴰ.tail (map-mem xs t)
  ]

module _ {A : Type 0} where
  pub append-mem : {x : A} (xs ys : List A) → Memᴰ x (xs ++ ys) → Memᴰ x xs ⊎ Memᴰ x ys
  append-mem [] ys m = inr m
  append-mem (y ∷ xs) ys m = elim (Memᴰ.cases_cons m) [
    | inl e ↦ inl (Memᴰ.head e)
    | inr t ↦ elim (append-mem xs ys t) [ inl n ↦ inl (Memᴰ.tail n) | inr n ↦ inr n ]
  ]

  pub mem-append_left : {x : A} (xs ys : List A) → Memᴰ x xs → Memᴰ x (xs ++ ys)
  mem-append_left [] ys m = elim m [ ]
  mem-append_left (y ∷ xs) ys m = elim (Memᴰ.cases_cons m) [
    | inl e ↦ Memᴰ.head e
    | inr t ↦ Memᴰ.tail (mem-append_left xs ys t)
  ]

  pub mem-append_right : {x : A} (xs ys : List A) → Memᴰ x ys → Memᴰ x (xs ++ ys)
  mem-append_right [] ys m = m
  mem-append_right (y ∷ xs) ys m = Memᴰ.tail (mem-append_right xs ys m)

module _ {A B : Type 0} (f : A → List B) where
  pub flat_map-mem :
      (xs : List A) {b : B} → Memᴰ b (flat_map f xs) → (a : A) × Memᴰ a xs × Memᴰ b (f a)
  flat_map-mem [] m = elim m [ ]
  flat_map-mem (x ∷ xs) m = elim (append-mem (f x) (flat_map f xs) m) [
    | inl n ↦ (x, Memᴰ.head refl, n)
    | inr n ↦ let (a, k, q) = flat_map-mem xs n in (a, Memᴰ.tail k, q)
  ]

  pub mem-flat_map :
      {a : A} {b : B} (xs : List A) → Memᴰ a xs → Memᴰ b (f a) → Memᴰ b (flat_map f xs)
  mem-flat_map [] m n = elim m [ ]
  mem-flat_map {a} {b} (x ∷ xs) m n = elim (Memᴰ.cases_cons m) [
    | inl e ↦ mem-append_left (f x) _ (subst (λ x. Memᴰ b (f x)) e n)
    | inr t ↦ mem-append_right (f x) _ (mem-flat_map xs t n)
  ]
