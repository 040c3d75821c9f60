-- ===== src/Base/Order/Sorted.antt =====
-- What a sort keeps: its members, and that its first is a least one.
use mathlib.Core.Path.{◌≡◌, refl, subst}
use mathlib.Core.Logic.{inl, inr}
use mathlib.Core.Bool.{Bool, true, false}
use mathlib.Core.List.{List, [], ◌∷◌, Memᴰ}
use mathlib.Core.List.Memᴰ
use agentic_development_fram.Base.Bools.{Bool-cases}
use Prim.Native.String.{String}
use agentic_development_fram.Base.Texts.{◌==◌, eq_of_==}
use agentic_development_fram.Base.Order.{text_le, insert_sorted, sort_by, sort, dedup}

-- The Boolean order is a total preorder.
pub record IsOrder {A : Type 0} (le : A → A → Bool) : Type 0 where
  pub reflexive : (a : A) → le a a ≡ true
  pub total : (a b : A) → le a b ≡ false → le b a ≡ true
  pub transitive : (a b c : A) → le a b ≡ true → le b c ≡ true → le a c ≡ true

module _ {A : Type 0} (le : A → A → Bool) where
  insert_sorted-mem :
      {x : A} (y : A) (xs : List A) → Memᴰ x (insert_sorted le y xs) → Memᴰ x (y ∷ xs)
  unfolding insert_sorted
  insert_sorted-mem y [] m = m
  insert_sorted-mem y (z ∷ xs) m = elim (Bool-cases (le y z)) [
    | inl e ↦ rw e at m
    | inr e ↦ elim (Memᴰ.cases_cons (rw e at m)) [
      | inl h ↦ Memᴰ.tail (Memᴰ.head h)
      | inr t ↦ elim (Memᴰ.cases_cons (insert_sorted-mem y xs t)) [
        | inl h ↦ Memᴰ.head h
        | inr u ↦ Memᴰ.tail (Memᴰ.tail u)
      ]
    ]
  ]

  mem-insert_sorted :
      {x : A} (y : A) (xs : List A) → Memᴰ x (y ∷ xs) → Memᴰ x (insert_sorted le y xs)
  unfolding insert_sorted
  mem-insert_sorted y [] m = m
  mem-insert_sorted y (z ∷ xs) m = elim (Bool-cases (le y z)) [
    | inl e ↦ rw e m
    | inr e ↦ rw e (elim (Memᴰ.cases_cons m) [
      | inl h ↦ Memᴰ.tail (mem-insert_sorted y xs (Memᴰ.head h))
      | inr t ↦ elim (Memᴰ.cases_cons t) [
        | inl h ↦ Memᴰ.head h
        | inr u ↦ Memᴰ.tail (mem-insert_sorted y xs (Memᴰ.tail u))
      ]
    ])
  ]

  -- A sort has the members of the list, and no others.
  pub sort_by-mem : {x : A} (xs : List A) → Memᴰ x (sort_by le xs) → Memᴰ x xs
  unfolding sort_by
  sort_by-mem [] m = m
  sort_by-mem (y ∷ xs) m = elim (Memᴰ.cases_cons (insert_sorted-mem y (sort_by le xs) m)) [
    | inl h ↦ Memᴰ.head h
    | inr t ↦ Memᴰ.tail (sort_by-mem xs t)
  ]

  pub mem-sort_by : {x : A} (xs : List A) → Memᴰ x xs → Memᴰ x (sort_by le xs)
  unfolding sort_by
  mem-sort_by [] m = m
  mem-sort_by (y ∷ xs) m =
      mem-insert_sorted y (sort_by le xs)
        (elim (Memᴰ.cases_cons m) [ inl h ↦ Memᴰ.head h | inr t ↦ Memᴰ.tail (mem-sort_by xs t) ])

  -- No member is before the first.
  abbrev pub IsLeastOf : List A → List A → Type 0
  IsLeastOf [] xs = xs ≡ []
  IsLeastOf (h ∷ t) xs = Memᴰ h xs × ((z : A) → Memᴰ z xs → le h z ≡ true)

  insert_sorted-least :
      IsOrder le
      → (y : A) (sorted xs : List A) → IsLeastOf sorted xs
      → IsLeastOf (insert_sorted le y sorted) (y ∷ xs)
  unfolding insert_sorted
  insert_sorted-least order y [] xs h = (
    Memᴰ.head refl,
    λ z m. elim (Memᴰ.cases_cons m) [
      | inl e ↦ rw e (order.reflexive y)
      | inr t ↦ elim (subst (λ l. Memᴰ z l) h t) [ ]
    ],
  )
  insert_sorted-least order y (x ∷ sorted) xs (n, h) = elim (Bool-cases (le y x)) [
    | inl e ↦ rw e (
      Memᴰ.head refl,
      λ z m. elim (Memᴰ.cases_cons m) [
        | inl q ↦ rw q (order.reflexive y)
        | inr t ↦ order.transitive y x z e (h z t)
      ],
    )
    | inr e ↦ rw e (
      Memᴰ.tail n,
      λ z m. elim (Memᴰ.cases_cons m) [ inl q ↦ rw q (order.total y x e) | inr t ↦ h z t ],
    )
  ]

  pub sort_by-least : IsOrder le → (xs : List A) → IsLeastOf (sort_by le xs) xs
  unfolding sort_by
  sort_by-least order [] = refl
  sort_by-least order (x ∷ xs) =
      insert_sorted-least order x (sort_by le xs) xs (sort_by-least order xs)

-- Without the equal neighbours the members are the same.
dedup-mem : {x : String} (xs : List String) → Memᴰ x (dedup xs) → Memᴰ x xs
unfolding dedup
dedup-mem [] m = m
dedup-mem (y ∷ []) m = m
dedup-mem (y ∷ z ∷ ys) m = elim (Bool-cases (y == z)) [
  | inl e ↦ Memᴰ.tail (dedup-mem (z ∷ ys) (rw e at m))
  | inr e ↦ elim (Memᴰ.cases_cons (rw e at m)) [
    | inl h ↦ Memᴰ.head h
    | inr t ↦ Memᴰ.tail (dedup-mem (z ∷ ys) t)
  ]
]

mem-dedup : {x : String} (xs : List String) → Memᴰ x xs → Memᴰ x (dedup xs)
unfolding dedup
mem-dedup [] m = m
mem-dedup (y ∷ []) m = m
mem-dedup {x} (y ∷ z ∷ ys) m = elim (Bool-cases (y == z)) [
  | inl e ↦ rw e (
      mem-dedup (z ∷ ys) (elim (Memᴰ.cases_cons m) [
        | inl h ↦ Memᴰ.head (subst (λ w. x ≡ w) (eq_of_== y z e) h)
        | inr t ↦ t
      ]))
  | inr e ↦
      rw e (elim (Memᴰ.cases_cons m) [
        | inl h ↦ Memᴰ.head h
        | inr t ↦ Memᴰ.tail (mem-dedup (z ∷ ys) t)
      ])
]

-- A `BTreeSet` of the texts has the members of the list, and no others.
pub dedup-sort-mem : {x : String} (xs : List String) → Memᴰ x (dedup (sort xs)) → Memᴰ x xs
unfolding sort
dedup-sort-mem xs m = sort_by-mem text_le xs (dedup-mem (sort xs) m)

pub mem-dedup-sort : {x : String} (xs : List String) → Memᴰ x xs → Memᴰ x (dedup (sort xs))
unfolding sort
mem-dedup-sort xs m = mem-dedup (sort xs) (mem-sort_by text_le xs m)
