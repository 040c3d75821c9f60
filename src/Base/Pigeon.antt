-- ===== src/Base/Pigeon.antt =====
-- A list without repetition is no longer than a list that holds all its members.
use Prim.Native.Nat.{suc, ◌≤◌}
use mathlib.Core.Path.{◌≡◌, refl}
use mathlib.Core.List.{List, [], ◌∷◌, Memᴰ}
use native.Mathlib.Omega.{arith}
use agentic_development_fram.Base.Lists.{length}

module _ {ℓ} {A : Type ℓ} where
  abbrev pub Distinct : List A → Type ℓ
  Distinct [] = Unit
  Distinct (x ∷ xs) = ¬ Memᴰ x xs × Distinct xs

  without : {x : A} (ys : List A) → Memᴰ x ys → List A
  without [] m = []
  without (y ∷ ys) (Memᴰ.head e) = ys
  without (y ∷ ys) (Memᴰ.tail m) = y ∷ without ys m

  length-without : {x : A} (ys : List A) (m : Memᴰ x ys) → suc (length (without ys m)) ≡ length ys
  unfolding without
  length-without [] m = elim m [ ]
  length-without (y ∷ ys) (Memᴰ.head e) = refl
  length-without (y ∷ ys) (Memᴰ.tail m) = omega (arith, length-without ys m)

  mem-without :
      {x z : A} (ys : List A) (m : Memᴰ x ys) → Memᴰ z ys → ¬ (z ≡ x) → Memᴰ z (without ys m)
  unfolding without
  mem-without [] m n h = elim m [ ]
  mem-without (y ∷ ys) (Memᴰ.head e) (Memᴰ.head f) h = absurd (h (cc (e, f)))
  mem-without (y ∷ ys) (Memᴰ.head e) (Memᴰ.tail n) h = n
  mem-without (y ∷ ys) (Memᴰ.tail m) (Memᴰ.head f) h = Memᴰ.head f
  mem-without (y ∷ ys) (Memᴰ.tail m) (Memᴰ.tail n) h = Memᴰ.tail (mem-without ys m n h)

  pub Distinct-length :
      (xs ys : List A) → Distinct xs → ((x : A) → Memᴰ x xs → Memᴰ x ys) → length xs ≤ length ys
  Distinct-length [] ys d h = omega arith
  Distinct-length (x ∷ xs) ys d h =
      let m = h x (Memᴰ.head refl) in
      let rest =
        Distinct-length xs (without ys m) d.1
          (λ z n. mem-without ys m (h z (Memᴰ.tail n)) (λ e. d.0 (rw e at n))) in
      omega (arith, rest, length-without ys m)
