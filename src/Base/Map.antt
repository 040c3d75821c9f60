-- ===== src/Base/Map.antt =====
-- `BTreeMap<String, V>` as a list of pairs in the order of its keys, and `BTreeSet<String>`.
pub mod Ascending
use Prim.Native.Nat.{Ordering}
use Prim.Native.String.{String, compare}
use mathlib.Core.Path.{◌≡◌, refl, sym, ◌∙◌}
use mathlib.Core.Bool.{Bool, true, false}
use mathlib.Core.Option.{Option, none, some}
use mathlib.Core.List.{List, [], ◌∷◌, map, Memᴰ}
use native.Mathlib.Omega.{arith}
use text.Mathlib.TextEquality.{eq_iff}
use agentic_development_fram.Base.Bools.{if◌then◌else◌, Bool-cases, Option-cases}
use mathlib.Core.Logic.{◌⊎◌, inl, inr}
use mathlib.Core.List.Memᴰ
use agentic_development_fram.Base.Texts.{◌==◌, eq_of_==, ==-self}

abbrev pub Map {ℓ} : Type ℓ → Type ℓ
Map V = List (String × V)

module _ {ℓ} {V : Type ℓ} where
  unfoldable pub get : String → Map V → Option V
  get k [] = none
  get k ((j, v) ∷ m) = if j == k then some v else get k m

  unfoldable pub insert : String → V → Map V → Map V
  insert k v [] = (k, v) ∷ []
  insert k v ((j, w) ∷ m) =
      let rest = insert k v m in
      elim (compare k j) [
        | Ordering.lt ↦ (k, v) ∷ (j, w) ∷ m
        | Ordering.eq ↦ (k, v) ∷ m
        | Ordering.gt ↦ (j, w) ∷ rest
      ]

  pub get-insert :
      (k j : String) (v : V) (m : Map V)
      → get j (insert k v m) ≡ (if k == j then some v else get j m)
  unfolding get insert
  get-insert k j v [] = refl
  get-insert k j v ((i, w) ∷ m) =
      ground (arith, eq_iff k j, eq_iff i k, eq_iff i j, eq_iff k i, get-insert k j v m)

module _ {V : Type 0} where
  -- What `get` finds is an entry, and its key is a key.
  pub get-mem :
      (k : String) (m : Map V) {v : V}
      → get k m ≡ some v
      → Memᴰ (k, v) m × Memᴰ k (map (λ (entry : String × V). entry.0) m)
  unfolding get
  get-mem k [] e = cc
  get-mem k ((j, w) ∷ m) {v} e = elim (Bool-cases (j == k)) [
    | inl q ↦
        let s : j ≡ k = eq_of_== j k q in
        let t : w ≡ v = cc (rw q at e) in (Memᴰ.head (cc (s, t)), Memᴰ.head (sym s))
    | inr q ↦ let (n, o) = get-mem k m (rw q at e) in (Memᴰ.tail n, Memᴰ.tail o)
  ]

  -- `get` finds nothing only where the key is no key.
  pub get-none :
      (k : String) (m : Map V) → get k m ≡ none → ¬ Memᴰ k (map (λ (entry : String × V). entry.0) m)
  unfolding get
  get-none k [] e n = elim n [ ]
  get-none k ((j, w) ∷ m) e (Memᴰ.head q) = ground (arith, ==-self j, q, e)
  get-none k ((j, w) ∷ m) e (Memᴰ.tail n) = get-none k m (ground (arith, e)) n

  -- An entry of the map after an insertion is the new one or an old one.
  pub mem-insert :
      (k : String) (v : V) (m : Map V) {e : String × V}
      → Memᴰ e (insert k v m)
      → (e ≡ (k, v)) ⊎ Memᴰ e m
  unfolding insert
  mem-insert k v [] (Memᴰ.head q) = inl q
  mem-insert k v [] (Memᴰ.tail n) = elim n [ ]
  mem-insert k v ((j, w) ∷ m) {e} n = by_order (compare k j) refl n (mem-insert k v m)
    where
      by_order :
          (o : Ordering)
          → compare k j ≡ o
          → Memᴰ e (insert k v ((j, w) ∷ m))
          → (Memᴰ e (insert k v m) → (e ≡ (k, v)) ⊎ Memᴰ e m)
          → (e ≡ (k, v)) ⊎ Memᴰ e ((j, w) ∷ m)
      by_order Ordering.lt q n ih = elim (Memᴰ.cases_cons (rw (q, insert) at n)) [
        | inl h ↦ inl h
        | inr t ↦ inr t
      ]
      by_order Ordering.eq q n ih = elim (Memᴰ.cases_cons (rw (q, insert) at n)) [
        | inl h ↦ inl h
        | inr t ↦ inr (Memᴰ.tail t)
      ]
      by_order Ordering.gt q n ih = elim (Memᴰ.cases_cons (rw (q, insert) at n)) [
        | inl h ↦ inr (Memᴰ.head h)
        | inr t ↦ elim (ih t) [ inl h ↦ inl h | inr u ↦ inr (Memᴰ.tail u) ]
      ]

  -- What `get` finds after an insertion is the new value under its key, or what it found before.
  pub insert-found :
      (k j : String) (v : V) (m : Map V) {d : V}
      → get j (insert k v m) ≡ some d
      → ((k ≡ j) × (v ≡ d)) ⊎ (get j m ≡ some d)
  insert-found k j v m {d} g = by_key (k == j) refl (sym (get-insert k j v m) ∙ g)
    where
      by_key :
          (b : Bool)
          → (k == j) ≡ b
          → (if b then some v else get j m) ≡ some d
          → ((k ≡ j) × (v ≡ d)) ⊎ (get j m ≡ some d)
      by_key true e h = inl (eq_of_== k j e, cc h)
      by_key false e h = inr h

  -- A key of the map is found.
  pub get-key :
      (k : String) (m : Map V)
      → Memᴰ k (map (λ (entry : String × V). entry.0) m)
      → (v : V) × (get k m ≡ some v)
  get-key k m n = elim (Option-cases (get k m)) [
    | inl e ↦ absurd (get-none k m e n)
    | inr (v, e) ↦ (v, e)
  ]
