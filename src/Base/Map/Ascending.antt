-- ===== src/Base/Map/Ascending.antt =====
-- An insertion keeps the keys of a map in order, so that none is there twice.
use Prim.Native.Nat.{Ordering}
use Prim.Native.String.{String, compare}
use mathlib.Core.Path.{◌≡◌, refl, sym, ap, ◌∙◌, subst}
use mathlib.Core.Logic.{inl, inr}
use mathlib.Core.List.{List, [], ◌∷◌, map, Memᴰ}
use mathlib.Core.List.Memᴰ
use native.Mathlib.Omega.{arith}
use text.Mathlib.TextEquality.{path_by_compare}
use agentic_development_fram.Base.Members.{mem-map, map-mem}
use agentic_development_fram.Base.Order.Laws.{compare_swap, compare_trans}
use agentic_development_fram.Base.Map.{Map, insert, mem-insert}

-- Each text is before all that follow it.
abbrev pub IsAscending : List String → Type 0
IsAscending [] = Unit
IsAscending (s ∷ ss) = ((t : String) → Memᴰ t ss → compare s t ≡ Ordering.lt) × IsAscending ss

module _ {V : Type 0} where
  abbrev pub keys_of : Map V → List String
  keys_of m = map (λ (entry : String × V). entry.0) m

  -- A key is before those of an insertion if it is before the new one and the old ones.
  before-insert :
      (j k : String) (v : V) (m : Map V)
      → compare j k ≡ Ordering.lt
      → ((t : String) → Memᴰ t (keys_of m) → compare j t ≡ Ordering.lt)
      → (t : String) → Memᴰ t (keys_of (insert k v m))
      → compare j t ≡ Ordering.lt
  before-insert j k v m h g t n =
      let (entry, o, e) = mem-map (λ (entry : String × V). entry.0) (insert k v m) n in
      elim (mem-insert k v m o) [
        | inl q ↦
            subst (λ t. compare j t ≡ Ordering.lt) (ap (λ (x : String × V). x.0) (sym q) ∙ e) h
        | inr p ↦
            g t (subst (λ t. Memᴰ t (keys_of m)) e (map-mem (λ (entry : String × V). entry.0) m p))
      ]

  pub insert-IsAscending :
      (k : String) (v : V) (m : Map V)
      → IsAscending (keys_of m)
      → IsAscending (keys_of (insert k v m))
  unfolding insert
  insert-IsAscending k v [] h = (λ t n. elim n [ ], tt)
  insert-IsAscending k v ((j, w) ∷ m) h = by_order (compare k j) refl (insert-IsAscending k v m h.1)
    where
      by_order :
          (o : Ordering)
          → compare k j ≡ o
          → IsAscending (keys_of (insert k v m))
          → IsAscending (keys_of (insert k v ((j, w) ∷ m)))
      by_order Ordering.lt q ih =
          rw (q, insert)
            (
              λ t n. elim (Memᴰ.cases_cons n) [
                | inl e ↦ rw e q
                | inr o ↦ compare_trans k j t q (h.0 t o)
              ],
              h,
            )
      by_order Ordering.eq q ih =
          let e : k ≡ j = path_by_compare k j q in rw (q, insert) (λ t n. rw e (h.0 t n), h.1)
      by_order Ordering.gt q ih =
          rw (q, insert) (before-insert j k v m (ground (arith, q, compare_swap k j)) h.0, ih)
