-- ===== src/Base/Order/Laws.antt =====
-- The order on texts is total, antisymmetric and transitive.
use Prim.Native.Nat.{Ordering}
use Prim.Native.Nat.{compare as compare_nat}
use Prim.Native.Char.{Char, code}
use Prim.Native.String.{String, ◌∷◌, [], compare, then}
use Prim.Native.String.compare
use mathlib.Core.Path.{◌≡◌}
use mathlib.Core.Bool.{true, false}
use native.Mathlib.Omega.{arith}
use text.Mathlib.TextEquality.{path_by_compare}
use text.Mathlib.TextPositions.{compare_refl}
use agentic_development_fram.Base.Order.{text_le}

compare-cons :
    (c d : Char) (s t : String)
    → compare (c ∷ s) (d ∷ t) ≡ then (compare_nat (code c) (code d)) (compare s t)
compare-cons c d s t = λ i. compare.cons-cons c d s t i

compare-nil-cons : (d : Char) (t : String) → compare [] (d ∷ t) ≡ Ordering.lt
compare-nil-cons d t = λ i. compare.nil-cons d t i

compare-cons-nil : (d : Char) (t : String) → compare (d ∷ t) [] ≡ Ordering.gt
compare-cons-nil d t = λ i. compare.cons-nil d t i

compare-nil-nil : compare [] [] ≡ Ordering.eq
compare-nil-nil = λ i. compare.nil-nil i

abbrev opposite : Ordering → Ordering
opposite Ordering.lt = Ordering.gt
opposite Ordering.eq = Ordering.eq
opposite Ordering.gt = Ordering.lt

pub compare_swap : (s t : String) → compare t s ≡ opposite (compare s t)
compare_swap [] [] = ground (arith, compare-nil-nil)
compare_swap [] (d ∷ t) = ground (arith, compare-nil-cons d t, compare-cons-nil d t)
compare_swap (c ∷ s) [] = ground (arith, compare-nil-cons c s, compare-cons-nil c s)
compare_swap (c ∷ s) (d ∷ t) =
    ground (arith, compare-cons c d s t, compare-cons d c t s, compare_swap s t)

pub compare_trans :
    (s t u : String)
    → compare s t ≡ Ordering.lt
    → compare t u ≡ Ordering.lt
    → compare s u ≡ Ordering.lt
compare_trans [] [] u h k = cc compare-nil-nil
compare_trans [] (d ∷ t) [] h k = compare_trans_end d t k
  where
    compare_trans_end :
        (d : Char) (t : String) → compare (d ∷ t) [] ≡ Ordering.lt → compare [] [] ≡ Ordering.lt
    compare_trans_end d t k = cc (compare-cons-nil d t)
compare_trans [] (d ∷ t) (e ∷ u) h k = compare-nil-cons e u
compare_trans (c ∷ s) [] u h k = cc (compare-cons-nil c s)
compare_trans (c ∷ s) (d ∷ t) [] h k = cc (compare-cons-nil d t)
compare_trans (c ∷ s) (d ∷ t) (e ∷ u) h k = ground (
  arith,
  compare-cons c d s t,
  compare-cons d e t u,
  compare-cons c e s u,
  compare_trans s t u,
  path_by_compare s t,
  path_by_compare t u,
)

pub text_le_refl : (s : String) → text_le s s ≡ true
text_le_refl s = ground (arith, compare_refl s)

-- Of two texts that are not in order one way, the other way is.
pub text_le_total : (s t : String) → text_le s t ≡ false → text_le t s ≡ true
text_le_total s t h = ground (arith, compare_swap s t)

pub text_le_antisymm : (s t : String) → text_le s t ≡ true → text_le t s ≡ true → s ≡ t
text_le_antisymm s t h k = ground (arith, compare_swap s t, path_by_compare s t)

pub text_le_trans : (s t u : String) → text_le s t ≡ true → text_le t u ≡ true → text_le s u ≡ true
text_le_trans s t u h k =
    ground (arith, compare_trans s t u, path_by_compare s t, path_by_compare t u, compare_refl s)
