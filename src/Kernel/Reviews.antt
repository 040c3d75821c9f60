-- ===== src/Kernel/Reviews.antt =====
-- Which review of a signal candidate is in force (`candidate_dispositions` of src/kernel.rs).
use Prim.Native.Nat.{Ordering}
use mathlib.Core.List.{foldl}
use mathlib.Core.List.Memᴰ
use agentic_development_fram.Base.{
  Bool, true, false, ◌≡◌, refl, ◌∙◌, subst, ◌⊎◌, inl, inr, ◌↔◌, Option, none, some, List, [], ◌∷◌,
  Memᴰ, filter, filter-mem, mem-filter, Bool-cases, arith,
}
use agentic_development_fram.Json.Value.{field_is}
use agentic_development_fram.Detection.Types.{SignalCandidate}
use agentic_development_fram.Kernel.Types.{ProjectSnapshot}
use agentic_development_fram.Kernel.Candidates.{
  Review, reviews, is_usable, review_compare, later_max, max_review, current_candidate_review,
}

abbrev pub confirms : Review → Bool
confirms r = field_is r.1 "status" "confirmed"

-- One step keeps one of the two reviews, and a confirmation if there is one.
later_max-keeps :
    (b n : Review)
    → (m : Review) × (later_max (some b) n ≡ some m)
      × ((m ≡ b) ⊎ (m ≡ n))
      × (confirms b ≡ true → confirms m ≡ true)
      × (confirms n ≡ true → confirms m ≡ true)
unfolding later_max review_compare
later_max-keeps (r, v) (s, w) = by_order (review_compare (r, v) (s, w)) refl
  where
    by_order :
        (o : Ordering)
        → review_compare (r, v) (s, w) ≡ o
        → (m : Review) × (later_max (some (r, v)) (s, w) ≡ some m)
          × ((m ≡ (r, v)) ⊎ (m ≡ (s, w)))
          × (confirms (r, v) ≡ true → confirms m ≡ true)
          × (confirms (s, w) ≡ true → confirms m ≡ true)
    by_order Ordering.gt e =
        ((r, v), rw (e, later_max) refl, inl refl, λ h. h, λ h. ground (arith, e, h))
    by_order Ordering.lt e =
        ((s, w), rw (e, later_max) refl, inr refl, λ h. ground (arith, e, h), λ h. h)
    by_order Ordering.eq e =
        ((s, w), rw (e, later_max) refl, inr refl, λ h. ground (arith, e, h), λ h. h)

-- What the fold has kept of `b` and the reviews behind it.
record IsKept (b : Review) (rs : List Review) (m : Review) : Type 0 where
  among : (m ≡ b) ⊎ Memᴰ m rs
  first : confirms b ≡ true → confirms m ≡ true
  others : (r : Review) → Memᴰ r rs → confirms r ≡ true → confirms m ≡ true

fold-IsKept :
    (rs : List Review) (b : Review)
    → (m : Review) × (foldl later_max (some b) rs ≡ some m) × IsKept b rs m
fold-IsKept [] b =
    (b, refl, record { among = inl refl; first = λ h. h; others = λ r k. elim k [ ] })
fold-IsKept (r ∷ rs) b =
    let (n, e, origin, old, new) = later_max-keeps b r in
    let (m, f, kept) = fold-IsKept rs n in
    (
      m,
      rw e f,
      record {
        among = elim kept.among [
          | inr t ↦ inr (Memᴰ.tail t)
          | inl q ↦ elim origin [ inl p ↦ inl (q ∙ p) | inr p ↦ inr (Memᴰ.head (q ∙ p)) ]
        ];
        first = λ h. kept.first (old h);
        others = λ s k h. elim (Memᴰ.cases_cons k) [
          | inl q ↦ kept.first (new (subst (λ s. confirms s ≡ true) q h))
          | inr t ↦ kept.others s t h
        ];
      },
    )

max_review-kept :
    (rs : List Review)
    → (max_review rs ≡ none → rs ≡ [])
      × ((m : Review)
          → max_review rs ≡ some m
          → Memᴰ m rs × ((r : Review) → Memᴰ r rs → confirms r ≡ true → confirms m ≡ true))
unfolding max_review later_max
max_review-kept [] = (λ e. refl, λ m e. cc)
max_review-kept (b ∷ rs) =
    let (n, e, kept) = fold-IsKept rs b in
    (
      λ f. cc (e, f),
      λ m f.
          let q : n ≡ m = cc (e, f) in
          subst
            (λ m.
              Memᴰ m (b ∷ rs)
              × ((r : Review) → Memᴰ r (b ∷ rs) → confirms r ≡ true → confirms m ≡ true))
            q
            (
              elim kept.among [ inl p ↦ Memᴰ.head p | inr t ↦ Memᴰ.tail t ],
              λ r k h. elim (Memᴰ.cases_cons k) [
                | inl p ↦ kept.first (subst (λ s. confirms s ≡ true) p h)
                | inr t ↦ kept.others r t h
              ],
            ),
    )

abbrev usable_reviews : ProjectSnapshot → SignalCandidate → List Review
usable_reviews snapshot candidate = filter (is_usable snapshot candidate) (reviews snapshot)

-- What the review in force may be: none if no recorded review is usable, and else a usable one that
-- confirms exactly if any usable one does.
abbrev pub IsInForce : ProjectSnapshot → SignalCandidate → Option Review → Type 0
IsInForce snapshot candidate none =
    (r : Review) → Memᴰ r (reviews snapshot) → is_usable snapshot candidate r ≡ false
IsInForce snapshot candidate (some m) =
    Memᴰ m (reviews snapshot)
    × (is_usable snapshot candidate m ≡ true)
    × ((confirms m ≡ true) ↔ (
        (r : Review) × Memᴰ r (reviews snapshot)
        × (is_usable snapshot candidate r ≡ true)
        × (confirms r ≡ true)))

-- No review of a candidate is in force only if none of the recorded reviews is usable: each names
-- another candidate, or neither confirms it nor denies it on the current evidence. The one that is
-- in force is a usable one, and it confirms the candidate exactly if any usable one does, in
-- whatever order they are recorded.
pub current_candidate_review-confirms :
    (snapshot : ProjectSnapshot) (candidate : SignalCandidate)
    → IsInForce snapshot candidate (current_candidate_review snapshot candidate)
unfolding current_candidate_review
current_candidate_review-confirms snapshot candidate =
    by_result (current_candidate_review snapshot candidate) refl
  where
    by_result :
        (o : Option Review)
        → max_review (usable_reviews snapshot candidate) ≡ o
        → IsInForce snapshot candidate o
    by_result none e = λ r k. elim (Bool-cases (is_usable snapshot candidate r)) [
      | inr f ↦ f
      | inl t ↦
          elim (subst (λ l. Memᴰ r l) ((max_review-kept (usable_reviews snapshot candidate)).0 e)
            (mem-filter (is_usable snapshot candidate) (reviews snapshot) k t)) [ ]
    ]
    by_result (some m) e =
        let (k, best) = (max_review-kept (usable_reviews snapshot candidate)).1 m e in
        let (n, u) = filter-mem (is_usable snapshot candidate) (reviews snapshot) k in
        (
          n,
          u,
          (
            λ h. (m, n, u, h),
            λ (r, l, v, h).
                best r (mem-filter (is_usable snapshot candidate) (reviews snapshot) l v) h,
          ),
        )
