-- ===== src/Contracts/Health/Summary.antt =====
-- The counts and the order of a report's clauses (`count_status` and the sort of
-- src/contract_health.rs).
use mathlib.Core.List.Memᴰ
use Prim.Native.Nat.{Ordering}
use Prim.Native.String.{compare}
use text.Mathlib.TextEquality.{path_by_compare}
use agentic_development_fram.Base.{
  ℕ, String, true, false, List, [], ◌∷◌, ◌≡◌, refl, sym, ap, ◌∙◌, subst, inl, inr, ◌⊎◌, Memᴰ,
  length, Bool-cases, mem-map, map-mem, arith, suc, ◌+◌,
}
use agentic_development_fram.Base.Map.Ascending.{IsAscending}
use agentic_development_fram.Base.Order.{sort_by, insert_sorted, text_le}
use agentic_development_fram.Base.Order.Laws.{compare_swap, compare_trans}
use agentic_development_fram.Base.Order.Sorted.{sort_by-mem}
use agentic_development_fram.Schema.Validate.Conforms.{IsDistinct}
use agentic_development_fram.Contracts.Health.{ClauseHealth}
use agentic_development_fram.Contracts.Health.Flags.{Inputs}
use agentic_development_fram.Contracts.Health.Status.{
  HasStatus, is_review, is_verified, is_failed, is_stale, is_unverified,
}
use agentic_development_fram.Contracts.Health.Report.{ref_le, count_status}
use agentic_development_fram.Contracts.Health.Reported.{refs_of}

-- The five statuses.
pub data IsKnown : String → Type 0 where
  known_review : IsKnown "review"
  known_verified : IsKnown "verified"
  known_failed : IsKnown "failed"
  known_stale : IsKnown "stale"
  known_unverified : IsKnown "unverified"

pub HasStatus-IsKnown : (inputs : Inputs) {s : String} → HasStatus inputs s → IsKnown s
HasStatus-IsKnown inputs (is_review e) = known_review
HasStatus-IsKnown inputs (is_verified n s) = known_verified
HasStatus-IsKnown inputs (is_failed n s f) = known_failed
HasStatus-IsKnown inputs (is_stale n s f o) = known_stale
HasStatus-IsKnown inputs (is_unverified n s f o) = known_unverified

abbrev pub counted : List ClauseHealth → ℕ
counted clauses =
    count_status clauses "verified"
    + (count_status clauses "stale"
        + (count_status clauses "unverified"
            + (count_status clauses "failed" + count_status clauses "review")))

counted-next :
    (clause : ClauseHealth) (clauses : List ClauseHealth) {s : String}
    → clause.status ≡ s
    → IsKnown s
    → counted (clause ∷ clauses) ≡ suc (counted clauses)
unfolding count_status
counted-next clause clauses e known_review = rw e (omega arith)
counted-next clause clauses e known_verified = rw e (omega arith)
counted-next clause clauses e known_failed = rw e (omega arith)
counted-next clause clauses e known_stale = rw e (omega arith)
counted-next clause clauses e known_unverified = rw e (omega arith)

pub length-counted :
    (clauses : List ClauseHealth)
    → ((clause : ClauseHealth) → Memᴰ clause clauses → IsKnown clause.status)
    → length clauses ≡ counted clauses
unfolding count_status
length-counted [] h = refl
length-counted (clause ∷ clauses) h =
    ap suc (length-counted clauses λ c m. h c (Memᴰ.tail m))
    ∙ sym (counted-next clause clauses refl (h clause (Memᴰ.head refl)))

refs-insert :
    (x : ClauseHealth) (xs : List ClauseHealth) (s : String)
    → Memᴰ s (refs_of (insert_sorted ref_le x xs))
    → (s ≡ x.clause_ref) ⊎ Memᴰ s (refs_of xs)
unfolding insert_sorted
refs-insert x [] s m = elim (Memᴰ.cases_cons m) [ inl e ↦ inl e | inr t ↦ inr t ]
refs-insert x (y ∷ ys) s m = elim (Bool-cases (ref_le x y)) [
  | inl e ↦ elim (Memᴰ.cases_cons (rw (e, insert_sorted) at m)) [ inl q ↦ inl q | inr t ↦ inr t ]
  | inr e ↦ elim (Memᴰ.cases_cons (rw (e, insert_sorted) at m)) [
    | inl q ↦ inr (Memᴰ.head q)
    | inr t ↦ elim (refs-insert x ys s t) [ inl q ↦ inl q | inr n ↦ inr (Memᴰ.tail n) ]
  ]
]

strictly : (s t : String) → text_le s t ≡ true → ¬ (s ≡ t) → compare s t ≡ Ordering.lt
strictly s t h n = ground (arith, path_by_compare s t, n)

backwards : (s t : String) → text_le s t ≡ false → compare t s ≡ Ordering.lt
backwards s t h = ground (arith, compare_swap s t)

insert_sorted-IsAscending :
    (x : ClauseHealth) (xs : List ClauseHealth)
    → ¬ Memᴰ x.clause_ref (refs_of xs)
    → IsAscending (refs_of xs)
    → IsAscending (refs_of (insert_sorted ref_le x xs))
unfolding insert_sorted
insert_sorted-IsAscending x [] n a = (λ t m. elim m [ ], tt)
insert_sorted-IsAscending x (y ∷ ys) n a = elim (Bool-cases (ref_le x y)) [
  | inl e ↦
      let below = strictly x.clause_ref y.clause_ref e (λ q. n (Memᴰ.head q)) in
      rw (e, insert_sorted)
        (
          λ t m. elim (Memᴰ.cases_cons m) [
            | inl q ↦ subst (λ t. compare x.clause_ref t ≡ Ordering.lt) (sym q) below
            | inr k ↦ compare_trans x.clause_ref y.clause_ref t below (a.0 t k)
          ],
          a,
        )
  | inr e ↦
      rw (e, insert_sorted)
        (
          λ t m. elim (refs-insert x ys t m) [
            | inl q ↦
                subst (λ t. compare y.clause_ref t ≡ Ordering.lt) (sym q)
                  (backwards x.clause_ref y.clause_ref e)
            | inr k ↦ a.0 t k
          ],
          insert_sorted-IsAscending x ys (λ k. n (Memᴰ.tail k)) a.1,
        )
]

refs-sort :
    (xs : List ClauseHealth) (s : String)
    → Memᴰ s (refs_of (sort_by ref_le xs))
    → Memᴰ s (refs_of xs)
refs-sort xs s m =
    let (c, n, e) = mem-map (λ (clause : ClauseHealth). clause.clause_ref) (sort_by ref_le xs) m in
    subst (λ s. Memᴰ s (refs_of xs)) e
      (map-mem (λ (clause : ClauseHealth). clause.clause_ref) xs (sort_by-mem ref_le xs n))

pub sort_by-IsAscending :
    (xs : List ClauseHealth) → IsDistinct (refs_of xs) → IsAscending (refs_of (sort_by ref_le xs))
unfolding sort_by
sort_by-IsAscending [] d = tt
sort_by-IsAscending (x ∷ xs) d =
    insert_sorted-IsAscending x (sort_by ref_le xs) (λ m. d.0 (refs-sort xs x.clause_ref m))
      (sort_by-IsAscending xs d.1)
