-- ===== src/Contracts/Health/AllReported.antt =====
-- What is reported of all Contracts (the outer loop of `build_contract_health_report_with_digests` of
-- src/contract_health.rs).
use mathlib.Core.List.Memᴰ
use agentic_development_fram.Base.{
  String, List, [], ◌∷◌, ◌++◌, refl, sym, subst, inl, inr, Memᴰ, ok_or, ok_or-eq-ok, append-mem,
  mem-append_left, mem-append_right, Returns, Returns-bind, returns, Returns-ok,
}
use agentic_development_fram.Json.Value.{Value, as_str, index}
use agentic_development_fram.Schema.Validate.Conforms.{IsDistinct}
use agentic_development_fram.Contracts.Health.{ClauseHealth}
use agentic_development_fram.Contracts.Health.Freshness.{array_or_empty, required_string}
use agentic_development_fram.Contracts.Health.Report.{Sources, report_clauses, report_contracts}
use agentic_development_fram.Contracts.Health.Reported.{
  refs_of, refs_append, IsEntry, HasEntry, AreReported, report_clauses-AreReported,
}

module _ (sources : Sources) where
  -- What is reported of some Contracts.
  pub record AreAllReported (contracts : List Value) (seen : List String)
      (reported : List ClauseHealth) : Type 0 where
    pub each_clause :
        (contract : Value)
        → Memᴰ contract contracts
        → (clause : Value) → Memᴰ clause (array_or_empty (index contract "clauses"))
        → HasEntry sources reported contract clause
    pub each_entry :
        (health : ClauseHealth)
        → Memᴰ health reported
        → (contract : Value) × Memᴰ contract contracts
          × ((clause : Value) × Memᴰ clause (array_or_empty (index contract "clauses"))
              × IsEntry sources contract clause health)
    pub distinct : IsDistinct (refs_of reported)
    pub unseen : (s : String) → Memᴰ s (refs_of reported) → ¬ Memᴰ s seen

  append-IsDistinct :
      (xs ys : List ClauseHealth)
      → IsDistinct (refs_of xs)
      → IsDistinct (refs_of ys)
      → ((s : String) → Memᴰ s (refs_of xs) → ¬ Memᴰ s (refs_of ys))
      → IsDistinct (refs_of (xs ++ ys))
  append-IsDistinct [] ys d e h = e
  append-IsDistinct (x ∷ xs) ys d e h = (
    λ m. elim (refs_append xs ys _ m) [ inl n ↦ d.0 n | inr n ↦ h _ (Memᴰ.head refl) n ],
    append-IsDistinct xs ys d.1 e λ s m. h s (Memᴰ.tail m),
  )

  more-AreAllReported :
      (contract : Value) (contracts : List Value) (seen : List String)
      (reported : List ClauseHealth × List String) (rest : List ClauseHealth)
      → AreReported sources contract (array_or_empty (index contract "clauses")) seen reported
      → AreAllReported contracts reported.1 rest
      → AreAllReported (contract ∷ contracts) seen (reported.0 ++ rest)
  more-AreAllReported contract contracts seen reported rest r a = record {
    each_clause = λ c m clause k. elim (Memᴰ.cases_cons m) [
      | inl e ↦
          let (h, n, x) =
            r.each_clause clause
              (subst (λ c. Memᴰ clause (array_or_empty (index c "clauses"))) e k) in
          (h, mem-append_left reported.0 rest n, subst (λ c. IsEntry sources c clause h) (sym e) x)
      | inr t ↦
          let (h, n, x) = a.each_clause c t clause k in (h, mem-append_right reported.0 rest n, x)
    ];
    each_entry = λ h m. elim (append-mem reported.0 rest m) [
      | inl n ↦ let (c, k, x) = r.each_entry h n in (contract, Memᴰ.head refl, (c, k, x))
      | inr n ↦ let (d, l, x) = a.each_entry h n in (d, Memᴰ.tail l, x)
    ];
    distinct =
        append-IsDistinct reported.0 rest r.distinct a.distinct
          λ s m k. a.unseen s k (r.now_seen s (inr m));
    unseen = λ s m k. elim (refs_append reported.0 rest s m) [
      | inl n ↦ r.unseen s n k
      | inr n ↦ a.unseen s n (r.now_seen s (inl k))
    ];
  }

  pub report_contracts-AreAllReported :
      (contracts : List Value) (seen : List String)
      → Returns (AreAllReported contracts seen) (report_contracts sources contracts seen)
  unfolding report_contracts required_string
  report_contracts-AreAllReported [] seen = returns (record {
    each_clause = λ c m. elim m [ ];
    each_entry = λ h m. elim m [ ];
    distinct = tt;
    unseen = λ s m. elim m [ ];
  })
  report_contracts-AreAllReported (contract ∷ contracts) seen =
      Returns-bind (ok_or (as_str (index contract "id")) _) _ λ contract_id a.
        Returns-bind
          (report_clauses sources contract contract_id (array_or_empty (index contract "clauses"))
            seen)
          _
          λ reported b. Returns-bind (report_contracts sources contracts reported.1) _ λ rest c.
            returns (
              more-AreAllReported contract contracts seen reported rest
                (Returns-ok _
                  (report_clauses-AreReported sources contract contract_id
                    (ok_or-eq-ok (as_str (index contract "id")) _ a)
                    (array_or_empty (index contract "clauses")) seen)
                  b)
                (Returns-ok _ (report_contracts-AreAllReported contracts reported.1) c))
