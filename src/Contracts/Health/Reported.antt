-- ===== src/Contracts/Health/Reported.antt =====
-- What is reported of the clauses of one Contract (the inner loop of
-- `build_contract_health_report_with_digests` of src/contract_health.rs).
use mathlib.Core.List.Memᴰ
use agentic_development_fram.Base.{
  String, true, not, some, List, [], ◌∷◌, ◌++◌, ◌≡◌, refl, sym, ap, subst, inl, inr, ◌⊎◌, Memᴰ, map,
  ok_or, ok_or-eq-ok, Returns, Returns-bind, Returns-guard, returns, Returns-ok,
}
use agentic_development_fram.Contracts.Scope.{member, clause_ref}
use agentic_development_fram.Contracts.Members.{mem-member}
use agentic_development_fram.Json.Value.{Value, as_str, index}
use agentic_development_fram.Schema.Validate.Conforms.{IsDistinct}
use agentic_development_fram.Contracts.Health.{ClauseHealth}
use agentic_development_fram.Contracts.Health.Freshness.{required_string}
use agentic_development_fram.Contracts.Health.Clause.{clause_health}
use agentic_development_fram.Contracts.Health.Report.{Sources, health_of, report_clauses}

abbrev pub refs_of : List ClauseHealth → List String
refs_of clauses = map (λ (clause : ClauseHealth). clause.clause_ref) clauses

-- The entry of a clause.
pub record IsEntry (sources : Sources) (contract clause : Value) (health : ClauseHealth)
    : Type 0 where
  pub contract_id : String
  pub clause_id : String
  pub of_contract : as_str (index contract "id") ≡ some contract_id
  pub of_clause : as_str (index clause "id") ≡ some clause_id
  pub of_health : health ≡ health_of sources contract contract_id clause clause_id

pub refs_append :
    (xs ys : List ClauseHealth) (s : String)
    → Memᴰ s (refs_of (xs ++ ys))
    → Memᴰ s (refs_of xs) ⊎ Memᴰ s (refs_of ys)
refs_append [] ys s m = inr m
refs_append (x ∷ xs) ys s m = elim (Memᴰ.cases_cons m) [
  | inl e ↦ inl (Memᴰ.head e)
  | inr t ↦ elim (refs_append xs ys s t) [ inl n ↦ inl (Memᴰ.tail n) | inr n ↦ inr n ]
]

module _ (sources : Sources) where
  abbrev pub HasEntry : List ClauseHealth → Value → Value → Type 0
  HasEntry clauses contract clause =
      (health : ClauseHealth) × Memᴰ health clauses × IsEntry sources contract clause health

  -- What is reported of some clauses of a Contract.
  pub record AreReported (contract : Value) (clauses : List Value) (seen : List String)
      (reported : List ClauseHealth × List String) : Type 0 where
    pub each_clause : (clause : Value) → Memᴰ clause clauses → HasEntry reported.0 contract clause
    pub each_entry :
        (health : ClauseHealth)
        → Memᴰ health reported.0
        → (clause : Value) × Memᴰ clause clauses × IsEntry sources contract clause health
    pub distinct : IsDistinct (refs_of reported.0)
    pub unseen : (s : String) → Memᴰ s (refs_of reported.0) → ¬ Memᴰ s seen
    pub now_seen : (s : String) → Memᴰ s seen ⊎ Memᴰ s (refs_of reported.0) → Memᴰ s reported.1

  none-AreReported :
      (contract : Value) (seen : List String) → AreReported contract [] seen ([], seen)
  none-AreReported contract seen = record {
    each_clause = λ clause m. elim m [ ];
    each_entry = λ health m. elim m [ ];
    distinct = tt;
    unseen = λ s m. elim m [ ];
    now_seen = λ s m. elim m [ inl n ↦ n | inr n ↦ elim n [ ] ];
  }

  next-AreReported :
      (contract clause : Value) (contract_id clause_id : String)
      → as_str (index contract "id") ≡ some contract_id
      → as_str (index clause "id") ≡ some clause_id
      → (clauses : List Value) (seen : List String) (rest : List ClauseHealth × List String)
      → ¬ Memᴰ (clause_ref contract_id clause_id) seen
      → AreReported contract clauses (clause_ref contract_id clause_id ∷ seen) rest
      → AreReported contract
          (clause ∷ clauses)
          seen
          (health_of sources contract contract_id clause clause_id ∷ rest.0, rest.1)
  unfolding health_of clause_health
  next-AreReported contract clause contract_id clause_id p q clauses seen rest n r =
      let entry : IsEntry sources contract clause
          (health_of sources contract contract_id clause clause_id) =
        record {
          contract_id = contract_id;
          clause_id = clause_id;
          of_contract = p;
          of_clause = q;
          of_health = refl;
        } in
      record {
        each_clause = λ c m. elim (Memᴰ.cases_cons m) [
          | inl e ↦ (
            health_of sources contract contract_id clause clause_id,
            Memᴰ.head refl,
            subst
                (λ x.
                  IsEntry sources contract x
                    (health_of sources contract contract_id clause clause_id))
                (sym e) entry,
          )
          | inr t ↦ let (h, k, x) = r.each_clause c t in (h, Memᴰ.tail k, x)
        ];
        each_entry = λ h m. elim (Memᴰ.cases_cons m) [
          | inl e ↦
              (clause, Memᴰ.head refl, subst (λ x. IsEntry sources contract clause x) (sym e) entry)
          | inr t ↦ let (c, k, x) = r.each_entry h t in (c, Memᴰ.tail k, x)
        ];
        distinct = (λ m. r.unseen _ m (Memᴰ.head refl), r.distinct);
        unseen = λ s m k. elim (Memᴰ.cases_cons m) [
          | inl e ↦ n (subst (λ x. Memᴰ x seen) e k)
          | inr t ↦ r.unseen s t (Memᴰ.tail k)
        ];
        now_seen = λ s m. elim m [
          | inl k ↦ r.now_seen s (inl (Memᴰ.tail k))
          | inr k ↦ elim (Memᴰ.cases_cons k) [
            | inl e ↦ r.now_seen s (inl (Memᴰ.head e))
            | inr t ↦ r.now_seen s (inr t)
          ]
        ];
      }

  not_seen : (s : String) (seen : List String) → not (member s seen) ≡ true → ¬ Memᴰ s seen
  not_seen s seen h m = cc (ap not (mem-member s seen m), h)

  pub report_clauses-AreReported :
      (contract : Value) (contract_id : String)
      → as_str (index contract "id") ≡ some contract_id
      → (clauses : List Value) (seen : List String)
      → Returns
          (AreReported contract clauses seen)
          (report_clauses sources contract contract_id clauses seen)
  unfolding report_clauses required_string
  report_clauses-AreReported contract contract_id q [] seen =
      returns (none-AreReported contract seen)
  report_clauses-AreReported contract contract_id q (clause ∷ clauses) seen =
      Returns-bind (ok_or (as_str (index clause "id")) _) _ λ clause_id a.
        Returns-guard (not (member (clause_ref contract_id clause_id) seen)) _ _ λ b.
          Returns-bind
            (report_clauses sources contract contract_id clauses
              (clause_ref contract_id clause_id ∷ seen))
            _
            λ rest c. returns (
              next-AreReported contract clause contract_id clause_id q
                (ok_or-eq-ok (as_str (index clause "id")) _ a) clauses seen rest
                (not_seen (clause_ref contract_id clause_id) seen b)
                (Returns-ok _
                  (report_clauses-AreReported contract contract_id q clauses
                    (clause_ref contract_id clause_id ∷ seen))
                  c))
