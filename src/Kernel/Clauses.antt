-- ===== src/Kernel/Clauses.antt =====
-- Which Contract clauses an instance needs Evidence for (`matching_contract_clauses` of
-- src/kernel.rs).
use mathlib.Core.List.{foldl}
use mathlib.Core.List.Memᴰ
use agentic_development_fram.Base.{
  String, Bool, true, ◌≡◌, refl, ◌∙◌, ap, ◌≢◌, subst, ◌↔◌, ◌⊎◌, inl, inr, some, List, [], ◌∷◌, ◌++◌,
  Memᴰ, append-mem, mem-append_left, mem-append_right, filter, is_empty, contains, unwrap_or,
  Bool-cases, Option-cases, if◌then◌else◌,
}
use agentic_development_fram.Json.Value.{Value, string_field}
use agentic_development_fram.Contracts.Scope.{
  ClauseEvidenceMode, legacy_direct, direct, inherited, review, member, clause_ref,
  clause_matches_subjects, effective_clause_evidence_mode,
}
use agentic_development_fram.Kernel.Evidence.{
  MatchingContractClauses, required, insert_clause, add_clause,
}

-- What a fold has, it had at first or one of the steps has put there.
module _ {A S : Type 0} (f : S → A → S) (has : S → Type 0) (puts : A → Type 0)
    (step-has : (s : S) (a : A) → has (f s a) ↔ (has s ⊎ puts a)) where
  pub fold-has :
      (xs : List A) (s : S) → has (foldl f s xs) ↔ (has s ⊎ ((a : A) × Memᴰ a xs × puts a))
  fold-has [] s = (λ h. inl h, λ h. elim h [ inl k ↦ k | inr (a, m, p) ↦ elim m [ ] ])
  fold-has (x ∷ xs) s =
      let (into, out) = fold-has xs (f s x) in
      let (before, after) = step-has s x in
      (
        λ h. elim (into h) [
          | inl k ↦ elim (before k) [ inl n ↦ inl n | inr p ↦ inr (x, Memᴰ.head refl, p) ]
          | inr (a, m, p) ↦ inr (a, Memᴰ.tail m, p)
        ],
        λ h. elim h [
          | inl n ↦ out (inl (after (inl n)))
          | inr (a, m, p) ↦ elim (Memᴰ.cases_cons m) [
            | inl e ↦ out (inl (after (inr (subst puts e p))))
            | inr t ↦ out (inr (a, t, p))
          ]
        ],
      )

-- One more text among those behind others.
cons-more :
    {P : Type 0} {c : String} (r : String) (ys : List String)
    → (c ≡ r → P)
    → (P → c ≡ r)
    → Memᴰ c (r ∷ ys) ↔ (Memᴰ c ys ⊎ P)
cons-more r ys f g = (
  λ m. elim (Memᴰ.cases_cons m) [ inl e ↦ inr (f e) | inr t ↦ inl t ],
  λ h. elim h [ inl t ↦ Memᴰ.tail t | inr p ↦ Memᴰ.head (g p) ],
)

append-more :
    {P : Type 0} {c : String} (xs ys zs : List String)
    → Memᴰ c ys ↔ (Memᴰ c zs ⊎ P)
    → Memᴰ c (xs ++ ys) ↔ (Memᴰ c (xs ++ zs) ⊎ P)
append-more xs ys zs (f, g) = (
  λ m. elim (append-mem xs ys m) [
    | inl n ↦ inl (mem-append_left xs zs n)
    | inr n ↦ elim (f n) [ inl k ↦ inl (mem-append_right xs zs k) | inr p ↦ inr p ]
  ],
  λ h. elim h [
    | inl m ↦ elim (append-mem xs zs m) [
      | inl n ↦ mem-append_left xs ys n
      | inr n ↦ mem-append_right xs ys (g (inl n))
    ]
    | inr p ↦ mem-append_right xs ys (g (inr p))
  ],
)

-- A clause is put among those that need Evidence unless it is for review.
insert_clause-required :
    (c r : String) (mode : ClauseEvidenceMode) (clauses : MatchingContractClauses)
    → Memᴰ c (required (insert_clause mode r clauses))
      ↔ (Memᴰ c (required clauses) ⊎ ((c ≡ r) × (mode ≢ review)))
unfolding required insert_clause
insert_clause-required c r legacy_direct clauses = cons-more r _ (λ e. (e, λ n. cc)) (λ p. p.0)
insert_clause-required c r direct clauses =
    append-more clauses.legacy_direct_refs _ _ (cons-more r _ (λ e. (e, λ n. cc)) (λ p. p.0))
insert_clause-required c r inherited clauses =
    append-more clauses.legacy_direct_refs _ _
      (append-more clauses.direct_refs _ _ (cons-more r _ (λ e. (e, λ n. cc)) (λ p. p.0)))
insert_clause-required c r review clauses =
    (λ m. inl m, λ h. elim h [ inl m ↦ m | inr (e, n) ↦ absurd (n refl) ])

-- Whether the subjects select a clause: by name, if they name any, and else by its scope.
abbrev pub selects : List String → Value → Value → String → Bool
selects subjects contract clause reference =
    let explicit = filter (λ subject. contains subject "#") subjects in
    if is_empty explicit
    then clause_matches_subjects contract clause subjects
    else member reference explicit

-- The clause has the reference, is selected, and is not for review.
pub record IsRequired (subjects : List String) (contract : Value) (c : String) (clause : Value)
    : Type 0 where
  pub clause_id : String
  pub named : string_field clause "id" ≡ some clause_id
  pub referred : c ≡ clause_ref (unwrap_or (string_field contract "id") "") clause_id
  pub selected : selects subjects contract clause c ≡ true
  pub evident : effective_clause_evidence_mode contract clause ≢ review

pub add_clause-required :
    (subjects : List String) (contract : Value) (c : String) (clauses : MatchingContractClauses)
    (clause : Value)
    → Memᴰ c (required (add_clause subjects contract clauses clause))
      ↔ (Memᴰ c (required clauses) ⊎ IsRequired subjects contract c clause)
unfolding add_clause
add_clause-required subjects contract c clauses clause =
    elim (Option-cases (string_field clause "id")) [
      | inl n ↦
          rw (n, add_clause)
            (λ m. inl m, λ h. elim h [ inl m ↦ m | inr r ↦ let q = r.named in cc (n, q) ])
      | inr (id, n) ↦
          let reference = clause_ref (unwrap_or (string_field contract "id") "") id in
          let mode = effective_clause_evidence_mode contract clause in
          let same : (r : IsRequired subjects contract c clause) → c ≡ reference = λ r.
            let q = r.named in
            let e : r.clause_id ≡ id = cc (n, q) in
            r.referred ∙ ap (clause_ref (unwrap_or (string_field contract "id") "")) e in
          elim (Bool-cases (selects subjects contract clause reference)) [
            | inr f ↦
                rw (n, add_clause)
                  (rw f (
                    λ m. inl m,
                    λ h. elim h [
                      | inl m ↦ m
                      | inr r ↦ let q = r.selected in cc (rw (same r) at q, f)
                    ],
                  ))
            | inl t ↦
                let (into, out) = insert_clause-required c reference mode clauses in
                rw (n, add_clause)
                  (rw t (
                    λ m. elim (into m) [
                      | inl k ↦ inl k
                      | inr (e, v) ↦ inr (record {
                        clause_id = id;
                        named = n;
                        referred = e;
                        selected = rw e t;
                        evident = v;
                      })
                    ],
                    λ h. elim h [ inl k ↦ out (inl k) | inr r ↦ out (inr (same r, r.evident)) ],
                  ))
          ]
    ]
