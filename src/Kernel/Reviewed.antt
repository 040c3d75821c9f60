-- ===== src/Kernel/Reviewed.antt =====
-- A candidate that is not up for review has a review that holds now (`candidate_dispositions` and
-- the `unreviewed` of `evaluate_with_health` in src/kernel.rs).
use mathlib.Core.List.{foldl}
use agentic_development_fram.Base.{
  text_option_eq, String, Bool, true, false, not, ◌≡◌, refl, sym, ◌∙◌, ap, subst, ◌⊎◌, inl, inr,
  ◌&&◌, ◌||◌, Option, none, some, List, [], ◌∷◌, Memᴰ, all-mem, mem-filter, is_some, unwrap_or,
  ◌==◌, eq_of_==, ne_of_==, Bool-cases, Option-cases, arith,
}
use agentic_development_fram.Base.Map
use agentic_development_fram.Base.Map.{Map, get-insert}
use agentic_development_fram.Json.Value.{Value, as_str, get, index, string_field, string_map}
use agentic_development_fram.Detection.Types.{SignalCandidate, DetectionReport}
use agentic_development_fram.Kernel.Types.{ProjectSnapshot, CandidateDisposition}
use agentic_development_fram.Kernel.Candidates.{
  Review, reviews, is_usable, current_candidate_review, disposition_of, add_disposition,
  candidate_dispositions, disposition_evidence_is_current,
}
use agentic_development_fram.Kernel.Collect.{is_confirmed, is_denied, unreviewed_candidates}
use agentic_development_fram.Kernel.Reviews.{IsInForce, current_candidate_review-confirms}
use agentic_development_fram.Kernel.Support.{field_is-eq}

-- The text that stands behind a status.
status-field :
    (v : Value) (k s : String)
    → ("" == s) ≡ false
    → (unwrap_or (as_str (index v k)) "" == s) ≡ true
    → string_field v k ≡ some s
unfolding index string_field
status-field v k s n h = elim (Option-cases (get v k)) [
  | inl e ↦ absurd (ne_of_== "" s n (eq_of_== "" s (rw (e, index) at h)))
  | inr (w, e) ↦ elim (Option-cases (as_str w)) [
    | inl f ↦ absurd (ne_of_== "" s n (eq_of_== "" s (rw (e, index, f) at h)))
    | inr (t, f) ↦ rw e (f ∙ ap some (eq_of_== t s (rw (e, index, f) at h)))
  ]
]

-- The disposition is made from a usable review of the fingerprint.
pub record IsDisposition (snapshot : ProjectSnapshot) (fingerprint : String)
    (d : CandidateDisposition) : Type 0 where
  pub review : Review
  pub recorded : Memᴰ review (reviews snapshot)
  pub of_candidate : string_field review.1 "fingerprint" ≡ some fingerprint
  pub made : d ≡ disposition_of review

abbrev AllDispositions : ProjectSnapshot → Map CandidateDisposition → Type 0
AllDispositions snapshot dispositions =
    (fingerprint : String) (d : CandidateDisposition)
    → Map.get fingerprint dispositions ≡ some d
    → IsDisposition snapshot fingerprint d

no_dispositions : (snapshot : ProjectSnapshot) → AllDispositions snapshot []
unfolding Map.get
no_dispositions snapshot fingerprint d e = cc

usable-fingerprint :
    (snapshot : ProjectSnapshot) (candidate : SignalCandidate) (r : Review)
    → is_usable snapshot candidate r ≡ true
    → string_field r.1 "fingerprint" ≡ some candidate.fingerprint
unfolding is_usable
usable-fingerprint snapshot candidate (result, review) h =
    (field_is-eq review "fingerprint" candidate.fingerprint).0 (ground arith)

insert-AllDispositions :
    (snapshot : ProjectSnapshot) (dispositions : Map CandidateDisposition)
    (candidate : SignalCandidate) (r : Review)
    → AllDispositions snapshot dispositions
    → current_candidate_review snapshot candidate ≡ some r
    → AllDispositions snapshot (Map.insert candidate.fingerprint (disposition_of r) dispositions)
insert-AllDispositions snapshot dispositions candidate r h e fingerprint d g =
    let found =
      sym (get-insert candidate.fingerprint fingerprint (disposition_of r) dispositions) ∙ g in
    elim (Bool-cases (candidate.fingerprint == fingerprint)) [
      | inr n ↦ h fingerprint d (rw n at found)
      | inl q ↦
          let in_force =
            subst (IsInForce snapshot candidate) e
              (current_candidate_review-confirms snapshot candidate) in
          let made : disposition_of r ≡ d = cc (rw q at found) in
          record {
            review = r;
            recorded = in_force.0;
            of_candidate =
                usable-fingerprint snapshot candidate r in_force.1
                ∙ ap some (eq_of_== candidate.fingerprint fingerprint q);
            made = sym made;
          }
    ]

fold-AllDispositions :
    (snapshot : ProjectSnapshot) (candidates : List SignalCandidate)
    (dispositions : Map CandidateDisposition)
    → AllDispositions snapshot dispositions
    → AllDispositions snapshot (foldl (add_disposition snapshot) dispositions candidates)
unfolding add_disposition
fold-AllDispositions snapshot [] dispositions h = h
fold-AllDispositions snapshot (c ∷ cs) dispositions h =
    fold-AllDispositions snapshot cs (add_disposition snapshot dispositions c)
      (elim (Option-cases (current_candidate_review snapshot c)) [
        | inl n ↦ rw (n, add_disposition) h
        | inr (r, n) ↦
            rw (n, add_disposition) (insert-AllDispositions snapshot dispositions c r h n)
      ])

-- The review confirms the candidate; or it denies it, and the review's recorded digest of each piece
-- of the candidate's evidence is the current one.
abbrev pub HoldsNow : ProjectSnapshot → SignalCandidate → Review → Type 0
HoldsNow snapshot candidate r =
    (string_field r.1 "status" ≡ some "confirmed")
    ⊎ ((string_field r.1 "status" ≡ some "not-applicable")
        × ((reference : String)
            → Memᴰ reference candidate.evidence_refs
            → (digest : String) × (Map.get reference snapshot.artifact_digests ≡ some digest)
              × (Map.get reference (string_map (get r.0 "input_refs")) ≡ some digest)))

same_digest :
    (a b : Option String)
    → (text_option_eq a b && is_some b) ≡ true
    → (digest : String) × (a ≡ some digest) × (b ≡ some digest)
same_digest none none h = cc
same_digest none (some t) h = cc
same_digest (some s) none h = cc
same_digest (some s) (some t) h = (s, refl, ap some (sym (eq_of_== s t (ground arith))))

confirmed_or_denied :
    (a b c : Bool) → (a || (b && c)) ≡ true → (a ≡ true) ⊎ ((b ≡ true) × (c ≡ true))
confirmed_or_denied true b c h = inl refl
confirmed_or_denied false true c h = inr (refl, h)
confirmed_or_denied false false c h = cc

disposition-HoldsNow :
    (snapshot : ProjectSnapshot) (candidate : SignalCandidate) (r : Review)
    → ((disposition_of r).status == "confirmed"
        || ((disposition_of r).status == "not-applicable"
            && disposition_evidence_is_current candidate (disposition_of r) snapshot))
      ≡ true
    → HoldsNow snapshot candidate r
unfolding disposition_of disposition_evidence_is_current
disposition-HoldsNow snapshot candidate (result, review) h =
    elim (confirmed_or_denied ((disposition_of (result, review)).status == "confirmed")
      ((disposition_of (result, review)).status == "not-applicable")
      (disposition_evidence_is_current candidate (disposition_of (result, review)) snapshot) h) [
        | inl c ↦ inl (status-field review "status" "confirmed" refl c)
        | inr (d, e) ↦ inr (
          status-field review "status" "not-applicable" refl d,
          λ reference m. same_digest _ _ (all-mem _ candidate.evidence_refs e m),
        )
      ]

-- The two tests of a candidate's disposition, as one.
settled-disposition :
    (snapshot : ProjectSnapshot) (candidate : SignalCandidate)
    (dispositions : Map CandidateDisposition)
    → (is_confirmed dispositions candidate || is_denied snapshot dispositions candidate) ≡ true
    → (d : CandidateDisposition) × (Map.get candidate.fingerprint dispositions ≡ some d)
      × ((d.status == "confirmed"
            || (d.status == "not-applicable"
                && disposition_evidence_is_current candidate d snapshot))
          ≡ true)
settled-disposition snapshot candidate dispositions h =
    elim (Option-cases (Map.get candidate.fingerprint dispositions)) [
      | inl n ↦ cc (rw n at h)
      | inr (d, n) ↦ (d, n, rw n at h)
    ]

-- Each detected candidate is up for review, or has a recorded review of its fingerprint that holds
-- now: it confirms the candidate, or denies it and was made on the current version of all the
-- candidate's evidence. So a denial is reopened when a piece of that evidence changes or goes.
pub unreviewed_candidates-HoldsNow :
    (snapshot : ProjectSnapshot) (detection : DetectionReport) (candidate : SignalCandidate)
    → Memᴰ candidate detection.candidates
    → Memᴰ candidate (unreviewed_candidates snapshot detection)
      ⊎ ((r : Review) × Memᴰ r (reviews snapshot)
          × (string_field r.1 "fingerprint" ≡ some candidate.fingerprint)
          × HoldsNow snapshot candidate r)
unfolding unreviewed_candidates candidate_dispositions
unreviewed_candidates-HoldsNow snapshot detection candidate m =
    let dispositions = candidate_dispositions snapshot detection in
    elim (Bool-cases
      (is_confirmed dispositions candidate || is_denied snapshot dispositions candidate)) [
        | inr n ↦ inl (
            mem-filter (λ c. not (is_confirmed dispositions c || is_denied snapshot dispositions c))
              detection.candidates m (ap not n))
        | inl t ↦
            let (d, found, settled) = settled-disposition snapshot candidate dispositions t in
            let made =
              fold-AllDispositions snapshot detection.candidates [] (no_dispositions snapshot)
                candidate.fingerprint d found in
            inr (
              made.review,
              made.recorded,
              made.of_candidate,
              disposition-HoldsNow snapshot candidate made.review (
                  subst
                    (λ (d : CandidateDisposition).
                      (d.status == "confirmed"
                        || (d.status == "not-applicable"
                            && disposition_evidence_is_current candidate d snapshot))
                      ≡ true)
                    made.made settled),
            )
      ]
