-- ===== src/Kernel/Batch.antt =====
-- The batch of an action: `batch_action` of src/kernel.rs.
use agentic_development_fram.Base.{
  String, ℕ, ◌≤◌, ◌≡◌, refl, Bool, true, false, List, [], ◌∷◌, Memᴰ, eq_iff, ◌↔◌, if◌then◌else◌,
  arith, filter-mem, mem-filter, ltb, eq_of_==, ==-self,
}
use agentic_development_fram.Base.Order.{sort_by, text_le, text_lt}
use agentic_development_fram.Base.Order.Laws.{
  compare_swap, compare_trans, text_le_refl, text_le_total, text_le_trans,
}
use agentic_development_fram.Base.Order.Sorted.{IsOrder, IsLeastOf, sort_by-least}
use text.Mathlib.TextEquality.{path_by_compare}
use agentic_development_fram.Json.Canonical.{Crates}
use agentic_development_fram.Kernel.Types.{ProjectSnapshot, RequirementInstance}
use agentic_development_fram.Kernel.Actions.{
  role_rank, batch_le, first_of, same_batch, batch, batch_action, make_action,
}

-- The order of a text followed by another.
abbrev pair_le : String → String → String → String → Bool
pair_le s k t l = if text_lt s t then true else if text_lt t s then false else text_le k l

pair_le_trans :
    (s t u k l m : String)
    → pair_le s k t l ≡ true
    → pair_le t l u m ≡ true
    → pair_le s k u m ≡ true
pair_le_trans s t u k l m h g = ground (
  arith,
  compare_swap s t,
  compare_swap t u,
  compare_swap s u,
  compare_trans s t u,
  path_by_compare s t,
  path_by_compare t u,
  path_by_compare s u,
  text_le_trans k l m,
)

-- The order of a number followed by another order.
abbrev rank_le : ℕ → ℕ → Bool → Bool
rank_le m n b = if ltb m n then true else if ltb n m then false else b

rank_le_trans :
    (l m n : ℕ) (p q r : Bool)
    → (p ≡ true → q ≡ true → r ≡ true)
    → rank_le l m p ≡ true
    → rank_le m n q ≡ true
    → rank_le l n r ≡ true
rank_le_trans l m n p q r f h k = ground (arith, f)

batch_le-IsOrder : IsOrder batch_le
unfolding batch_le
batch_le-IsOrder = record {
  reflexive = λ a. ground (arith, text_le_refl a.instance_key);
  total = λ a b h. ground (arith, h, text_le_total a.instance_key b.instance_key);
  transitive = λ a b c h k.
      rank_le_trans (role_rank a.role) (role_rank b.role) (role_rank c.role) _ _ _
        (pair_le_trans a.result_schema b.result_schema c.result_schema a.instance_key b.instance_key
          c.instance_key)
        h k;
}

batch_le-rank :
    (a b : RequirementInstance) → batch_le a b ≡ true → role_rank a.role ≤ role_rank b.role
unfolding batch_le
batch_le-rank a b h = ground (arith, h)

first_of-least :
    (c : RequirementInstance) (cs : List RequirementInstance)
    → Memᴰ (first_of c cs) (c ∷ cs)
      × ((z : RequirementInstance) → Memᴰ z (c ∷ cs) → batch_le (first_of c cs) z ≡ true)
unfolding first_of
first_of-least c cs =
    by_sort (sort_by batch_le (c ∷ cs)) refl (sort_by-least batch_le batch_le-IsOrder (c ∷ cs))
  where
    by_sort :
        (sorted : List RequirementInstance)
        → sort_by batch_le (c ∷ cs) ≡ sorted
        → IsLeastOf batch_le sorted (c ∷ cs)
        → Memᴰ (first_of c cs) (c ∷ cs)
          × ((z : RequirementInstance) → Memᴰ z (c ∷ cs) → batch_le (first_of c cs) z ≡ true)
    by_sort [] e h = cc
    by_sort (x ∷ xs) e h = rw (e, first_of) h

-- The batch action of candidates is for one role and one result schema. Its instances are exactly
-- the candidates of that role and schema, and there is at least one; no candidate has a role that
-- comes before it in the order Analyst, Builder, Challenger.
pub batch_action-batch :
    (crates : Crates) (snapshot : ProjectSnapshot) (c : RequirementInstance)
    (cs : List RequirementInstance)
    → ((i : RequirementInstance)
        → Memᴰ i (batch_action crates snapshot c cs).requirement_instances ↔ (
            Memᴰ i (c ∷ cs)
            × (i.role ≡ (batch_action crates snapshot c cs).role)
            × (i.result_schema ≡ (batch_action crates snapshot c cs).expected_result_schema)))
      × ((first : RequirementInstance) × Memᴰ first
            (batch_action crates snapshot c cs).requirement_instances)
      × ((i : RequirementInstance)
          → Memᴰ i (c ∷ cs)
          → role_rank (batch_action crates snapshot c cs).role ≤ role_rank i.role)
unfolding batch_action make_action batch
batch_action-batch crates snapshot c cs =
    let first = first_of c cs in
    let (m, least) = first_of-least c cs in
    (
      λ i. (
        λ n.
            let (o, q) = filter-mem (same_batch first) (c ∷ cs) n in
            (
              o,
              eq_of_== i.role first.role (ground (arith, q)),
              eq_of_== i.result_schema first.result_schema (ground (arith, q)),
            ),
        λ (o, r, s). mem-filter (same_batch first) (c ∷ cs) o (
            ground
              (arith, eq_iff i.role first.role, eq_iff i.result_schema first.result_schema, r, s)),
      ),
      (
        first,
        mem-filter (same_batch first) (c ∷ cs) m
            (ground (arith, ==-self first.role, ==-self first.result_schema)),
      ),
      λ i n. batch_le-rank first i (least i n),
    )
