-- ===== src/Selection/Tests.antt =====
-- Runs of the selection functions, and the theorems at concrete inputs.
use context_swarm_memory.Prelude.{
  ℕ, ◌≡◌, refl, true, false, none, some, [], ◌∷◌, List, Text, text, nat_eq_inst, list_ord, list_lt,
  ltb, Memᴰ, ◌++◌, ◌+◌, ◌↔◌, length, if◌then◌else◌, nat_ord,
}
use context_swarm_memory.Selection.{
  SelectOptions, nat_score, ties_at_cut, select, pack_to_budget, dedupe_in_order,
}
use context_swarm_memory.Selection.{same_score}
use context_swarm_memory.Selection.Packing.{IsPacking, pack_to_budget-IsPacking}
use context_swarm_memory.Selection.Dedupe.{IsDistinct, contains, dedupe_in_order_lem}
use mathlib.Core.List.{Perm}
use context_swarm_memory.Selection.Ranking.{IsCut, select-best, select-strict, select-ties_at_cut}

abbrev by_score : ℕ → SelectOptions (Text × ℕ) ℕ Text
by_score limit = record {
  score = λ p. p.1;
  key = λ p. p.0;
  limit = limit;
  signal_floor = none;
  tie_break = none;
}

abbrev shards : List (Text × ℕ)
shards = (text "d", 1) ∷ (text "a", 3) ∷ (text "c", 1) ∷ (text "b", 0) ∷ []

chosen : (select shards (by_score 2)).selected ≡ (text "a", 3) ∷ (text "c", 1) ∷ []
unfolding select list_lt
chosen = refl

-- The second and the third item tie at the cut of two.
tied : (select shards (by_score 2)).degenerate_reason ≡ some ties_at_cut
unfolding select list_lt
tied = refl

packed : (pack_to_budget (λ (n : ℕ). n) 7 (3 ∷ 4 ∷ 1 ∷ [])).packed ≡ 3 ∷ 4 ∷ []
unfolding pack_to_budget
packed = refl

deduped : dedupe_in_order {T = ℕ} (3 ∷ 4 ∷ 3 ∷ 1 ∷ []) ≡ 3 ∷ 4 ∷ 1 ∷ []
unfolding dedupe_in_order
deduped = refl

decided : (select shards (by_score 1)).discriminated ≡ true
unfolding select list_lt
decided = refl

select-best_example :
    IsCut (by_score 2) shards (select shards (by_score 2)) (λ x y. ltb x.1 y.1 ≡ false)
select-best_example = select-best shards (by_score 2)

select-strict_example :
    IsCut (by_score 1) shards (select shards (by_score 1)) (λ x y. ltb y.1 x.1 ≡ true)
select-strict_example = select-strict shards (by_score 1) decided

select-ties_at_cut_example :
    (x : Text × ℕ) × (y : Text × ℕ) × (rest : List (Text × ℕ)) × Memᴰ x
      (select shards (by_score 2)).selected
    × Memᴰ y rest
    × Perm ((select shards (by_score 2)).selected ++ rest) shards
    × (same_score x.1 y.1 ≡ true)
select-ties_at_cut_example = select-ties_at_cut shards (by_score 2) tied

pack_to_budget-IsPacking_example :
    let r = pack_to_budget (λ (n : ℕ). n) 7 (3 ∷ 4 ∷ 1 ∷ []) in
    IsPacking (λ (n : ℕ). n) 7 (3 ∷ 4 ∷ 1 ∷ []) r.packed r.used_budget
    × (r.dropped + length r.packed ≡ 3)
    × ((r.complete ≡ true) ↔ (r.packed ≡ 3 ∷ 4 ∷ 1 ∷ []))
pack_to_budget-IsPacking_example = pack_to_budget-IsPacking (λ (n : ℕ). n) 7 (3 ∷ 4 ∷ 1 ∷ [])

abbrev repeated : List ℕ
repeated = 3 ∷ 4 ∷ 3 ∷ []

dedupe_in_order_lem_example :
    IsDistinct (dedupe_in_order repeated)
    × (contains (dedupe_in_order repeated) 4 ≡ contains repeated 4)
    × (dedupe_in_order (repeated ++ 4 ∷ []) ≡ (
        if contains repeated 4
        then dedupe_in_order repeated
        else dedupe_in_order repeated ++ 4 ∷ []))
dedupe_in_order_lem_example = dedupe_in_order_lem repeated 4
