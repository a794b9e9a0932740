-- ===== src/Rank/Tests.antt =====
-- The order of three events, with the scores in thousandths.
use mathlib.Core.List.{Perm}
use context_swarm_memory.Prelude.{
  ℕ, ◌*◌, ◌/◌, ◌≡◌, refl, List, [], ◌∷◌, ◌++◌, if◌then◌else◌, length, ltb, nat_eq, nat_eq_inst,
  list_eq, list_beq, ◌==◌, Text, text, to_lower,
}
use context_swarm_memory.Rank.{
  Arithmetic, RerankParams, rank_vocab, greedy_coverage_order, coverage_rerank_and_pack,
}
use context_swarm_memory.Selection.{dedupe_in_order}
use context_swarm_memory.Rank.Cut.{IsFull, tokens, coverage_rerank_and_pack_lem}

abbrev thousandths : Arithmetic
thousandths = record {
  Exponent = ℕ;
  Score = ℕ;
  is_zero = λ e. nat_eq e 0;
  unit = 1;
  pow = λ n e. n;
  quotient = λ g d. g * 1000 / d;
  less = ltb;
}

abbrev text_of : Text → Text
text_of id =
    if id == text "a"
    then text "green tea"
    else if id == text "b"
    then text "green tea, tea green"
    else text "milk-price in May"

abbrev params : RerankParams thousandths
params = record { query_weight = 4; norm_pow = 0; budget_tokens = 8; max_count = 64 }

abbrev ids : List Text
ids = text "a" ∷ text "b" ∷ text "c" ∷ []

terms : rank_vocab (text "The Milk-price in _May") ≡ text "milk-price" ∷ text "may" ∷ []
unfolding rank_vocab list_beq to_lower dedupe_in_order
terms = refl

order :
    greedy_coverage_order thousandths ids text_of (text "price? milk-price") 4 0
    ≡ text "c" ∷ text "a" ∷ text "b" ∷ []
unfolding greedy_coverage_order list_beq to_lower dedupe_in_order
order = refl

coverage_rerank_and_pack_lem_example :
    (rest : List Text) × (Perm
        (coverage_rerank_and_pack thousandths ids text_of (text "milk-price") params ++ rest)
        ids
      × IsFull thousandths text_of params
          (length (coverage_rerank_and_pack thousandths ids text_of (text "milk-price") params))
          (tokens thousandths text_of params
            (coverage_rerank_and_pack thousandths ids text_of (text "milk-price") params))
          rest)
coverage_rerank_and_pack_lem_example =
    coverage_rerank_and_pack_lem thousandths text_of params (text "milk-price") ids
