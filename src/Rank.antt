-- ===== src/Rank.antt =====
-- src/eval/ambReturnRank.ts: the retrieved events in the order of the new terms that they add, and the
-- front of that order which fits a budget. The quotients and powers of JavaScript numbers are parameters.
pub mod Cut
mod Tests
use context_swarm_memory.Prelude.{
  ℕ, zero, suc, ◌+◌, ◌/◌, Bool, true, false, not, ◌&&◌, ◌||◌, Option, none, some, List, [], ◌∷◌,
  ◌++◌, if◌then◌else◌, length, filter, any, ltb, leb, ◌==◌, nat_eq, nat_eq_inst, list_eq, Text,
  text, to_lower,
}
use context_swarm_memory.Selection.{dedupe_in_order}

abbrev stop_terms : List Text
stop_terms =
    text "the"
    ∷ text "and"
    ∷ text "for"
    ∷ text "are"
    ∷ text "was"
    ∷ text "were"
    ∷ text "this"
    ∷ text "that"
    ∷ text "with"
    ∷ text "have"
    ∷ text "has"
    ∷ text "had"
    ∷ text "you"
    ∷ text "your"
    ∷ text "they"
    ∷ text "them"
    ∷ text "their"
    ∷ text "from"
    ∷ text "into"
    ∷ text "about"
    ∷ text "what"
    ∷ text "when"
    ∷ text "where"
    ∷ text "which"
    ∷ text "would"
    ∷ text "could"
    ∷ text "should"
    ∷ text "there"
    ∷ text "here"
    ∷ text "then"
    ∷ text "than"
    ∷ text "user"
    ∷ text "assistant"
    ∷ text "turn"
    ∷ text "said"
    ∷ text "say"
    ∷ text "says"
    ∷ text "will"
    ∷ text "can"
    ∷ []

unfoldable pub starts_term : ℕ → Bool
starts_term c = (leb b'a' c && leb c b'z') || (leb b'0' c && leb c b'9')

abbrev pub goes_on : ℕ → Bool
goes_on c = starts_term c || (nat_eq c b'_' || nat_eq c b'-')

abbrev long_term : Text → List Text → List Text
long_term word rest = if leb 3 (length word) then word ∷ rest else rest

-- The matches of the pattern of terms, with the start of one in `word`.
unfoldable pub terms_from : Text → Text → List Text
unfolding starts_term
terms_from word [] = long_term word []
terms_from [] (c ∷ s) =
    let started = terms_from (c ∷ []) s in
    let skipped = terms_from [] s in if starts_term c then started else skipped
terms_from (w ∷ word) (c ∷ s) =
    let longer = terms_from (w ∷ (word ++ c ∷ [])) s in
    let ended = terms_from [] s in if goes_on c then longer else long_term (w ∷ word) ended

unfoldable pub rank_vocab : Text → List Text
unfolding terms_from to_lower
rank_vocab s =
    dedupe_in_order (filter (λ t. not (any (λ w. w == t) stop_terms)) (terms_from [] (to_lower s)))

unfoldable pub est_return_tokens : Text → ℕ
est_return_tokens s = (length s + 3) / 4

-- `remaining.splice(best, 1)`: the element that is taken out, and what is left.
unfoldable pub splice : ℕ → List Text → Option Text × List Text
splice n [] = (none, [])
splice zero (x ∷ xs) = (some x, xs)
splice (suc n) (x ∷ xs) = let (y, ys) = splice n xs in (y, x ∷ ys)

abbrev pub with_pick : Option Text → List Text → List Text
with_pick none rest = []
with_pick (some pick) rest = pick ∷ rest

-- The numbers of the parameters, the quotient of a gain, and the order of scores.
pub record Arithmetic : Type 1 where
  Exponent : Type 0
  Score : Type 0
  is_zero : Exponent → Bool
  unit : Score
  pow : ℕ → Exponent → Score
  quotient : ℕ → Score → Score
  less : Score → Score → Bool

module _ (num : Arithmetic) where
  pub record RerankParams : Type 0 where
    query_weight : ℕ
    norm_pow : num.Exponent
    budget_tokens : ℕ
    max_count : ℕ

  module _ (get_text : Text → Text) (q_terms : List Text) (query_weight : ℕ)
      (norm_pow : num.Exponent) where
    abbrev pub vof : Text → List Text
    vof id = rank_vocab (get_text id)

    abbrev counted_tokens : ℕ → ℕ
    counted_tokens n = if leb 1 n then n else 1

    unfoldable pub denom : Text → num.Score
    unfolding est_return_tokens
    denom id =
        if num.is_zero norm_pow
        then num.unit
        else num.pow (counted_tokens (est_return_tokens (get_text id))) norm_pow

    unfoldable pub gain_of : List Text → List Text → ℕ
    gain_of covered [] = 0
    gain_of covered (t ∷ ts) =
        (if any (λ c. c == t) covered
          then 0
          else if any (λ q. q == t) q_terms
          then query_weight
          else 1)
        + gain_of covered ts

    unfoldable pub score_of : List Text → Text → num.Score
    unfolding gain_of denom rank_vocab
    score_of covered id = num.quotient (gain_of covered (vof id)) (denom id)

    -- `score > bestScore`, where `none` is the -Infinity of the start.
    abbrev pub is_better : num.Score → Option num.Score → Bool
    is_better s none = true
    is_better s (some t) = num.less t s

    unfoldable pub best_index_from : List Text → ℕ → ℕ → Option num.Score → List Text → ℕ
    unfolding score_of
    best_index_from covered i best best_score [] = best
    best_index_from covered i best best_score (id ∷ ids) =
        let score = score_of covered id in
        let taken = best_index_from covered (suc i) i (some score) ids in
        let kept = best_index_from covered (suc i) best best_score ids in
        if is_better score best_score then taken else kept

    abbrev pub terms_of : Option Text → List Text
    terms_of none = []
    terms_of (some pick) = vof pick

    -- The loop over `remaining`, at most so many times.
    unfoldable pub greedy_from : ℕ → List Text → List Text → List Text
    unfolding best_index_from splice rank_vocab
    greedy_from zero covered remaining = []
    greedy_from (suc n) covered remaining =
        let taken = splice (best_index_from covered 0 0 none remaining) remaining in
        let rest = greedy_from n (covered ++ terms_of taken.0) taken.1 in with_pick taken.0 rest

  unfoldable pub greedy_coverage_order :
      List Text → (Text → Text) → Text → ℕ → num.Exponent → List Text
  unfolding greedy_from rank_vocab
  greedy_coverage_order ids get_text query query_weight norm_pow =
      greedy_from get_text (rank_vocab query) query_weight norm_pow (length ids) [] ids

  -- The loop that packs, behind so many events of so many tokens.
  unfoldable pub pack_ordered : (Text → Text) → RerankParams → ℕ → ℕ → List Text → List Text
  unfolding est_return_tokens
  pack_ordered get_text params count used [] = []
  pack_ordered get_text params count used (id ∷ ids) =
      let t = est_return_tokens (get_text id) in
      let more = pack_ordered get_text params (suc count) (used + t) ids in
      if not (nat_eq count 0) && ltb params.budget_tokens (used + t)
      then []
      else if leb params.max_count (suc count)
      then id ∷ []
      else id ∷ more

  unfoldable pub coverage_rerank_and_pack :
      List Text → (Text → Text) → Text → RerankParams → List Text
  unfolding greedy_coverage_order pack_ordered
  coverage_rerank_and_pack ids get_text query params =
      pack_ordered get_text params 0 0
        (greedy_coverage_order ids get_text query params.query_weight params.norm_pow)
