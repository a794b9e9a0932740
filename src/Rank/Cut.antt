-- ===== src/Rank/Cut.antt =====
-- No event is lost or doubled by the order, and the cut is as long as its limits admit.
use mathlib.Core.List.{Perm}
use mathlib.Core.List.Perm
use context_swarm_memory.Prelude.{
  ℕ, zero, suc, ◌+◌, ◌≤◌, ◌<◌, ◌≡◌, refl, ap, subst, false, not, ◌&&◌, ◌⊎◌, inl, inr, Option, none,
  some, List, [], ◌∷◌, ◌++◌, length, length-perm, ltb, leb, nat_eq, arith, Bool-cases, Text,
  Perm-of_eq,
}
use context_swarm_memory.Rank.{
  Arithmetic, RerankParams, est_return_tokens, splice, with_pick, rank_vocab, terms_of, is_better,
  score_of, best_index_from, greedy_from, greedy_coverage_order, pack_ordered,
  coverage_rerank_and_pack,
}

-- An index in the list takes an element out.
abbrev Takes : Option Text × List Text → List Text → Type 0
Takes (none, rest) xs = ⊥
Takes (some x, rest) xs = Perm (x ∷ rest) xs

splice-Takes : (n : ℕ) (xs : List Text) → n < length xs → Takes (splice n xs) xs
unfolding splice
splice-Takes n [] h = absurd (omega (arith, h))
splice-Takes zero (x ∷ xs) h = Perm.refl (x ∷ xs)
splice-Takes (suc n) (x ∷ xs) h = behind (splice n xs) (splice-Takes n xs (omega arith))
  where
    behind : (r : Option Text × List Text) → Takes r xs → Takes (r.0, x ∷ r.1) (x ∷ xs)
    behind (none, rest) t = t
    behind (some y, rest) t = Perm.trans (Perm.swap x y rest) (Perm.cons x t)

module _ (num : Arithmetic) (get_text : Text → Text) where
  module _ (q_terms : List Text) (query_weight : ℕ) (norm_pow : num.Exponent) where
    abbrev best : List Text → ℕ → ℕ → Option num.Score → List Text → ℕ
    best = best_index_from num get_text q_terms query_weight norm_pow

    best_index_from-lt :
        (covered : List Text) (i b : ℕ) (s : Option num.Score) (ids : List Text)
        → b < i + length ids
        → best covered i b s ids < i + length ids
    unfolding best_index_from
    best_index_from-lt covered i b s [] h = h
    best_index_from-lt covered i b s (id ∷ ids) h =
        let score = score_of num get_text q_terms query_weight norm_pow covered id in
        elim (Bool-cases (is_better num get_text q_terms query_weight norm_pow score s)) [
          | inl e ↦
              rw e
                (omega (arith, best_index_from-lt covered (suc i) i (some score) ids (omega arith)))
          | inr e ↦
              rw e (omega (arith, h, best_index_from-lt covered (suc i) b s ids (omega arith)))
        ]

    abbrev greedy : ℕ → List Text → List Text → List Text
    greedy = greedy_from num get_text q_terms query_weight norm_pow

    picked-perm :
        (n : ℕ) (covered xs : List Text) (t : Option Text × List Text)
        → ((c ys : List Text) → length ys ≡ n → Perm (greedy n c ys) ys)
        → length xs ≡ suc n
        → Takes t xs
        → Perm
            (with_pick t.0
              (greedy n (covered ++ terms_of num get_text q_terms query_weight norm_pow t.0) t.1))
            xs
    picked-perm n covered xs (none, rest) ih h k = absurd k
    picked-perm n covered xs (some pick, rest) ih h k =
        let shorter : length rest ≡ n = omega (arith, length-perm k) in
        Perm.trans (Perm.cons pick (ih (covered ++ rank_vocab (get_text pick)) rest shorter)) k

    greedy_from-perm :
        (n : ℕ) (covered remaining : List Text)
        → length remaining ≡ n
        → Perm (greedy n covered remaining) remaining
    unfolding greedy_from
    greedy_from-perm zero covered [] h = Perm.refl []
    greedy_from-perm zero covered (r ∷ rs) h = absurd (omega (arith, h))
    greedy_from-perm (suc n) covered [] h = absurd (omega (arith, h))
    greedy_from-perm (suc n) covered (r ∷ rs) h =
        let b = best covered 0 0 none (r ∷ rs) in
        let start : 0 < 0 + length (r ∷ rs) = omega arith in
        let within : b < length (r ∷ rs) =
          omega (arith, best_index_from-lt covered 0 0 none (r ∷ rs) start) in
        picked-perm n covered (r ∷ rs) (splice b (r ∷ rs)) (λ c ys e. greedy_from-perm n c ys e) h
          (splice-Takes b (r ∷ rs) within)

  module _ (params : RerankParams num) where
    abbrev pub tokens : List Text → ℕ
    tokens [] = 0
    tokens (id ∷ ids) = est_return_tokens (get_text id) + tokens ids

    -- Why the cut ends before the next event.
    abbrev pub Stops : ℕ → ℕ → List Text → Type 0
    Stops n used [] = Unit
    Stops n used (next ∷ ids) =
        (params.max_count ≤ n) ⊎ (params.budget_tokens < used + est_return_tokens (get_text next))

    -- So many events of so many tokens are within the limits, of which a single event needs neither,
    -- and only as few of them as the limits ask for.
    abbrev pub IsFull : ℕ → ℕ → List Text → Type 0
    IsFull n used rest =
        ((n ≤ 1) ⊎ (n ≤ params.max_count))
        × (((n ≤ 1) ⊎ (used ≤ params.budget_tokens)) × Stops n used rest)

    abbrev CutAt : ℕ → ℕ → List Text → List Text → Type 0
    CutAt n used ids cut =
        (rest : List Text) × ((cut ++ rest ≡ ids)
          × IsFull (n + length cut) (used + tokens cut) rest)

    from_start :
        (n used : ℕ) (rest : List Text) → IsFull (0 + n) (0 + used) rest → IsFull n used rest
    from_start n used rest full =
        let n_same : 0 + n ≡ n = omega arith in
        let t_same : 0 + used ≡ used = omega arith in
        subst (λ u. IsFull n u rest) t_same (subst (λ m. IsFull m (0 + used) rest) n_same full)

    cut_later :
        (n used : ℕ) (id : Text) (ids cut : List Text)
        → CutAt (suc n) (used + est_return_tokens (get_text id)) ids cut
        → CutAt n used (id ∷ ids) (id ∷ cut)
    cut_later n used id ids cut (rest, (split, full)) =
        let t = est_return_tokens (get_text id) in
        let n_same : suc n + length cut ≡ n + length (id ∷ cut) = omega arith in
        let t_same : used + t + tokens cut ≡ used + tokens (id ∷ cut) = omega arith in
        let counted : IsFull (n + length (id ∷ cut)) (used + t + tokens cut) rest =
          subst (λ m. IsFull m (used + t + tokens cut) rest) n_same full in
        (
          rest,
          (
            ap (λ l. id ∷ l) split,
            subst (λ u. IsFull (n + length (id ∷ cut)) u rest) t_same counted,
          ),
        )

    cut_here : (n used : ℕ) (ids : List Text) → IsFull n used ids → CutAt n used ids []
    cut_here n used ids full =
        let n_same : n ≡ n + 0 = omega arith in
        let t_same : used ≡ used + 0 = omega arith in
        (
          ids,
          (
            refl,
            subst (λ u. IsFull (n + 0) u ids) t_same (subst (λ m. IsFull m used ids) n_same full),
          ),
        )

    bounded : (n : ℕ) → (n ≡ 0) ⊎ (n < params.max_count) → (n ≤ 1) ⊎ (n ≤ params.max_count)
    bounded n (inl e) = inl (omega (arith, e))
    bounded n (inr l) = inr (omega (arith, l))

    bounded_next :
        (n : ℕ) → (n ≡ 0) ⊎ (n < params.max_count) → (suc n ≤ 1) ⊎ (suc n ≤ params.max_count)
    bounded_next n (inl e) = inl (omega (arith, e))
    bounded_next n (inr l) = inr (omega (arith, l))

    Stops-max_count : (n used : ℕ) (ids : List Text) → params.max_count ≤ n → Stops n used ids
    Stops-max_count n used [] h = tt
    Stops-max_count n used (id ∷ ids) h = inl h

    fits_next :
        (n u : ℕ)
        → (not (nat_eq n 0) && ltb params.budget_tokens u) ≡ false
        → (suc n ≤ 1) ⊎ (u ≤ params.budget_tokens)
    fits_next zero u h = inl (omega arith)
    fits_next (suc n) u h = inr (ground (arith, h))

    pack_ordered-CutAt :
        (n used : ℕ) (ids : List Text)
        → (n ≤ 1) ⊎ (used ≤ params.budget_tokens)
        → (n ≡ 0) ⊎ (n < params.max_count)
        → CutAt n used ids (pack_ordered num get_text params n used ids)
    unfolding pack_ordered
    pack_ordered-CutAt n used [] h k = cut_here n used [] (bounded n k, (h, tt))
    pack_ordered-CutAt n used (id ∷ ids) h k =
        let u = used + est_return_tokens (get_text id) in
        elim (Bool-cases (not (nat_eq n 0) && ltb params.budget_tokens u)) [
          | inl e ↦ rw e (cut_here n used (id ∷ ids) (bounded n k, (h, inr (ground (arith, e)))))
          | inr e ↦ rw e (elim (Bool-cases (leb params.max_count (suc n))) [
            | inl l ↦
                let end : params.max_count ≤ suc n = ground (arith, l) in
                let full : IsFull (suc n) u ids =
                  (bounded_next n k, (fits_next n u e, Stops-max_count (suc n) u ids end)) in
                rw l (cut_later n used id ids [] (cut_here (suc n) u ids full))
            | inr l ↦
                let more : suc n < params.max_count = ground (arith, l) in
                rw l (
                  cut_later n used id ids _
                    (pack_ordered-CutAt (suc n) u ids (fits_next n u e) (inr more)))
          ])
        ]

  -- What is returned is the front of a list that holds each of the retrieved events as often as they
  -- were retrieved. It has at most max_count events and at most the tokens of the budget, or it has at
  -- most one event; and it ends only where no event is left, the count is reached or the next event
  -- would exceed the budget.
  pub coverage_rerank_and_pack_lem :
      (params : RerankParams num) (query : Text) (ids : List Text)
      → (rest : List Text) × (Perm
            (coverage_rerank_and_pack num ids get_text query params ++ rest)
            ids
          × IsFull params
              (length (coverage_rerank_and_pack num ids get_text query params))
              (tokens params (coverage_rerank_and_pack num ids get_text query params))
              rest)
  unfolding coverage_rerank_and_pack greedy_coverage_order
  coverage_rerank_and_pack_lem params query ids =
      let order =
        greedy_coverage_order num ids get_text query params.query_weight params.norm_pow in
      let (rest, (split, full)) =
        pack_ordered-CutAt params 0 0 order (inl (omega arith)) (inl refl) in
      let ordered : Perm order ids =
        greedy_from-perm (rank_vocab query) params.query_weight params.norm_pow (length ids) [] ids
          refl in
      (rest, (Perm.trans (Perm-of_eq split) ordered, from_start params _ _ rest full))
