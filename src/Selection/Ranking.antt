-- ===== src/Selection/Ranking.antt =====
-- What `select` chooses, and what its report means.
use mathlib.Core.List.{Perm}
use mathlib.Core.List.Perm
use context_swarm_memory.Prelude.{
  ℕ, zero, suc, nat_eq, ◌||◌, ◌≡◌, refl, ap, sym, Bool, true, false, some, List, [], ◌∷◌, ◌++◌, map,
  map-append, Memᴰ, arith, Ord, min, length, take, drop, take-append-drop, length-map, length-take,
  All, Memᴰ-of_take, Memᴰ-of_map, All-map, Perm-of_eq, Memᴰ-of_drop, length-drop, ◌∙◌, All-Memᴰ,
  Bool-cases, inl, inr, lt_asym, lt_of_lt_of_le, lt_of_le_of_lt,
}
use context_swarm_memory.Prelude.Sort.{
  length-sort_by, sort_by-perm, sort_by-IsSorted, IsSorted, IsSorted-cut, All-sort_by,
}
use context_swarm_memory.Selection.Order.{ranks_before-IsWeakOrder}
use context_swarm_memory.Selection.{
  TieBreak, Score, Scored, SelectOptions, SelectionResult, ranks_before, ranked, tied_at,
  same_score, score_items, select, select_ranked, or_else, key_asc, ties_at_cut, is_none,
  degeneracy, nothing_selected,
}

untied : (n : ℕ) (t : Bool) → is_none (degeneracy n t) ≡ true → t ≡ false
unfolding is_none degeneracy
untied n t h = ground arith

tied : (n : ℕ) (t : Bool) → degeneracy n t ≡ some ties_at_cut → t ≡ true
unfolding degeneracy
tied n t h = ground arith

module _ {T S K : Type 0} ⦃sc : Score S⦄ ⦃ko : Ord K⦄ where
  map-item-score_items :
      (score : T → S) (key : T → K) (i : ℕ) (xs : List T)
      → map (λ c. c.item) (score_items score key i xs) ≡ xs
  unfolding score_items
  map-item-score_items score key i [] = refl
  map-item-score_items score key i (x ∷ xs) =
      ap (λ r. x ∷ r) (map-item-score_items score key (suc i) xs)

  length-score_items :
      (score : T → S) (key : T → K) (i : ℕ) (xs : List T)
      → length (score_items score key i xs) ≡ length xs
  unfolding score_items
  length-score_items score key i [] = refl
  length-score_items score key i (x ∷ xs) = ap suc (length-score_items score key (suc i) xs)

  All-score_items :
      (score : T → S) (key : T → K) (i : ℕ) (xs : List T)
      → All (λ c. c.s ≡ score c.item) (score_items score key i xs)
  unfolding score_items
  All-score_items score key i [] = tt
  All-score_items score key i (x ∷ xs) = (refl, All-score_items score key (suc i) xs)

  ranks_before-le :
      (tie : TieBreak) (a b : Scored T S K) → ranks_before tie b a ≡ false → sc.lt a.s b.s ≡ false
  unfolding ranks_before
  ranks_before-le tie a b h = ground (arith, lt_asym ⦃o = sc.ord⦄ a.s b.s)

  -- The head of a sorted list has the greatest score.
  head-le :
      (tie : TieBreak) (b : Scored T S K) (l : List (Scored T S K)) {y : Scored T S K}
      → All (λ z. ranks_before tie z b ≡ false) l
      → Memᴰ y (b ∷ l)
      → sc.lt b.s y.s ≡ false
  head-le tie b l h (Memᴰ.head e) = rw e (sc.ord.lt_irrefl b.s)
  head-le tie b l {y} h (Memᴰ.tail m) =
      ranks_before-le tie b y (All-Memᴰ (λ z. ranks_before tie z b ≡ false) h m)

  -- A cut that is not inside a run of equal scores separates the scores strictly.
  tied_at-strict :
      (tie : TieBreak) (n : ℕ) (l : List (Scored T S K)) {x y : Scored T S K}
      → IsSorted (ranks_before tie) l
      → tied_at n l ≡ false
      → Memᴰ x (take n l)
      → Memᴰ y (drop n l)
      → sc.lt y.s x.s ≡ true
  unfolding tied_at same_score
  tied_at-strict tie zero l h t m k = elim m [ ]
  tied_at-strict tie (suc n) [] h t m k = elim m [ ]
  tied_at-strict tie (suc zero) (a ∷ []) h t m k = elim k [ ]
  tied_at-strict tie (suc zero) (a ∷ b ∷ l) {x} {y} h t (Memᴰ.head e) k = rw e (
      lt_of_le_of_lt ⦃o = sc.ord⦄ y.s b.s a.s (head-le tie b l h.1.0 k)
        (ground (arith, ranks_before-le tie a b h.0.0)))
  tied_at-strict tie (suc zero) (a ∷ b ∷ l) h t (Memᴰ.tail m) k = elim m [ ]
  tied_at-strict tie (suc (suc n)) (a ∷ []) h t m k = elim k [ ]
  tied_at-strict tie (suc (suc n)) (a ∷ b ∷ l) {x} {y} h t (Memᴰ.head e) k =
      let below = tied_at-strict tie (suc n) (b ∷ l) h.1 t (Memᴰ.head refl) k in
      rw e (lt_of_lt_of_le ⦃o = sc.ord⦄ y.s b.s a.s below (ranks_before-le tie a b h.0.0))
  tied_at-strict tie (suc (suc n)) (a ∷ b ∷ l) h t (Memᴰ.tail m) k =
      tied_at-strict tie (suc n) (b ∷ l) h.1 t m k

  -- A cut inside a run of equal scores: some chosen item ties with some item that is passed over.
  tied_at-witness :
      (n : ℕ) (l : List (Scored T S K))
      → tied_at n l ≡ true
      → (x : Scored T S K) × (y : Scored T S K) × Memᴰ x (take n l)
        × Memᴰ y (drop n l)
        × (same_score x.s y.s ≡ true)
  unfolding tied_at
  tied_at-witness zero l t = cc
  tied_at-witness (suc zero) [] t = cc
  tied_at-witness (suc (suc n)) [] t = cc
  tied_at-witness (suc zero) (a ∷ []) t = cc
  tied_at-witness (suc zero) (a ∷ b ∷ l) t = (a, b, Memᴰ.head refl, Memᴰ.head refl, t)
  tied_at-witness (suc (suc n)) (a ∷ l) t =
      let (x, y, m, k, e) = tied_at-witness (suc n) l t in (x, y, Memᴰ.tail m, k, e)

  -- The chosen items and the rest are together the given items, as often; there are as many chosen
  -- as the limit and the list allow; each chosen item stands in the relation `R` to each of the rest.
  pub record IsCut (opts : SelectOptions T S K) (items : List T) (r : SelectionResult T)
      (R : T → T → Type 0) : Type 0 where
    pub rest : List T
    pub split : Perm (r.selected ++ rest) items
    pub size : length r.selected ≡ min opts.limit (length items)
    pub dropped : r.dropped ≡ length rest
    pub apart : All (λ x. All (λ y. R x y) rest) r.selected

  module _ (items : List T) (opts : SelectOptions T S K) where
    abbrev order : List (Scored T S K)
    order = ranked opts items

    abbrev cut : ℕ
    cut = min opts.limit (length items)

    abbrev items_of : List (Scored T S K) → List T
    items_of = map (λ c. c.item)

    order-IsSorted : IsSorted (ranks_before (or_else opts.tie_break key_asc)) order
    unfolding ranked
    order-IsSorted =
        sort_by-IsSorted _
          (ranks_before-IsWeakOrder {T = T} {S = S} {K = K} (or_else opts.tie_break key_asc))
          (score_items opts.score opts.key 0 items)

    order-split : Perm (items_of (take cut order) ++ items_of (drop cut order)) items
    unfolding ranked
    order-split =
        Perm.trans
          (Perm-of_eq (
            sym (map-append (λ c. c.item) (take cut order) (drop cut order))
            ∙ ap items_of (take-append-drop cut order)))
          (Perm.trans (Perm.map (λ c. c.item) (sort_by-perm _ _))
            (Perm-of_eq (map-item-score_items opts.score opts.key 0 items)))

    length-order : length order ≡ length items
    unfolding ranked
    length-order =
        length-sort_by _ (score_items opts.score opts.key 0 items)
        ∙ length-score_items opts.score opts.key 0 items

    size : length (items_of (take cut order)) ≡ cut
    size = omega (
      arith,
      length-map (λ (c : Scored T S K). c.item) (take cut order),
      length-take cut order,
      length-order,
    )

    score-order : {x : Scored T S K} → Memᴰ x order → x.s ≡ opts.score x.item
    unfolding ranked
    score-order m =
        All-Memᴰ (λ c. c.s ≡ opts.score c.item)
          (All-sort_by _ _ _ (All-score_items opts.score opts.key 0 items)) m

    module _ (R : Scored T S K → Scored T S K → Type 0) (Q : T → T → Type 0)
        (sound : (a b : Scored T S K)
          → a.s ≡ opts.score a.item
          → b.s ≡ opts.score b.item
          → R a b
          → Q a.item b.item)
        (apart : (a b : Scored T S K)
          → Memᴰ a (take cut order)
          → Memᴰ b (drop cut order)
          → R a b) where
      select_ranked-IsCut : IsCut opts items (select_ranked items opts) Q
      unfolding select_ranked
      select_ranked-IsCut = record {
        rest = items_of (drop cut order);
        split = order-split;
        size = size;
        dropped = omega (
          arith,
          size,
          length-map (λ (c : Scored T S K). c.item) (drop cut order),
          length-drop cut order,
          length-order,
        );
        apart = All-map _ _ _ (λ a p. All-map _ _ _ (λ b q.
            sound a b (score-order (Memᴰ-of_take cut order p))
              (score-order (Memᴰ-of_drop cut order q)) (apart a b p q)));
      }

    nothing_selected-IsCut :
        (R : T → T → Type 0)
        → (nat_eq (length items) 0 || nat_eq opts.limit 0) ≡ true
        → IsCut opts items (nothing_selected (length items)) R
    unfolding nothing_selected
    nothing_selected-IsCut R e = record {
      rest = items;
      split = Perm.refl items;
      size = ground arith;
      dropped = refl;
      apart = tt;
    }

    -- Nothing that `select` passes over scores higher than anything that it chooses.
    pub select-best :
        IsCut opts items (select items opts) (λ x y. sc.lt (opts.score x) (opts.score y) ≡ false)
    unfolding select
    select-best = elim (Bool-cases (nat_eq (length items) 0 || nat_eq opts.limit 0)) [
      | inl e ↦ rw e (nothing_selected-IsCut _ e)
      | inr e ↦ rw e (
          select_ranked-IsCut (λ a b. sc.lt a.s b.s ≡ false) _ (λ a b p q h. rw (← p, ← q) h)
            (λ a b p q. ranks_before-le _ a b (IsSorted-cut _ cut order order-IsSorted p q)))
    ]

    -- A selection that is reported as discriminated was decided by the scores alone: everything that
    -- is passed over scores strictly lower than everything chosen.
    pub select-strict :
        (select items opts).discriminated ≡ true
        → IsCut opts items (select items opts) (λ x y. sc.lt (opts.score y) (opts.score x) ≡ true)
    unfolding select nothing_selected
    select-strict d = elim (Bool-cases (nat_eq (length items) 0 || nat_eq opts.limit 0)) [
      | inl e ↦ rw e (nothing_selected-IsCut _ e)
      | inr e ↦ rw e (
          select_ranked-IsCut (λ a b. sc.lt b.s a.s ≡ true) _ (λ a b p q h. rw (← p, ← q) h)
            (λ a b p q.
              tied_at-strict _ cut order order-IsSorted
                (unfold select_ranked in untied _ _ (rw e at d)) p q))
    ]

    -- A selection that is reported as tied at the cut chose some item and passed over another with
    -- the same score.
    pub select-ties_at_cut :
        (select items opts).degenerate_reason ≡ some ties_at_cut
        → (x : T) × (y : T) × (rest : List T) × Memᴰ x (select items opts).selected
          × Memᴰ y rest
          × Perm ((select items opts).selected ++ rest) items
          × (same_score (opts.score x) (opts.score y) ≡ true)
    unfolding select nothing_selected select_ranked
    select-ties_at_cut t = elim (Bool-cases (nat_eq (length items) 0 || nat_eq opts.limit 0)) [
      | inl e ↦ cc (rw e at t)
      | inr e ↦
          let (a, b, p, q, h) = tied_at-witness cut order (tied _ _ (rw e at t)) in
          rw e (
            a.item,
            b.item,
            items_of (drop cut order),
            Memᴰ-of_map (λ c. c.item) (take cut order) p,
            Memᴰ-of_map (λ c. c.item) (drop cut order) q,
            order-split,
            rw (← score-order (Memᴰ-of_take cut order p), ← score-order (Memᴰ-of_drop cut order q))
                h,
          )
    ]
