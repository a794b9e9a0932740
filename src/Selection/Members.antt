-- ===== src/Selection/Members.antt =====
-- What holds of all items holds of those that `select` chooses.
use context_swarm_memory.Prelude.{
  ℕ, suc, nat_eq, ◌||◌, ◌≡◌, refl, List, [], ◌∷◌, Memᴰ, Ord, length, All, All-Memᴰ, All-map,
  Memᴰ-of_take, Bool-cases, inl, inr, Bool, filter, true, All_mono,
}
use context_swarm_memory.Prelude.Sort.{All-sort_by}
use context_swarm_memory.Selection.{
  Score, Scored, SelectOptions, ranked, score_items, select, select_ranked, nothing_selected,
}

module _ {T S K : Type 0} ⦃sc : Score S⦄ ⦃ko : Ord K⦄ (P : T → Type 0) where
  All-score_items :
      (score : T → S) (key : T → K) (i : ℕ) (xs : List T)
      → All P xs
      → All (λ (c : Scored T S K). P c.item) (score_items score key i xs)
  unfolding score_items
  All-score_items score key i [] h = tt
  All-score_items score key i (x ∷ xs) h = (h.0, All-score_items score key (suc i) xs h.1)

  pub All-select :
      (items : List T) (opts : SelectOptions T S K)
      → All P items
      → All P (select items opts).selected
  unfolding select select_ranked nothing_selected ranked
  All-select items opts h = elim (Bool-cases (nat_eq (length items) 0 || nat_eq opts.limit 0)) [
    | inl e ↦ rw e tt
    | inr e ↦ rw e (
        All-map (λ (c : Scored T S K). c.item) P _
          (λ c m.
            All-Memᴰ (λ (c : Scored T S K). P c.item)
              (All-sort_by _ _ _ (All-score_items opts.score opts.key 0 items h))
              (Memᴰ-of_take _ _ m)))
  ]

-- What a filter keeps is in the list and passes the test.
pub filter-All-Memᴰ :
    {A : Type 0} (q : A → Bool) (xs : List A) → All (λ x. Memᴰ x xs × (q x ≡ true)) (filter q xs)
filter-All-Memᴰ q [] = tt
filter-All-Memᴰ q (x ∷ xs) =
    let rest =
      All_mono (λ y. Memᴰ y xs × (q y ≡ true)) (λ y. Memᴰ y (x ∷ xs) × (q y ≡ true)) _
        (λ y h. (Memᴰ.tail h.0, h.1)) (filter-All-Memᴰ q xs) in
    elim (Bool-cases (q x)) [ inl e ↦ rw e ((Memᴰ.head refl, e), rest) | inr e ↦ rw e rest ]
