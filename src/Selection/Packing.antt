-- ===== src/Selection/Packing.antt =====
-- What `packToBudget` takes, leaves and reports.
use context_swarm_memory.Prelude.{
  ℕ, ◌+◌, ◌≤◌, ◌<◌, ◌≡◌, refl, ◌↔◌, inl, inr, true, List, [], ◌∷◌, ◌++◌, append_assoc, append-nil,
  arith, ltb, nat_eq_iff, ◌∙◌, length, length-append, Bool-cases, sym, ap,
}
use context_swarm_memory.Selection.{pack_from, pack_to_budget}

-- A prefix that is as long as the whole is the whole.
whole_prefix :
    {T : Type 0} (xs ys : List T) {zs : List T} → xs ++ ys ≡ zs → length xs ≡ length zs → xs ≡ zs
whole_prefix xs [] p h = sym (append-nil xs) ∙ p
whole_prefix xs (y ∷ ys) p h = absurd (omega (arith, length-append xs (y ∷ ys), ap length p))

module _ {T : Type 0} (cost : T → ℕ) where
  -- The budget that a list of items uses.
  abbrev pub total_cost : List T → ℕ
  total_cost [] = 0
  total_cost (x ∷ xs) = cost x + total_cost xs

  total_cost-append : (xs ys : List T) → total_cost (xs ++ ys) ≡ total_cost xs + total_cost ys
  total_cost-append [] ys = omega arith
  total_cost-append (x ∷ xs) ys = omega (arith, total_cost-append xs ys)

  -- The longest prefix of the items that fits: what is left is empty, or its first item would
  -- exceed the budget.
  abbrev pub Exceeds : ℕ → ℕ → List T → Type 0
  Exceeds budget used [] = Unit
  Exceeds budget used (x ∷ xs) = budget < used + cost x

  pub record IsPacking (budget : ℕ) (items packed : List T) (used : ℕ) : Type 0 where
    pub rest : List T
    pub split : packed ++ rest ≡ items
    pub counted : used ≡ total_cost packed
    pub within : used ≤ budget
    pub longest : Exceeds budget used rest

  pack_from-IsPacking :
      (budget : ℕ) (before items : List T)
      → total_cost before ≤ budget
      → IsPacking budget
          (before ++ items)
          (pack_from cost budget before (total_cost before) items).0
          (pack_from cost budget before (total_cost before) items).1
  unfolding pack_from
  pack_from-IsPacking budget before [] h = record {
    rest = [];
    split = refl;
    counted = refl;
    within = h;
    longest = tt;
  }
  pack_from-IsPacking budget before (x ∷ items) h =
      elim (Bool-cases (ltb budget (total_cost before + cost x))) [
        | inl e ↦ rw e (record {
          rest = x ∷ items;
          split = refl;
          counted = refl;
          within = h;
          longest = ground arith;
        })
        | inr e ↦
            let longer = before ++ x ∷ [] in
            let sum : total_cost longer ≡ total_cost before + cost x =
              omega (arith, total_cost-append before (x ∷ [])) in
            let fits : total_cost longer ≤ budget = ground (arith, sum) in
            rw (e, ← sum, ← append_assoc before (x ∷ []) items)
              (pack_from-IsPacking budget longer items fits)
      ]

  -- `packToBudget` packs the longest prefix of the items whose costs stay within the budget, and
  -- reports its cost, the number of the items behind it, and whether there are none.
  pub pack_to_budget-IsPacking :
      (budget : ℕ) (items : List T)
      → let r = pack_to_budget cost budget items in
        IsPacking budget items r.packed r.used_budget
        × (r.dropped + length r.packed ≡ length items)
        × ((r.complete ≡ true) ↔ (r.packed ≡ items))
  unfolding pack_to_budget
  pack_to_budget-IsPacking budget items =
      let p = pack_from-IsPacking budget [] items (omega arith) in
      let packed = (pack_from cost budget [] 0 items).0 in
      (
        p,
        omega (arith, length-append packed p.rest, ap length p.split),
        (
          λ h. whole_prefix packed p.rest p.split ((nat_eq_iff _ _).0 h),
          λ h. (nat_eq_iff _ _).1 (ap length h),
        ),
      )
