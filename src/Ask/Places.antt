-- ===== src/Ask/Places.antt =====
-- How many of the candidates, each with its place, pass a test.
use context_swarm_memory.Prelude.{
  Bool, true, false, ◌||◌, any, nat_eq, ◌<◌, list_eq, nat_eq_inst, ℕ, zero, suc, ◌+◌, ◌≤◌, ◌≡◌,
  refl, List, [], ◌∷◌, filter, take, arith, Bool-cases, inl, inr, length,
}
use context_swarm_memory.Ask.Probing.{Probed}
use context_swarm_memory.Ask.Eager.{Placed, place}

pub take_nothing : (n : ℕ) → take {A = Placed} n [] ≡ []
take_nothing zero = refl
take_nothing (suc n) = refl

pub filter_same :
    {A : Type 0} (f g : A → Bool)
    → ((a : A) → f a ≡ g a)
    → (xs : List A) → filter f xs ≡ filter g xs
filter_same f g h [] = refl
filter_same f g h (x ∷ xs) = rw (h x, filter_same f g h xs) refl

-- Tests that hold at fewer elements.
pub filter_mono :
    (f g : Placed → Bool)
    → ((p : Placed) → f p ≡ true → g p ≡ true)
    → (ps : List Placed) → length (filter f ps) ≤ length (filter g ps)
filter_mono f g h [] = omega arith
filter_mono f g h (p ∷ ps) = elim (Bool-cases (f p)) [
  | inl e ↦ rw (e, h p e) (omega (arith, filter_mono f g h ps))
  | inr e ↦ elim (Bool-cases (g p)) [
    | inl k ↦ rw (e, k) (omega (arith, filter_mono f g h ps))
    | inr k ↦ rw (e, k) (filter_mono f g h ps)
  ]
]

pub filter_or :
    (f g : Placed → Bool) (ps : List Placed)
    → length (filter (λ p. f p || g p) ps) ≤ length (filter f ps) + length (filter g ps)
filter_or f g [] = omega arith
filter_or f g (p ∷ ps) = elim (Bool-cases (f p)) [
  | inl e ↦ elim (Bool-cases (g p)) [
    | inl k ↦ rw (e, k) (omega (arith, filter_or f g ps))
    | inr k ↦ rw (e, k) (omega (arith, filter_or f g ps))
  ]
  | inr e ↦ elim (Bool-cases (g p)) [
    | inl k ↦ rw (e, k) (omega (arith, filter_or f g ps))
    | inr k ↦ rw (e, k) (filter_or f g ps)
  ]
]

pub filter_never : (ps : List Placed) → length (filter (λ p. false) ps) ≤ 0
filter_never [] = omega arith
filter_never (p ∷ ps) = filter_never ps

-- Each place is named at most once, so at most as many are chosen as there are names.
pub filter-any :
    (ns : List ℕ) (ps : List Placed)
    → ((n : ℕ) → length (filter (λ (p : Placed). nat_eq p.ix n) ps) ≤ 1)
    → length (filter (λ (p : Placed). any (nat_eq p.ix) ns) ps) ≤ length ns
filter-any [] ps h = filter_never ps
filter-any (n ∷ ns) ps h =
    omega (
      arith,
      h n,
      filter-any ns ps h,
      filter_or (λ p. nat_eq p.ix n) (λ p. any (nat_eq p.ix) ns) ps,
    )

pub place_past :
    (ix n : ℕ) (ps : List Probed)
    → n < ix
    → length (filter (λ (p : Placed). nat_eq p.ix n) (place ix ps)) ≤ 0
unfolding place
place_past ix n [] h = omega arith
place_past ix n (p ∷ ps) h =
    let other : nat_eq ix n ≡ false = ground (arith, h) in
    rw other (place_past (suc ix) n ps (omega arith))

pub place_at :
    (ix n : ℕ) (ps : List Probed)
    → length (filter (λ (p : Placed). nat_eq p.ix n) (place ix ps)) ≤ 1
unfolding place
place_at ix n [] = omega arith
place_at ix n (p ∷ ps) = elim (Bool-cases (nat_eq ix n)) [
  | inl e ↦
      let past : n < suc ix = ground (arith, e) in
      rw e (omega (arith, place_past (suc ix) n ps past))
  | inr e ↦ rw e (place_at (suc ix) n ps)
]
