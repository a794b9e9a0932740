-- ===== src/RetrievalUnit/Best.antt =====
-- Best-unit pooling.
use context_swarm_memory.Prelude.{
  ℕ, ◌≤◌, ◌≡◌, refl, Bool, true, false, some, List, [], ◌∷◌, if◌then◌else◌, leb, leb→le, arith, All,
  Memᴰ,
}
use context_swarm_memory.RetrievalUnit.{best_from, best_unit_score}

second : {b a s : ℕ} {ss : List ℕ} → Memᴰ b (a ∷ ss) → Memᴰ b (a ∷ s ∷ ss)
second (Memᴰ.head e) = Memᴰ.head e
second (Memᴰ.tail m) = Memᴰ.tail (Memᴰ.tail m)

-- `r` is the greatest of some scores, one of which is `best`.
record IsBest (best : ℕ) (ss : List ℕ) (r : ℕ) : Type 0 where
  member : Memᴰ r (best ∷ ss)
  first : best ≤ r
  all : All (λ x. x ≤ r) ss

next-IsBest :
    (best s : ℕ) (ss : List ℕ) (b : Bool) (r : ℕ)
    → leb s best ≡ b
    → IsBest (if b then best else s) ss r
    → IsBest best (s ∷ ss) r
next-IsBest best s ss true r e h = record {
  member = second h.member;
  first = h.first;
  all = (omega (arith, leb→le s best e, h.first), h.all);
}
next-IsBest best s ss false r e h = record {
  member = Memᴰ.tail h.member;
  first = ground (arith, h.first);
  all = (h.first, h.all);
}

best_from-IsBest : (best : ℕ) (ss : List ℕ) → IsBest best ss (best_from best ss)
unfolding best_from
best_from-IsBest best [] = record { member = Memᴰ.head refl; first = omega arith; all = tt }
best_from-IsBest best (s ∷ ss) =
    next-IsBest best s ss (leb s best) _ refl (best_from-IsBest (if leb s best then best else s) ss)

-- A shard with units scores as its most relevant one: the score is a unit's, and no unit's is
-- greater.
pub best_unit_score_lem :
    (s : ℕ) (ss : List ℕ)
    → (best : ℕ) × (best_unit_score (s ∷ ss) ≡ some best)
      × Memᴰ best (s ∷ ss)
      × All (λ x. x ≤ best) (s ∷ ss)
unfolding best_unit_score
best_unit_score_lem s ss =
    let h = best_from-IsBest s ss in (best_from s ss, refl, h.member, (h.first, h.all))
