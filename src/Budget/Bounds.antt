-- ===== src/Budget/Bounds.antt =====
-- Estimates, fullness and recommendations: their bounds, and that they grow.
use context_swarm_memory.Prelude.{
  ℕ, ◌+◌, ◌*◌, ◌/◌, ◌≤◌, ◌<◌, ◌≡◌, List, [], ◌∷◌, ◌++◌, leb, arith, Bool-cases, inl, inr,
}
use native.Mathlib.Nat.{div-lt_iff_lt-mul}
use context_swarm_memory.Memory.{MemoryEvent}
use context_swarm_memory.Budget.{
  estimate_events_tokens, fullness_pct, round2, SplitRecommendation, recommend_for_fullness,
  recommend_from, continue, watch, split_candidate, freeze_recommended, danger_zone,
}

-- The estimate of two histories, one behind the other, is the sum of their estimates.
pub estimate_events_tokens-append :
    (es fs : List MemoryEvent)
    → estimate_events_tokens (es ++ fs) ≡ estimate_events_tokens es + estimate_events_tokens fs
unfolding estimate_events_tokens
estimate_events_tokens-append [] fs = omega arith
estimate_events_tokens-append (e ∷ es) fs = omega (arith, estimate_events_tokens-append es fs)

-- How far a recommendation goes.
abbrev pub severity : SplitRecommendation → ℕ
severity continue = 0
severity watch = 1
severity split_candidate = 2
severity freeze_recommended = 3
severity danger_zone = 4

-- The recommendation for a greater or equal fullness goes at least as far.
recommend_for_fullness_mono :
    (p q : ℕ) → p ≤ q → severity (recommend_for_fullness p) ≤ severity (recommend_for_fullness q)
unfolding recommend_for_fullness recommend_from
recommend_for_fullness_mono p q h = ground arith

percent : (tokens limit : ℕ) → tokens < limit → (tokens * 100 * 200 + limit) / (2 * limit) ≤ 10000
percent tokens limit h = omega (
  arith,
  (div-lt_iff_lt-mul {k = 2 * limit} {x = tokens * 100 * 200 + limit} {y = 10001}
        (omega (arith, h))).1
      (omega (arith, h)),
)

-- The fullness of a shard, rounded, in hundredths of a percent, is at most 100 percent.
round2-fullness_pct-le : (tokens limit : ℕ) → round2 (fullness_pct tokens limit) ≤ 10000
unfolding round2 fullness_pct
round2-fullness_pct-le tokens limit = elim (Bool-cases (leb limit 0)) [
  | inl e ↦ rw e (omega arith)
  | inr e ↦ elim (Bool-cases (leb limit tokens)) [
    | inl f ↦ rw (e, f) (omega arith)
    | inr f ↦ rw (e, f) (percent tokens limit (ground arith))
  ]
]
