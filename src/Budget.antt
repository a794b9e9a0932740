-- ===== src/Budget.antt =====
-- src/core/tokenBudget.ts and src/core/split.ts: token estimates, fullness and what it recommends.
pub mod Bounds
use context_swarm_memory.Prelude.{
  ℕ, ◌+◌, ◌*◌, ◌/◌, List, [], ◌∷◌, Text, text, length, ltb, leb, if◌then◌else◌, join,
}
use context_swarm_memory.Memory.{MemoryEvent, role_text}
use context_swarm_memory.Selection.{Ratio}

-- `Math.ceil(text.length / 4)`
unfoldable pub estimate_tokens : Text → ℕ
estimate_tokens s = (length s + 3) / 4

unfoldable pub event_tokens : MemoryEvent → ℕ
unfolding estimate_tokens join role_text
event_tokens e =
    estimate_tokens e.content
    + estimate_tokens (role_text e.role)
    + 8
    + estimate_tokens (join (text ",") e.tags)

unfoldable pub estimate_events_tokens : List MemoryEvent → ℕ
unfolding event_tokens
estimate_events_tokens [] = 0
estimate_events_tokens (e ∷ es) = event_tokens e + estimate_events_tokens es

-- `Math.min(100, (tokens / contextLimit) * 100)`, as a quotient.
unfoldable pub fullness_pct : ℕ → ℕ → Ratio
fullness_pct tokens context_limit =
    if leb context_limit 0
    then record { part = 0; whole = 1 }
    else if leb context_limit tokens
    then record { part = 100; whole = 1 }
    else record { part = tokens * 100; whole = context_limit }

-- `Math.round(x * 100) / 100`, counted in hundredths.
unfoldable pub round2 : Ratio → ℕ
round2 x = (x.part * 200 + x.whole) / (2 * x.whole)

pub data SplitRecommendation : Type 0 where
  continue watch split_candidate freeze_recommended danger_zone : SplitRecommendation

-- The thresholds of `SPLIT_THRESHOLDS`, over hundredths of a percent.
abbrev split_thresholds : List (ℕ × SplitRecommendation)
split_thresholds =
    (5500, continue)
    ∷ (6500, watch)
    ∷ (7500, split_candidate)
    ∷ (8500, freeze_recommended)
    ∷ (10100, danger_zone)
    ∷ []

unfoldable pub recommend_from : List (ℕ × SplitRecommendation) → ℕ → SplitRecommendation
recommend_from [] pct = danger_zone
recommend_from ((up_to, r) ∷ ts) pct = if ltb pct up_to then r else recommend_from ts pct

unfoldable pub recommend_for_fullness : ℕ → SplitRecommendation
unfolding recommend_from
recommend_for_fullness = recommend_from split_thresholds
