-- ===== src/Truncate.antt =====
-- src/utils/text.ts: the character cap.
use context_swarm_memory.Prelude.{
  ℕ, zero, suc, ◌-◌, ◌≤◌, ◌≡◌, ◌++◌, arith, leb, if◌then◌else◌, length, take, Text, text,
  length-append, length-take,
}

-- `s.slice(0, n - 1)`; a negative end counts from the end of the text.
abbrev slice_before : Text → ℕ → Text
slice_before s zero = take (length s - 1) s
slice_before s (suc n) = take n s

unfoldable pub truncate : Text → ℕ → Text
truncate s n = if leb (length s) n then s else slice_before s n ++ text "…"

-- With a cap of at least one, the result is no longer than the cap, a text within the cap is left as
-- it is, and any other keeps its first `n - 1` units and ends in the ellipsis.
pub truncate_lem :
    (s : Text) (n : ℕ)
    → 1 ≤ n
    → (length (truncate s n) ≤ n)
      × (truncate s n ≡ (if leb (length s) n then s else take (n - 1) s ++ text "…"))
unfolding truncate
truncate_lem s zero h = absurd (omega arith)
truncate_lem s (suc n) h = ground (arith, length-append (take n s) (text "…"), length-take n s)
