-- ===== src/RetrievalUnit.antt =====
-- src/core/retrievalUnit.ts: the contiguous spans of a shard's events that are scored by themselves.
-- The loop's variables are one state, and an iteration is a function on it.
pub mod Tiling
pub mod Best
use context_swarm_memory.Prelude.{
  ℕ, zero, suc, ◌+◌, ◌-◌, Bool, true, false, not, ◌||◌, Option, none, some, List, [], ◌∷◌, ◌++◌,
  if◌then◌else◌, leb, length, Text, text, ◌==◌, list_eq, nat_eq_inst,
}
use context_swarm_memory.Selection.{or_else}
use context_swarm_memory.Ids.{decimal, pad_start}

pub record RetrievalUnit : Type 0 where
  pub unit_id : Text
  pub shard_id : Text
  -- Indices into the shard's events: from `start`, up to but without `end`.
  pub start : ℕ
  pub end : ℕ

pub record PartitionOptions : Type 0 where
  pub target_size : Option ℕ
  pub boundary_key : Option (ℕ → Option Text)

abbrev pub same_key : Option Text → Option Text → Bool
same_key none none = true
same_key (some a) (some b) = a == b
same_key _ _ = false

-- `opts.boundaryKey ? opts.boundaryKey(i) : null`
abbrev pub key_at : Option (ℕ → Option Text) → ℕ → Option Text
key_at none i = none
key_at (some key) i = key i

abbrev pub boundary_changed : Option (ℕ → Option Text) → Option Text → Option Text → Bool
boundary_changed none key prev = false
boundary_changed (some f) key prev = not (same_key key prev)

-- `Math.max(1, opts.targetSize ?? DEFAULT_UNIT_SIZE)`
abbrev pub at_least_one : ℕ → ℕ
at_least_one zero = 1
at_least_one (suc n) = suc n

abbrev pub unit_size : PartitionOptions → ℕ
unit_size opts = at_least_one (or_else opts.target_size 6)

unfoldable pub unit_id : Text → ℕ → Text
unit_id shard_id n = shard_id ++ text "#u" ++ pad_start 4 (decimal n)

pub record Cutting : Type 0 where
  pub units : List RetrievalUnit
  pub start : ℕ
  pub prev_key : Option Text

abbrev pub push : Text → ℕ → ℕ → List RetrievalUnit → List RetrievalUnit
push shard_id from to units =
    units
    ++ record {
      unit_id = unit_id shard_id (length units);
      shard_id = shard_id;
      start = from;
      end = to;
    }
      ∷ []

unfoldable pub cut_at : Text → PartitionOptions → ℕ → Cutting → Cutting
cut_at shard_id opts i c =
    let key = key_at opts.boundary_key i in
    if boundary_changed opts.boundary_key key c.prev_key || leb (unit_size opts) (i - c.start)
    then record { units = push shard_id c.start i c.units; start = i; prev_key = key }
    else record c { prev_key = key }

-- The iterations from `i` on, `left` in number.
unfoldable pub cut_all : Text → PartitionOptions → (i left : ℕ) → Cutting → Cutting
cut_all shard_id opts i zero c = c
cut_all shard_id opts i (suc left) c = cut_all shard_id opts (i + 1) left (cut_at shard_id opts i c)

unfoldable pub partition_into_units : Text → ℕ → PartitionOptions → List RetrievalUnit
unfolding cut_all
partition_into_units shard_id zero opts = []
partition_into_units shard_id (suc n) opts =
    let c =
      cut_all shard_id opts 1 n
        (record { units = []; start = 0; prev_key = key_at opts.boundary_key 0 }) in
    push shard_id c.start (suc n) c.units

-- Best-unit pooling; `none` stands for minus infinity.
unfoldable pub best_from : ℕ → List ℕ → ℕ
best_from best [] = best
best_from best (s ∷ ss) = best_from (if leb s best then best else s) ss

unfoldable pub best_unit_score : List ℕ → Option ℕ
unfolding best_from
best_unit_score [] = none
best_unit_score (s ∷ ss) = some (best_from s ss)
