-- ===== src/Ids.antt =====
-- src/utils/ids.ts: the numbered names of events and snapshots, and the names made of a title. Random
-- parts are arguments.
-- A number is printed in decimal; JavaScript does so below 10^21, and reads back exactly up to 2^53.
pub mod RoundTrip
pub mod Slug
use context_swarm_memory.Prelude.{
  ℕ, zero, suc, ◌+◌, ◌-◌, ◌*◌, ◌/◌, ◌%◌, Bool, true, false, ◌&&◌, Option, none, some, List, [], ◌∷◌,
  ◌++◌, ltb, leb, nat_eq, if◌then◌else◌, length, all, Text, text, replicate, not, ◌||◌, take,
  to_lower,
}
use mathlib.Core.List.{reverse}

-- `n.toString()`, on fuel above `n`.
unfoldable pub decimal_from : ℕ → ℕ → Text
decimal_from zero n = []
decimal_from (suc fuel) n =
    let front = decimal_from fuel (n / 10) in
    if ltb n 10 then (48 + n) ∷ [] else front ++ (48 + n % 10) ∷ []

unfoldable pub decimal : ℕ → Text
unfolding decimal_from
decimal n = decimal_from (suc n) n

-- `s.padStart(width, "0")`
unfoldable pub pad_start : ℕ → Text → Text
pad_start width s = replicate (width - length s) b'0' ++ s

unfoldable pub is_digit : ℕ → Bool
is_digit c = leb b'0' c && leb c b'9'

-- `parseInt` of a text of digits.
unfoldable pub parse_digits : ℕ → Text → ℕ
parse_digits acc [] = acc
parse_digits acc (c ∷ s) = parse_digits (acc * 10 + (c - 48)) s

unfoldable pub new_event_id : ℕ → Text
unfolding decimal pad_start
new_event_id seq = text "e_" ++ pad_start 4 (decimal seq)

unfoldable pub new_snapshot_id : ℕ → Text
unfolding decimal pad_start
new_snapshot_id seq = b'S' ∷ pad_start 3 (decimal seq)

-- The group of `/^S(\d+)$/`, as a number.
unfoldable pub snapshot_number : Text → Option ℕ
unfolding is_digit parse_digits
snapshot_number [] = none
snapshot_number (c ∷ []) = none
snapshot_number (c ∷ d ∷ s) =
    if nat_eq c b'S' && all is_digit (d ∷ s) then some (parse_digits 0 (d ∷ s)) else none

abbrev successor : Option ℕ → ℕ
successor none = 1
successor (some n) = n + 1

unfoldable pub next_snapshot_id : Text → Text
unfolding new_snapshot_id snapshot_number
next_snapshot_id current = new_snapshot_id (successor (snapshot_number current))

-- `[a-z0-9]`
abbrev pub is_slug_unit : ℕ → Bool
is_slug_unit c = leb b'a' c && leb c b'z' || leb b'0' c && leb c b'9'

-- `replace(/[^a-z0-9]+/g, "-")`; `in_run` says that the run's dash stands already.
unfoldable pub dash_runs : Bool → Text → Text
dash_runs in_run [] = []
dash_runs in_run (c ∷ s) =
    let kept = is_slug_unit c in
    let rest = dash_runs (not kept) s in
    if kept then c ∷ rest else if in_run then rest else b'-' ∷ rest

unfoldable pub drop_dashes : Text → Text
drop_dashes [] = []
drop_dashes (c ∷ s) = let rest = drop_dashes s in if nat_eq c b'-' then rest else c ∷ s

-- `replace(/^-+|-+$/g, "")`
unfoldable pub strip_dashes : Text → Text
unfolding drop_dashes
strip_dashes s = reverse (drop_dashes (reverse (drop_dashes s)))

unfoldable pub slugify : Text → Text
unfolding dash_runs strip_dashes to_lower
slugify input = take 60 (strip_dashes (dash_runs false (to_lower input)))

-- `slug || "shard"`
abbrev pub or_shard : Text → Text
or_shard [] = text "shard"
or_shard (c ∷ s) = c ∷ s

-- `newShardId`, with the random part as an argument.
unfoldable pub new_shard_id : Text → Text → Text
unfolding slugify
new_shard_id name random = or_shard (slugify name) ++ text "-" ++ random
