-- ===== src/Json.antt =====
-- src/utils/json.ts: reading a JSON value out of a model's answer. `JSON.parse` is a parameter; `none`
-- is the error that it throws.
pub mod Span
mod Tests
use context_swarm_memory.Prelude.{
  ℕ, zero, suc, ◌+◌, ◌-◌, Bool, true, false, ◌||◌, Option, none, some, List, [], ◌∷◌, ◌++◌,
  if◌then◌else◌, take, drop, length, nat_eq, is_space, Text, text, trim, to_lower,
}
use context_swarm_memory.Terms.{starts_with}

pub data Bracket : Type 0 where
  brace square : Bracket

abbrev pub open_of : Bracket → ℕ
open_of brace = b'{'
open_of square = b'['

abbrev pub close_of : Bracket → ℕ
close_of brace = b'}'
close_of square = b']'

abbrev pub bracket_at : ℕ → Option Bracket
bracket_at c = if nat_eq c b'{' then some brace else if nat_eq c b'[' then some square else none

module _ (b : Bracket) where
  -- The loop of `matchBalanced`, from the index `i`, with `depth`, `inStr` and `escape`.
  unfoldable pub match_from : (depth : ℕ) (in_str escape : Bool) (i : ℕ) → Text → Option ℕ
  match_from depth in_str escape i [] = none
  match_from depth true true i (c ∷ s) = match_from depth true false (suc i) s
  match_from depth true false i (c ∷ s) =
      let escaped = match_from depth true true (suc i) s in
      let ended = match_from depth false false (suc i) s in
      let inside = match_from depth true false (suc i) s in
      if nat_eq c b'\\' then escaped else if nat_eq c b'"' then ended else inside
  match_from depth false escape i (c ∷ s) =
      let quoted = match_from depth true escape (suc i) s in
      let deeper = match_from (suc depth) false escape (suc i) s in
      let higher = match_from (depth - 1) false escape (suc i) s in
      let on = match_from depth false escape (suc i) s in
      if nat_eq c b'"'
      then quoted
      else if nat_eq c (open_of b)
      then deeper
      else if nat_eq c (close_of b)
      then if nat_eq (depth - 1) 0 then some i else higher
      else on

  unfoldable pub match_balanced : Text → Option ℕ
  unfolding match_from
  match_balanced s = match_from 0 false false 0 s

-- `src.slice(i, end + 1)`, for an end that stands behind `i`.
abbrev pub sliced : Text → Option ℕ → Option Text
sliced s none = none
sliced s (some zero) = none
sliced s (some (suc n)) = some (take (suc (suc n)) s)

abbrev pub span_at : Text → Option Bracket → Option Text
span_at s none = none
span_at s (some b) = sliced s (match_balanced b s)

abbrev pub first_of : {A : Type 0} → Option A → Option A → Option A
first_of (some a) o = some a
first_of none o = o

unfoldable pub find_first_json_span : Text → Option Text
unfolding match_balanced
find_first_json_span [] = none
find_first_json_span (c ∷ s) = first_of (span_at (c ∷ s) (bracket_at c)) (find_first_json_span s)

-- The text behind the first fence, and the text in front of it.
unfoldable pub behind_fence : Text → Option Text
unfolding starts_with
behind_fence [] = none
behind_fence (c ∷ s) = if starts_with (c ∷ s) (text "```") then some (drop 2 s) else behind_fence s

unfoldable pub until_fence : Text → Option Text
unfolding starts_with
until_fence [] = none
until_fence (c ∷ s) = if starts_with (c ∷ s) (text "```") then some [] else prefixed (until_fence s)
  where
    prefixed : Option Text → Option Text
    prefixed none = none
    prefixed (some t) = some (c ∷ t)

abbrev without_tag : Text → Text
without_tag s = if starts_with (to_lower s) (text "json") then drop 4 s else s

abbrev fence_body : Option Text → Option Text
fence_body none = none
fence_body (some s) = until_fence (without_tag s)

-- The group of the pattern of fences.
unfoldable pub fenced : Text → Option Text
unfolding behind_fence until_fence to_lower
fenced s = fence_body (behind_fence s)

module _ {J : Type 0} (parse : Text → Option J) where
  abbrev pub parsed_fence : Option Text → Option J
  parsed_fence none = none
  parsed_fence (some body) = parse (trim body)

  abbrev pub parsed_span : Option Text → Option J
  parsed_span none = none
  parsed_span (some span) = parse span

  unfoldable pub extract_json : Text → Option J
  unfolding fenced find_first_json_span trim
  extract_json raw =
      let t = trim raw in
      first_of (parse t) (first_of (parsed_fence (fenced t)) (parsed_span (find_first_json_span t)))
