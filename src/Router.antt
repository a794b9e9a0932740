-- ===== src/Router.antt =====
-- src/core/router.ts: the score of a directory entry for a query, and the candidates of a query.
-- A score is counted in units of which `one` make 1.0: the milliseconds of ninety days, so that the
-- recency of an entry is exact. Scores can be negative, down to -7.0; a score is kept with 7.0 added.
pub mod Reasons
pub mod Exact
pub mod Chosen
mod Tests
use context_swarm_memory.Prelude.{
  ℕ, ◌+◌, ◌-◌, ◌*◌, Bool, true, false, not, ◌&&◌, ◌||◌, Option, none, some, List, [], ◌∷◌, ◌++◌,
  map, if◌then◌else◌, filter, ltb, leb, Text, to_lower, list_ord, nat_ord, list_eq, nat_eq_inst,
}
use context_swarm_memory.Memory.{
  MemoryDirectoryEntry, MemoryDirectory, ShardStatus, Staleness, active, frozen, archived, deleted,
  current, possibly_stale, stale,
}
use context_swarm_memory.Terms.{tokenize, term_matches_any_tag, term_set}
use context_swarm_memory.Selection.{
  SelectOptions, SelectionResult, nat_score, select, dedupe_in_order, or_else,
}

abbrev pub one : ℕ
one = 7776000000

-- 7.0, the sum of all penalties.
abbrev pub zero_score : ℕ
zero_score = 7 * one

-- A reason, with the number that its text shows.
pub data RouteReason : Type 0 where
  tag_overlap desc_match name_match summary_match recency_boost : ℕ → RouteReason
  staleness_penalty : Staleness → RouteReason
  fullness_penalty : (fullness_pct : ℕ) → RouteReason
  status_penalty : ShardStatus → RouteReason

-- A part of the score: what it adds or takes away, and why.
pub record Part : Type 0 where
  pub amount : ℕ
  pub reasons : List RouteReason

abbrev pub no_part : Part
no_part = record { amount = 0; reasons = [] }

-- How many of the query's terms match one of the given terms.
unfoldable pub count_matches : List Text → List Text → ℕ
unfolding term_matches_any_tag
count_matches [] terms = 0
count_matches (q ∷ qs) terms =
    (if term_matches_any_tag q terms then 1 else 0) + count_matches qs terms

abbrev match_part : (ℕ → RouteReason) → ℕ → ℕ → Part
match_part why weight n =
    if ltb 0 n then record { amount = n * weight; reasons = why n ∷ [] } else no_part

-- `max(0, 1 - days / 90)`, for the milliseconds of the two instants.
unfoldable pub recency : Option ℕ → ℕ → ℕ
recency none ref = 0
recency (some updated) ref = (one + updated) - ref

abbrev recency_part : ℕ → Part
recency_part r = if ltb 0 r then record { amount = r; reasons = recency_boost r ∷ [] } else no_part

unfoldable pub staleness_part : Staleness → Part
staleness_part current = no_part
staleness_part possibly_stale = record {
  amount = 3888000000;
  reasons = staleness_penalty possibly_stale ∷ [];
}
staleness_part stale = record { amount = one; reasons = staleness_penalty stale ∷ [] }

unfoldable pub fullness_part : ℕ → Part
fullness_part pct =
    if leb 8500 pct
    then record { amount = one; reasons = fullness_penalty pct ∷ [] }
    else if leb 7500 pct
    then record { amount = 3888000000; reasons = fullness_penalty pct ∷ [] }
    else no_part

unfoldable pub status_part : ShardStatus → Part
status_part active = no_part
status_part frozen = record { amount = 1944000000; reasons = status_penalty frozen ∷ [] }
status_part archived = record { amount = 5 * one; reasons = status_penalty archived ∷ [] }
status_part deleted = record { amount = 5 * one; reasons = status_penalty deleted ∷ [] }

abbrev pub total : List Part → ℕ
total [] = 0
total (p ∷ ps) = p.amount + total ps

abbrev pub all_reasons : List Part → List RouteReason
all_reasons [] = []
all_reasons (p ∷ ps) = p.reasons ++ all_reasons ps

-- What speaks for an entry, and what against it. `date_parse` is `Date.parse`, in milliseconds.
module _ (date_parse : Text → Option ℕ) (query_terms : List Text) (entry : MemoryDirectoryEntry)
    (ref : ℕ) where
  unfoldable pub gains : List Part
  unfolding count_matches recency
  gains =
      match_part tag_overlap (2 * one) (count_matches query_terms (map to_lower entry.tags))
      ∷ match_part desc_match one (count_matches query_terms (term_set entry.description))
      ∷ match_part name_match 11664000000 (count_matches query_terms (term_set entry.name))
      ∷ match_part summary_match 5832000000
          (count_matches query_terms (term_set entry.summary_short))
      ∷ recency_part (recency (date_parse entry.updated_at) ref)
      ∷ []

  unfoldable pub losses : List Part
  unfolding staleness_part fullness_part status_part
  losses =
      staleness_part entry.staleness
      ∷ fullness_part entry.fullness_pct
      ∷ status_part entry.status
      ∷ []

  unfoldable pub score_entry_lexical : Part
  score_entry_lexical = record {
    amount = (zero_score + total gains) - total losses;
    reasons = all_reasons gains ++ all_reasons losses;
  }

-- A scored entry.
pub record LexicalCandidate : Type 0 where
  pub entry : MemoryDirectoryEntry
  pub score : ℕ
  pub reasons : List RouteReason

abbrev pub listed_active : MemoryDirectoryEntry → Bool
listed_active e = tested e.status
  where
    tested : ShardStatus → Bool
    tested active = true
    tested _ = false

abbrev pub is_eligible : LexicalCandidate → Bool
is_eligible c = ltb zero_score c.score || listed_active c.entry

module _ (date_parse : Text → Option ℕ) (ref : ℕ) (query : Text) where
  unfoldable pub scored : MemoryDirectoryEntry → LexicalCandidate
  unfolding score_entry_lexical tokenize dedupe_in_order
  scored entry =
      let r = score_entry_lexical date_parse (term_set query) entry ref in
      record { entry = entry; score = r.amount; reasons = r.reasons }

  unfoldable pub eligible : MemoryDirectory → List LexicalCandidate
  unfolding scored
  eligible directory = filter is_eligible (map scored directory.entries)

unfoldable pub route_options : ℕ → SelectOptions LexicalCandidate ℕ Text
route_options max_candidates = record {
  score = λ c. c.score;
  key = λ c. c.entry.id;
  limit = max_candidates;
  signal_floor = some zero_score;
  tie_break = none;
}

unfoldable pub select_candidates_detailed :
    (Text → Option ℕ) → ℕ → Text → MemoryDirectory → Option ℕ → SelectionResult LexicalCandidate
unfolding eligible select route_options
select_candidates_detailed date_parse ref query directory max_candidates =
    select (eligible date_parse ref query directory) (route_options (or_else max_candidates 8))

unfoldable pub select_candidates :
    (Text → Option ℕ) → ℕ → Text → MemoryDirectory → Option ℕ → List LexicalCandidate
unfolding select_candidates_detailed
select_candidates date_parse ref query directory max_candidates =
    (select_candidates_detailed date_parse ref query directory max_candidates).selected
