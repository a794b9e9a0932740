-- ===== src/Digest/Index.antt =====
-- src/core/probe.ts: the index of a shard's events that a probe reads.
use context_swarm_memory.Prelude.{
  ℕ, ◌+◌, ◌-◌, Bool, true, false, ◌&&◌, Option, none, some, List, [], ◌∷◌, ◌++◌, if◌then◌else◌, all,
  any, length, take, ltb, Text, text, join, to_lower, is_space, ◌==◌, list_eq, nat_eq_inst,
  list_ord, list_lt, nat_ord,
}
use context_swarm_memory.Prelude.Sort.{sort_by}
use context_swarm_memory.Ids.{decimal}
use context_swarm_memory.Memory.{MemoryEvent, MemoryShardSnapshot}
use context_swarm_memory.Terms.{tokenize, starts_with, term_matches_any_tag, term_set}
use context_swarm_memory.Selection.{SelectOptions, nat_score, select, dedupe_in_order}
use context_swarm_memory.Digest.{shown}

-- `body.body_includes(term)`
unfoldable pub body_includes : Text → Text → Bool
unfolding starts_with
body_includes [] term = starts_with [] term
body_includes (c ∷ s) term = if starts_with (c ∷ s) term then true else body_includes s term

abbrev pub tag_score : List Text → Text → ℕ
tag_score terms tag =
    let low = to_lower tag in
    if any (λ t. t == low) terms then 2 else if term_matches_any_tag low terms then 2 else 0

abbrev pub tag_scores : List Text → List Text → ℕ
tag_scores terms [] = 0
tag_scores terms (t ∷ ts) = tag_score terms t + tag_scores terms ts

abbrev pub mentions : Text → List Text → ℕ
mentions body [] = 0
mentions body (t ∷ ts) = (if body_includes body t then 1 else 0) + mentions body ts

-- `full_scan` is what `resolveProbeFullScan` reads.
unfoldable pub relevance_score : Bool → List Text → MemoryEvent → ℕ
unfolding body_includes to_lower term_matches_any_tag
relevance_score full_scan terms e =
    let body = to_lower (if full_scan then e.content else take 200 e.content) in
    tag_scores terms e.tags + mentions body terms

abbrev pub tag_line : List Text → Text
tag_line tags = join (text ",") (sort_by list_lt tags)

unfoldable pub uniform_tags : MemoryShardSnapshot → Bool
unfolding sort_by list_lt join
uniform_tags snapshot = among snapshot.events
  where
    among : List MemoryEvent → Bool
    among [] = false
    among (e ∷ []) = false
    among (e ∷ f ∷ es) = all (λ (g : MemoryEvent). tag_line g.tags == tag_line e.tags) (e ∷ f ∷ es)

-- `content.replace(/\s+/g, " ")`; `inside` tells whether white space has just been read.
unfoldable pub squeeze : Bool → Text → Text
squeeze inside [] = []
squeeze inside (c ∷ s) =
    let in_space = squeeze true s in
    let in_word = squeeze false s in
    if is_space c then if inside then in_space else b' ' ∷ in_space else c ∷ in_word

abbrev pub shown_tags : Bool → List Text → Text
shown_tags uniform [] = []
shown_tags uniform (t ∷ ts) =
    if uniform then [] else text " tags=[" ++ join (text ",") (t ∷ ts) ++ text "]"

unfoldable pub index_line : Bool → MemoryEvent → Text
unfolding squeeze join is_space
index_line uniform e =
    text "- ["
    ++ e.event_id
    ++ text "]"
    ++ shown_tags uniform e.tags
    ++ text " \""
    ++ take 80 (squeeze false e.content)
    ++ (if ltb 80 (length e.content) then text "…" else [])
    ++ text "\""

unfoldable pub index_options : Bool → List Text → ℕ → SelectOptions MemoryEvent ℕ Text
unfolding relevance_score
index_options full_scan terms limit = record {
  score = relevance_score full_scan terms;
  key = λ e. e.event_id;
  limit = limit;
  signal_floor = none;
  tie_break = none;
}

abbrev pub is_query : Option Text → Bool
is_query none = false
is_query (some []) = false
is_query (some (c ∷ s)) = true

abbrev pub query_terms : Option Text → List Text
query_terms none = []
query_terms (some q) = term_set q

-- The events in the order of the index.
unfoldable pub index_events : Bool → Option Text → MemoryShardSnapshot → List MemoryEvent
unfolding index_options select tokenize dedupe_in_order
index_events full_scan query snapshot =
    let n = length snapshot.events in
    if is_query query && ltb 0 n
    then (select snapshot.events (index_options full_scan (query_terms query) n)).selected
    else snapshot.events

module _ (char_budget : ℕ) (uniform : Bool) (total : ℕ) where
  -- The loop of `compactEventIndex`, with `lines` and `used`.
  unfoldable pub index_lines : List Text → ℕ → List MemoryEvent → List Text
  unfolding index_line decimal
  index_lines lines used [] = lines
  index_lines lines used (e ∷ es) =
      let line = index_line uniform e in
      let more = index_lines (lines ++ line ∷ []) (used + length line) es in
      if ltb char_budget (used + length line)
      then lines
        ++ (text "- (… " ++ decimal (total - length lines) ++ text " more events truncated)") ∷ []
      else more

unfoldable pub compact_event_index : Bool → MemoryShardSnapshot → ℕ → Option Text → Text
unfolding index_events index_lines uniform_tags shown
compact_event_index full_scan snapshot char_budget query =
    let events = index_events full_scan query snapshot in
    shown (index_lines char_budget (uniform_tags snapshot) (length events) [] 0 events)
