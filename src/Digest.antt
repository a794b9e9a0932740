-- ===== src/Digest.antt =====
-- src/core/digestSelection.ts: the digest of a shard's events within a token budget, and src/core/probe.ts:
-- the index of events that a probe reads.
pub mod Salience
pub mod Packed
pub mod Bounds
pub mod Index
mod Tests
use context_swarm_memory.Prelude.{
  ℕ, zero, suc, ◌+◌, ◌-◌, Bool, true, false, not, ◌&&◌, ◌||◌, Option, none, some, List, [], ◌∷◌,
  ◌++◌, map, if◌then◌else◌, any, filter, length, take, ltb, leb, nat_eq, Text, text, join, ◌==◌,
  list_eq, nat_eq_inst, list_ord, nat_ord,
}
use context_swarm_memory.Ids.{decimal, pad_start}
use context_swarm_memory.Budget.{estimate_tokens}
use context_swarm_memory.Terms.{tokenize, term_set}
use context_swarm_memory.Truncate.{truncate}
use context_swarm_memory.Selection.{
  SelectOptions, nat_score, select, stable, or_else, dedupe_in_order,
}
use context_swarm_memory.Digest.Salience.{salient_within_budget, hits}

pub record DigestEvent : Type 0 where
  pub event_id : Text
  pub role : Text
  pub content : Text
  pub created_at : Option Text
  pub tags : List Text

pub record SelectEventDigestOptions : Type 0 where
  pub max_tokens : ℕ
  pub per_event_chars : Option ℕ
  pub hint : Option (List Text)
  pub reorder_by_salience : Bool
  pub salient_truncation : Bool
  pub query : Option Text

pub record EventDigestSelection : Type 0 where
  pub digest : Text
  pub selected_ids : List Text
  pub used_tokens : ℕ
  pub dropped_count : ℕ

abbrev day_of : Option Text → Text
day_of none = []
day_of (some t) = take 10 t

abbrev spaced : Text → Text
spaced [] = []
spaced (c ∷ s) = text " " ++ c ∷ s

abbrev tag_list : List Text → Text
tag_list [] = []
tag_list (t ∷ ts) = text "  tags=[" ++ join (text ",") (t ∷ ts) ++ text "]"

unfoldable pub render_line : DigestEvent → Text → Text
unfolding join
render_line e body =
    text "- ["
    ++ e.event_id
    ++ text "] ("
    ++ e.role
    ++ spaced (day_of e.created_at)
    ++ text ") "
    ++ body
    ++ tag_list e.tags

abbrev tag_terms : List Text → List Text
tag_terms [] = []
tag_terms (t ∷ ts) = tokenize t ++ tag_terms ts

unfoldable pub salience_score : DigestEvent → List Text → ℕ
unfolding hits tokenize
salience_score e q_terms = hits q_terms (tokenize e.content ++ tag_terms e.tags)

pub record Salient : Type 0 where
  pub event : DigestEvent
  pub i : ℕ
  pub score : ℕ

unfoldable pub score_events : List Text → ℕ → List DigestEvent → List Salient
unfolding salience_score
score_events q_terms i [] = []
score_events q_terms i (e ∷ es) =
    record { event = e; i = i; score = salience_score e q_terms } ∷ score_events q_terms (suc i) es

unfoldable pub salience_options : ℕ → SelectOptions Salient ℕ Text
unfolding decimal pad_start
salience_options limit = record {
  score = λ x. x.score;
  key = λ x. pad_start 8 (decimal x.i);
  limit = limit;
  signal_floor = none;
  tie_break = some stable;
}

unfoldable pub by_salience : List DigestEvent → List Text → List DigestEvent
unfolding score_events select salience_options
by_salience events q_terms =
    map (λ (x : Salient). x.event)
      (select (score_events q_terms 0 events) (salience_options (length events))).selected

abbrev pub is_hinted : List Text → DigestEvent → Bool
is_hinted hint e = any (λ i. i == e.event_id) hint

-- The hinted events in front of the others.
abbrev pub hinted_first : Option (List Text) → List DigestEvent → List DigestEvent
hinted_first none events = events
hinted_first (some []) events = events
hinted_first (some (h ∷ hint)) events =
    filter (is_hinted (h ∷ hint)) events ++ filter (λ e. not (is_hinted (h ∷ hint) e)) events

unfoldable pub order_candidates :
    List DigestEvent → SelectEventDigestOptions → List Text → List DigestEvent
unfolding by_salience
order_candidates events opts q_terms =
    hinted_first opts.hint (if opts.reorder_by_salience then by_salience events q_terms else events)

unfoldable pub body_of : SelectEventDigestOptions → List Text → DigestEvent → Text
unfolding salient_within_budget truncate
body_of opts q_terms e =
    let chars = or_else opts.per_event_chars 480 in
    if opts.salient_truncation
    then salient_within_budget e.content chars q_terms
    else truncate e.content chars

abbrev pub line_of : SelectEventDigestOptions → List Text → DigestEvent → Text
line_of opts q_terms e = render_line e (body_of opts q_terms e)

abbrev pub line_tokens : SelectEventDigestOptions → List Text → DigestEvent → ℕ
line_tokens opts q_terms e = estimate_tokens (line_of opts q_terms e)

unfoldable pub marker : ℕ → Text
unfolding decimal
marker dropped = text "- (… " ++ decimal dropped ++ text " more events truncated to fit budget)"

-- `lines.join("\n") || "(no events)"`
unfoldable pub shown : List Text → Text
unfolding join
shown lines = or_no_events (join (text "\n") lines)
  where
    or_no_events : Text → Text
    or_no_events [] = text "(no events)"
    or_no_events (c ∷ s) = c ∷ s

abbrev done : List Text → List Text → ℕ → ℕ → EventDigestSelection
done lines ids used dropped = record {
  digest = shown lines;
  selected_ids = ids;
  used_tokens = used;
  dropped_count = dropped;
}

module _ (opts : SelectEventDigestOptions) (q_terms : List Text) (total : ℕ) where
  -- The loop of `selectEventDigest`, with `lines`, `selectedIds` and `usedTokens`.
  unfoldable pub digest_from : List Text → List Text → ℕ → List DigestEvent → EventDigestSelection
  digest_from lines ids used [] = done lines ids used 0
  digest_from lines ids used (e ∷ es) =
      let line = line_of opts q_terms e in
      let tokens = line_tokens opts q_terms e in
      let more = digest_from (lines ++ line ∷ []) (ids ++ e.event_id ∷ []) (used + tokens) es in
      let left = total - length lines in
      if ltb opts.max_tokens (used + tokens)
      then done (lines ++ marker left ∷ []) ids used left
      else more

module _ (events : List DigestEvent) (opts : SelectEventDigestOptions) where
  abbrev pub digest_of_terms : List Text → EventDigestSelection
  digest_of_terms q_terms =
      let candidates = order_candidates events opts q_terms in
      digest_from opts q_terms (length candidates) [] [] 0 candidates

  -- `none` is the error of a salience lever without a query.
  unfoldable pub digest_with : Option Text → Option EventDigestSelection
  digest_with none = none
  digest_with (some query) = some (digest_of_terms (term_set query))

  unfoldable pub select_event_digest : Option EventDigestSelection
  unfolding digest_with
  select_event_digest =
      if opts.reorder_by_salience || opts.salient_truncation
      then digest_with opts.query
      else some (digest_of_terms [])
