-- ===== src/Router/Tests.antt =====
-- Routing between an active shard and an archived one.
use context_swarm_memory.Prelude.{
  filter, ◌*◌, ◌++◌, ℕ, ◌+◌, ◌≡◌, refl, false, Option, none, some, [], ◌∷◌, map, Text, text, ltb,
  list_beq, list_lt, All, list_ord, nat_ord,
}
use context_swarm_memory.Memory.{
  MemoryDirectoryEntry, MemoryDirectory, ShardStatus, TrustLevel, Staleness,
}
use context_swarm_memory.Selection.{nat_score}
use context_swarm_memory.Selection.Ranking.{IsCut}
use context_swarm_memory.Router.{
  one, gains, losses, LexicalCandidate, eligible, route_options, score_entry_lexical,
  select_candidates, select_candidates_detailed,
}
use context_swarm_memory.Router.Reasons.{ninety_days, credit, debit, sum_of, is_said}
use context_swarm_memory.Router.Exact.{merits, faults, score_entry_lexical_lem}
use context_swarm_memory.Router.Chosen.{IsCandidate, select_candidates_detailed_lem}

abbrev entry : Text → ShardStatus → MemoryDirectoryEntry
entry id status = record {
  id = id;
  name = text "Auth decisions";
  description = text "login";
  tags = text "auth" ∷ [];
  created_at = [];
  updated_at = text "now";
  time_range = none;
  status = status;
  snapshot_id = text "S001";
  token_count_estimate = 0;
  context_limit_estimate = 1000;
  fullness_pct = 9000;
  summary_short = [];
  known_conflicts = [];
  parent_id = none;
  children = [];
  trust_level = TrustLevel.user_memory;
  staleness = Staleness.stale;
}

abbrev directory : MemoryDirectory
directory = record {
  version = 1;
  entries = entry (text "old") ShardStatus.archived ∷ entry (text "auth") ShardStatus.active ∷ [];
}

-- Every date is the instant 0.
abbrev date_parse : Text → Option ℕ
date_parse s = some 0

-- Of an instant ninety days later, the archived shard scores 2 + 1.5 - 1 - 1 - 5.
chosen :
    map
      (λ (c : LexicalCandidate). c.entry.id)
      (select_candidates date_parse one (text "authentication?") directory none)
    ≡ text "auth" ∷ []
unfolding select_candidates list_beq list_lt gains losses
chosen = refl

score_entry_lexical_lem_example :
    let e = entry (text "old") ShardStatus.archived in
    let r = score_entry_lexical date_parse (text "auth" ∷ []) e one in
    (r.reasons
      ≡ filter is_said (
          merits date_parse (text "auth" ∷ []) e one ++ faults date_parse (text "auth" ∷ []) e one))
    × (r.amount + sum_of debit r.reasons ≡ 7 * ninety_days + sum_of credit r.reasons)
score_entry_lexical_lem_example =
    score_entry_lexical_lem date_parse (text "auth" ∷ []) (entry (text "old") ShardStatus.archived)
      one

select_candidates_detailed_lem_example :
    let r = select_candidates_detailed date_parse one (text "authentication?") directory none in
    All (IsCandidate date_parse one (text "authentication?") directory) r.selected
    × IsCut
        (route_options 8)
        (eligible date_parse one (text "authentication?") directory)
        r
        (λ a b. ltb a.score b.score ≡ false)
select_candidates_detailed_lem_example =
    select_candidates_detailed_lem date_parse one (text "authentication?") directory none
