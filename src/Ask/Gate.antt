-- ===== src/Ask/Gate.antt =====
-- How many candidates are probed, and which of them pass the local gate.
use context_swarm_memory.Prelude.{
  ℕ, zero, suc, ◌+◌, ◌-◌, min, max, Bool, false, ◌&&◌, ◌||◌, Option, none, some, List, [], ◌∷◌, map,
  if◌then◌else◌, any, drop, filter, leb, length, ltb, nat_eq, Text, list_ord, nat_ord, take,
}
use context_swarm_memory.Ids.{decimal, pad_start}
use context_swarm_memory.Memory.{CandidateScore, MemoryShardSnapshot}
use context_swarm_memory.Selection.{Score, SelectOptions, select, or_else, stable}
use context_swarm_memory.Ask.{
  RouterCut, AskSettings, AskOutside, ShardDigest, View, shard_of, ◌>>=◌, run_jobs,
}

-- `candidates[0]?.score ?? 0`
abbrev top_score : List CandidateScore → ℕ
top_score [] = 0
top_score (c ∷ cs) = c.score

-- `routeConfidence(candidates).recommendedProbeCount`
unfoldable pub recommended_probe_count : List CandidateScore → ℕ
recommended_probe_count candidates =
    let close =
      filter (λ (c : CandidateScore). leb (top_score candidates) (c.score + 350000)) candidates in
    max (min 4 (length candidates)) (length close)

unfoldable pub probe_budget : AskSettings → RouterCut → ℕ
unfolding recommended_probe_count
probe_budget opts cut =
    if opts.probe_shrink && opts.router_index && or_else cut.last_hybrid false
    then min opts.max_probe_shards (recommended_probe_count cut.candidates)
    else opts.max_probe_shards

-- `from, from + 1, …`, as many as asked.
unfoldable pub indices : ℕ → ℕ → List ℕ
indices from zero = []
indices from (suc n) = from ∷ indices (suc from) n

module _ {A : Type 0} where
  -- The elements at the indices that pass, the first one having the index `ix`.
  unfoldable pub keep_at : (ℕ → Bool) → ℕ → List A → List A
  keep_at p ix [] = []
  keep_at p ix (x ∷ xs) = let rest = keep_at p (suc ix) xs in if p ix then x ∷ rest else rest

  -- `xs[ix]`
  abbrev pub at : List A → ℕ → Option A
  at [] n = none
  at (x ∷ xs) zero = some x
  at (x ∷ xs) (suc n) = at xs n

module _ {S : Type 0} ⦃sc : Score S⦄ where
  unfoldable pub gate_options : ℕ → List S → SelectOptions ℕ S Text
  gate_options keep scores = record {
    score = λ ix. or_else (at scores ix) sc.nought;
    key = λ ix. pad_start 6 (decimal ix);
    limit = keep - 1;
    signal_floor = none;
    tie_break = some stable;
  }

  -- The candidates that are kept, in the order of the router: the first, and the best of the others.
  unfoldable pub gated : ℕ → List S → List View → List View
  unfolding gate_options indices keep_at
  gated keep scores views =
      let chosen =
        (select (drop 1 (indices 0 (length views))) (gate_options keep scores)).selected in
      keep_at (λ ix. nat_eq ix 0 || any (nat_eq ix) chosen) 0 views

  abbrev index_of : AskOutside S → Option MemoryShardSnapshot → Text
  index_of outside none = []
  index_of outside (some s) = outside.compact_index s

  abbrev digest_of : AskOutside S → View → ShardDigest
  digest_of outside v = record { shard_id = shard_of v; digest = index_of outside v.snapshot }

  -- The views that a given gate lets pass.
  unfoldable pub pass_with :
      ℕ
      → AskOutside S
      → Option (List ShardDigest → Option (List S))
      → List View
      → Option (List View)
  unfolding gated
  pass_with keep outside none views = some views
  pass_with keep outside (some gate) views = do
    scores ← gate (map (digest_of outside) views)
    some (gated keep scores views)

  unfoldable pub pass_gate : AskSettings → AskOutside S → List View → Option (List View)
  unfolding pass_with
  pass_gate opts outside views =
      if ltb 0 opts.local_keep && ltb opts.local_keep (length views)
      then pass_with opts.local_keep outside outside.local_probe_gate views
      else some views

  abbrev pub load_view : AskOutside S → CandidateScore → Option View
  load_view outside c = do
    snapshot ← outside.load_snapshot c.entry.id c.entry.snapshot_id
    some (record { candidate = c; snapshot = snapshot })

  -- The candidates that are probed.
  unfoldable pub probed_views : AskSettings → AskOutside S → RouterCut → Option (List View)
  unfolding probe_budget pass_gate
  probed_views opts outside cut = do
    views ← run_jobs (load_view outside) (take (probe_budget opts cut) cut.candidates)
    pass_gate opts outside views
