-- ===== src/Router/Chosen.antt =====
-- Which entries are candidates of a query.
use context_swarm_memory.Prelude.{
  ℕ, ◌≡◌, true, false, Option, map, Memᴰ, Memᴰ-map, All, All_mono, Text, list_ord, nat_ord, ltb,
  ◌||◌,
}
use context_swarm_memory.Memory.{MemoryDirectory, MemoryDirectoryEntry}
use context_swarm_memory.Selection.{nat_score, or_else}
use context_swarm_memory.Selection.Ranking.{IsCut, select-best}
use context_swarm_memory.Selection.Members.{All-select, filter-All-Memᴰ}
use context_swarm_memory.Router.{
  zero_score, LexicalCandidate, listed_active, is_eligible, scored, eligible, route_options,
  select_candidates_detailed,
}

module _ (date_parse : Text → Option ℕ) (ref : ℕ) (query : Text) (directory : MemoryDirectory) where
  -- A candidate is an entry of the directory under its score, and it is active or its score is
  -- above 0.
  abbrev pub IsCandidate : LexicalCandidate → Type 0
  IsCandidate c =
      (entry : MemoryDirectoryEntry) × Memᴰ entry directory.entries
      × (c ≡ scored date_parse ref query entry)
      × ((ltb zero_score c.score || listed_active c.entry) ≡ true)

  eligible-IsCandidate : All IsCandidate (eligible date_parse ref query directory)
  unfolding eligible
  eligible-IsCandidate =
      All_mono _ IsCandidate _
        (λ c h.
          let (entry, m, e) = Memᴰ-map (scored date_parse ref query) directory.entries h.0 in
          (entry, m, e, h.1))
        (filter-All-Memᴰ is_eligible (map (scored date_parse ref query) directory.entries))

  -- The candidates of a query are active entries of the directory or entries with a score above 0,
  -- each under its own score; there are as many of them as the limit, which is 8 if none is given,
  -- and the eligible entries allow; and no eligible entry that is left out scores higher than one
  -- that is chosen.
  pub select_candidates_detailed_lem :
      (max_candidates : Option ℕ)
      → let r = select_candidates_detailed date_parse ref query directory max_candidates in
        All IsCandidate r.selected
        × IsCut
            (route_options (or_else max_candidates 8))
            (eligible date_parse ref query directory)
            r
            (λ a b. ltb a.score b.score ≡ false)
  unfolding select_candidates_detailed route_options
  select_candidates_detailed_lem max_candidates =
      let items = eligible date_parse ref query directory in
      let opts = route_options (or_else max_candidates 8) in
      (All-select IsCandidate items opts eligible-IsCandidate, select-best items opts)
