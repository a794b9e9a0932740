-- ===== src/Ask/Targets.antt =====
-- Which probes lead to a recall: the best that qualify, and the router's first candidate.
use context_swarm_memory.Prelude.{
  ℕ, Bool, Option, none, some, List, [], ◌∷◌, if◌then◌else◌, any, filter, find, take, Text, ◌==◌,
  list_eq, nat_eq_inst, list_ord, nat_ord,
}
use context_swarm_memory.Memory.{CandidateScore}
use context_swarm_memory.Selection.{SelectOptions, SelectionResult, nat_score, select, stable}
use context_swarm_memory.Probe.{ProbeResult, probe_qualifies_for_recall, score_probe}
use context_swarm_memory.Ask.{AskSettings}

unfoldable pub recall_options : AskSettings → SelectOptions ProbeResult ℕ Text
recall_options opts = record {
  score = score_probe;
  key = λ p. p.shard_id;
  limit = opts.max_recall_shards;
  signal_floor = none;
  tie_break = some stable;
}

abbrev pub qualifying : AskSettings → List ProbeResult → List ProbeResult
qualifying opts = filter (λ p. probe_qualifies_for_recall p opts.recall_confidence_min)

unfoldable pub recall_selection : AskSettings → List ProbeResult → SelectionResult ProbeResult
unfolding recall_options
recall_selection opts probes = select (qualifying opts probes) (recall_options opts)

abbrev pub is_of : Text → ProbeResult → Bool
is_of shard_id p = p.shard_id == shard_id

-- `candidates[0]?.entry.id`, which is falsy when it is the empty text.
abbrev pub top_shard : List CandidateScore → Option Text
top_shard [] = none
top_shard (c ∷ cs) = if c.entry.id == [] then none else some c.entry.id

abbrev pub with_probe : ℕ → List ProbeResult → Option ProbeResult → List ProbeResult
with_probe limit targets none = targets
with_probe limit targets (some p) = take limit (p ∷ targets)

-- The safety net: the router's first candidate is recalled if it was probed.
unfoldable pub with_top : ℕ → Option Text → List ProbeResult → List ProbeResult → List ProbeResult
with_top limit none probes targets = targets
with_top limit (some top) probes targets =
    if any (is_of top) targets then targets else with_probe limit targets (find (is_of top) probes)

unfoldable pub recall_targets :
    AskSettings → List CandidateScore → List ProbeResult → List ProbeResult
unfolding recall_selection with_top
recall_targets opts candidates probes =
    with_top opts.max_recall_shards (top_shard candidates) probes
      (recall_selection opts probes).selected
