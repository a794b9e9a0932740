-- ===== src/Ask/Probing.antt =====
-- The probes of the candidates: one call each, or the first alone and one call for the others.
use context_swarm_memory.Prelude.{
  Bool, ◌&&◌, Option, none, some, List, [], ◌∷◌, map, find, length, ltb, ◌==◌, list_eq, nat_eq_inst,
}
use context_swarm_memory.Memory.{MemoryShardSnapshot}
use context_swarm_memory.Probe.{ProbeResult, Verdict, reconcile}
use context_swarm_memory.ProviderJson.{ProviderUsage, no_usage}
use context_swarm_memory.Ask.{
  AskSettings, AskOutside, Reply, View, shard_of, ◌>>=◌, run_jobs, present,
}

-- A view with the outcome of its probe.
pub record Probed : Type 0 where
  pub view : View
  pub output : Option (Reply ProbeResult)

-- All probes, and what the shared call used.
pub record Probing : Type 0 where
  pub probed : List Probed
  pub shared : List ProviderUsage

-- The result of a call for one shard.
unfoldable pub solo_result : MemoryShardSnapshot → Verdict → ProbeResult
solo_result snap v = record {
  shard_id = snap.shard_id;
  snapshot_id = snap.snapshot_id;
  knows = v.knows;
  confidence = v.confidence;
  memory_type = v.memory_type;
  estimated_answer_value = v.estimated_answer_value;
  needs_full_recall = v.needs_full_recall;
  relevant_event_ids = v.relevant_event_ids;
}

module _ {S : Type 0} (outside : AskOutside S) where
  unfoldable pub probe_shard : MemoryShardSnapshot → Option (Reply ProbeResult)
  unfolding solo_result
  probe_shard snap = do
    r ← outside.answer_probe snap
    some (record { result = solo_result snap r.result; usage = r.usage })

  abbrev pub output_for : Option MemoryShardSnapshot → Option (Option (Reply ProbeResult))
  output_for none = some none
  output_for (some snap) = do r ← probe_shard snap; some (some r)

  -- A thunk of `probeJobs`.
  unfoldable pub probe_job : View → Option Probed
  probe_job v = do output ← output_for v.snapshot; some (record { view = v; output = output })

  unfoldable pub probe_shards_batched : List MemoryShardSnapshot → Option (Reply (List ProbeResult))
  unfolding reconcile
  probe_shards_batched [] = some (record { result = []; usage = no_usage })
  probe_shards_batched (s ∷ ss) = do
    r ← outside.answer_batch (s ∷ ss)
    some (record { result = reconcile r.result (s ∷ ss); usage = r.usage })

  abbrev pub uncharged : Option ProbeResult → Option (Reply ProbeResult)
  uncharged none = none
  uncharged (some p) = some (record { result = p; usage = no_usage })

  -- The result of a view over the shared call.
  abbrev pub view_output :
      List ProbeResult → View → Option MemoryShardSnapshot → Option (Reply ProbeResult)
  view_output results v none = none
  view_output results v (some snap) =
      uncharged (find (λ (r : ProbeResult). r.shard_id == shard_of v) results)

  unfoldable pub over_batch : List ProbeResult → View → Probed
  over_batch results v = record { view = v; output = view_output results v v.snapshot }

  -- `startBatchedProbePromises`, awaited.
  unfoldable pub probe_batched : List View → Option Probing
  unfolding probe_job probe_shards_batched over_batch
  probe_batched [] = some (record { probed = []; shared = [] })
  probe_batched (v ∷ vs) = do
    solo ← probe_job v
    batch ← probe_shards_batched (present (map (λ (w : View). w.snapshot) vs))
    some (record { probed = solo ∷ map (over_batch batch.result) vs; shared = batch.usage ∷ [] })

  unfoldable pub probe_each : List View → Option Probing
  unfolding probe_job
  probe_each views = do
    probed ← run_jobs probe_job views
    some (record { probed = probed; shared = [] })

abbrev pub use_batched_probe : AskSettings → List View → Bool
use_batched_probe opts views = opts.probe_batch && ltb 2 (length views)
