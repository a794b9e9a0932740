-- ===== src/Ask/Run.antt =====
-- The whole of a run: the recalls, the packet, the cost and the record.
use context_swarm_memory.Prelude.{
  ℕ, ◌+◌, Bool, true, false, ◌&&◌, ◌||◌, Option, none, some, List, [], ◌∷◌, ◌++◌, map,
  if◌then◌else◌, any, length, ltb, nat_eq, Text, ◌==◌, list_eq, nat_eq_inst,
}
use context_swarm_memory.Memory.{CandidateScore, MemoryShardSnapshot}
use context_swarm_memory.Selection.{Score, SelectionResult}
use context_swarm_memory.Probe.{ProbeResult}
use context_swarm_memory.Recall.{RecallResult}
use context_swarm_memory.Packet.{MemoryPacket, empty_packet, packet_from_single_recall}
use context_swarm_memory.ProviderJson.{ProviderUsage}
use context_swarm_memory.Ask.{
  RouterCut, SelectionSummary, AskSettings, AskOutside, Reply, View, ◌>>=◌, run_jobs, present,
}
use context_swarm_memory.Ask.Gate.{probed_views}
use context_swarm_memory.Ask.Probing.{Probed, Probing, probe_batched, probe_each, use_batched_probe}
use context_swarm_memory.Ask.Targets.{recall_selection, recall_targets}
use context_swarm_memory.Ask.Eager.{
  EagerEntry, EagerOutcome, not_called, answered, failed, Placed, place, entry_of, recall_shard,
  eager_entries,
}

-- `cost`, without the time.
pub record AskRunCost : Type 0 where
  pub input_tokens_estimate : ℕ
  pub output_tokens_estimate : ℕ
  pub estimated_usd : ℕ

unfoldable pub accumulate : AskRunCost → ProviderUsage → AskRunCost
accumulate cost u = record {
  input_tokens_estimate = cost.input_tokens_estimate + u.input_tokens_estimate;
  output_tokens_estimate = cost.output_tokens_estimate + u.output_tokens_estimate;
  estimated_usd = cost.estimated_usd + u.estimated_usd;
}

abbrev pub no_cost : AskRunCost
no_cost = record { input_tokens_estimate = 0; output_tokens_estimate = 0; estimated_usd = 0 }

unfoldable pub accumulate_all : AskRunCost → List ProviderUsage → AskRunCost
unfolding accumulate
accumulate_all cost [] = cost
accumulate_all cost (u ∷ us) = accumulate_all (accumulate cost u) us

abbrev pub results : {A : Type 0} → List (Option (Reply A)) → List A
results replies = map (λ r. r.result) (present replies)

abbrev pub usages : {A : Type 0} → List (Option (Reply A)) → List ProviderUsage
usages replies = map (λ r. r.usage) (present replies)

-- A recall target, with the snapshot that was loaded for it.
pub record Target : Type 0 where
  pub probe : ProbeResult
  pub snapshot : Option MemoryShardSnapshot

pub record AskRunResult : Type 0 where
  pub candidates : List CandidateScore
  pub probes : List ProbeResult
  pub recalls : List RecallResult
  pub memory_packet : MemoryPacket
  pub cost : AskRunCost
  pub discarded_recalls : ℕ
  pub recall_tokens_per_shard : ℕ
  pub coverage_escalated : Bool
  pub router : SelectionSummary
  pub recall : SelectionSummary

module _ {S : Type 0} ⦃sc : Score S⦄ (opts : AskSettings) (outside : AskOutside S) where
  unfoldable pub probe_all : List View → Option Probing
  unfolding probe_batched probe_each
  probe_all views =
      if use_batched_probe opts views then probe_batched outside views else probe_each outside views

  -- A recall that no eager call has answered.
  abbrev pub fresh : ProbeResult → Option MemoryShardSnapshot → Option (Option (Reply RecallResult))
  fresh p none = some none
  fresh p (some snap) = do r ← recall_shard opts outside snap p.relevant_event_ids; some (some r)

  abbrev pub after_eager :
      ProbeResult → Option MemoryShardSnapshot → EagerOutcome → Option (Option (Reply RecallResult))
  after_eager p snapshot not_called = fresh p snapshot
  after_eager p snapshot (answered r) = some (some r)
  after_eager p snapshot failed = none

  abbrev pub outcome_at : Option EagerEntry → EagerOutcome
  outcome_at none = not_called
  outcome_at (some e) = e.outcome

  abbrev pub load_target : ProbeResult → Option Target
  load_target p = do
    snapshot ← outside.load_snapshot p.shard_id p.snapshot_id
    some (record { probe = p; snapshot = snapshot })

  -- A thunk of `recallJobs`.
  unfoldable pub recall_job : List EagerEntry → Target → Option (Option (Reply RecallResult))
  recall_job entries t =
      after_eager t.probe t.snapshot (outcome_at (entry_of t.probe.shard_id entries))

  abbrev pub answer_of : EagerOutcome → Option (Reply RecallResult)
  answer_of not_called = none
  answer_of (answered r) = some r
  answer_of failed = none

  -- The replies of the discard pass.
  unfoldable pub discarded : List ProbeResult → List EagerEntry → List (Option (Reply RecallResult))
  discarded targets [] = []
  discarded targets (e ∷ es) =
      let rest = discarded targets es in
      if any (λ (p : ProbeResult). p.shard_id == e.shard_id) targets
      then rest
      else answer_of e.outcome ∷ rest

  unfoldable pub synthesize_packet : List RecallResult → Option (MemoryPacket × List ProviderUsage)
  unfolding empty_packet packet_from_single_recall
  synthesize_packet [] = some (empty_packet opts.query, [])
  synthesize_packet (r ∷ []) = some (packet_from_single_recall opts.query r, [])
  synthesize_packet (r ∷ s ∷ rs) = do
    synth ← outside.answer_synthesis (r ∷ s ∷ rs)
    some (synth.result, synth.usage ∷ [])

  abbrev pub event_ids : List ProbeResult → List Text
  event_ids [] = []
  event_ids (p ∷ ps) = p.relevant_event_ids ++ event_ids ps

  abbrev pub covered :
      Option (MemoryPacket → List MemoryShardSnapshot → List Text → MemoryPacket)
      → MemoryPacket
      → List View
      → List ProbeResult
      → MemoryPacket
  covered none packet views probes = packet
  covered (some attach) packet views probes =
      attach packet (present (map (λ (v : View). v.snapshot) views)) (event_ids probes)

  abbrev pub is_escalated :
      Option (MemoryPacket → List MemoryShardSnapshot → List Text → MemoryPacket) → Bool
  is_escalated none = false
  is_escalated (some attach) = true

  abbrev no_recall_cut : SelectionSummary
  no_recall_cut = record {
    discriminated = true;
    degenerate_reason = none;
    signal_ratio = record { part = 0; whole = 1 };
    total_candidates = 0;
    path = none;
  }

  abbrev recall_summary : SelectionResult ProbeResult → SelectionSummary
  recall_summary s = record {
    discriminated = s.discriminated;
    degenerate_reason = s.degenerate_reason;
    signal_ratio = s.signal_ratio;
    total_candidates = s.total_candidates;
    path = none;
  }

  abbrev pub eager_at : List Probed → List View → List Placed → List EagerEntry
  eager_at probed views order =
      if (opts.parallel_probes || use_batched_probe opts views) && ltb 0 opts.max_recall_shards
      then eager_entries opts outside probed order
      else []

  -- The recalls of a run, from its probes.
  unfoldable pub recall_all :
      List EagerEntry → List ProbeResult → Option (List (Option (Reply RecallResult)))
  unfolding recall_job
  recall_all entries targets = do
    loaded ← run_jobs load_target targets
    run_jobs (recall_job entries) loaded

  -- Behind the probes, with the entries of the recalls that started early.
  unfoldable pub finish_with :
      List EagerEntry → RouterCut → List View → Probing → Option AskRunResult
  unfolding recall_all discarded synthesize_packet accumulate_all
  finish_with entries cut views probing =
      let replies = map (λ (p : Probed). p.output) probing.probed in
      let probes = results replies in
      let targets = recall_targets opts cut.candidates probes in
      do
        outputs ← recall_all entries targets
        packet ← synthesize_packet (results outputs)
        some (record {
          candidates = cut.candidates;
          probes = probes;
          recalls = results outputs;
          memory_packet = covered outside.attach_coverage packet.0 views probes;
          cost = accumulate_all no_cost (
              probing.shared
              ++ usages replies
              ++ usages outputs
              ++ usages (discarded targets entries)
              ++ packet.1);
          discarded_recalls = length (present (discarded targets entries));
          recall_tokens_per_shard = opts.recall_tokens_per_shard;
          coverage_escalated = is_escalated outside.attach_coverage;
          router = cut.selection;
          recall = recall_summary (recall_selection opts probes);
        })

  -- Behind the probes, which complete in the given order.
  unfoldable pub finish :
      RouterCut → (List Placed → List Placed) → List View → Probing → Option AskRunResult
  unfolding finish_with
  finish cut order views probing =
      finish_with (eager_at probing.probed views (order (place 0 probing.probed))) cut views probing

  abbrev pub unanswered : RouterCut → AskRunResult
  unanswered cut = record {
    candidates = cut.candidates;
    probes = [];
    recalls = [];
    memory_packet = empty_packet opts.query;
    cost = no_cost;
    discarded_recalls = 0;
    recall_tokens_per_shard = opts.recall_tokens_per_shard;
    coverage_escalated = is_escalated outside.attach_coverage;
    router = cut.selection;
    recall = no_recall_cut;
  }

  -- `ask`, behind the router, for probes that complete in the given order.
  unfoldable pub ask : RouterCut → (List Placed → List Placed) → Option AskRunResult
  unfolding finish probe_all
  ask cut order = if nat_eq (length cut.candidates) 0 then some (unanswered cut) else do
    views ← probed_views opts outside cut
    probing ← probe_all views
    finish cut order views probing
