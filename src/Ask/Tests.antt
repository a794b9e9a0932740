-- ===== src/Ask/Tests.antt =====
-- A run over three shards, of which the first is rejected by its probe.
use context_swarm_memory.Prelude.{
  ℕ, ◌≤◌, ◌≡◌, refl, ap, sym, true, false, Bool, Option, none, some, some_inj, List, [], ◌∷◌, map,
  Text, text, ◌==◌, not, list_eq, nat_eq_inst, list_beq, list_lt, length, filter, if◌then◌else◌,
  All,
}
use mathlib.Core.List.{reverse}
use context_swarm_memory.Memory.{
  MemoryDirectoryEntry, CandidateScore, MemoryShardSnapshot, ShardStatus, TrustLevel, Staleness,
}
use context_swarm_memory.Selection.{nat_score, no_signal, select}
use context_swarm_memory.Selection.Dedupe.{IsDistinct}
use context_swarm_memory.Probe.{
  ProbeResult, Verdict, direct, high, probe_qualifies_for_recall, score_probe,
}
use context_swarm_memory.Recall.{RecallResult, recall_result}
use context_swarm_memory.Packet.{empty_packet}
use context_swarm_memory.ProviderJson.{no_usage, ProviderUsage}
use context_swarm_memory.Ask.{RouterCut, View, AskSettings, AskOutside, ◌>>=◌, run_jobs}
use context_swarm_memory.Ask.Loaded.{candidate_shard}
use context_swarm_memory.Ask.Probing.{probe_shard, Probed}
use context_swarm_memory.Ask.Gate.{probed_views}
use context_swarm_memory.Ask.Targets.{recall_targets, top_shard}
use context_swarm_memory.Ask.Eager.{Placed, place, eager_entries}
use context_swarm_memory.Ask.Run.{AskRunResult, eager_at, ask}
use context_swarm_memory.Ask.Total.{Answers, IsAnswering, ask-Answers}
use context_swarm_memory.Ask.Cited.{IsCited, ask-IsCited}
use context_swarm_memory.Ask.Trust.{AreTargets, recall_targets-AreTargets}
use context_swarm_memory.Ask.Probes.{probed_shard}
use context_swarm_memory.Ask.Early.{called, is_early, shard_at}
use context_swarm_memory.Ask.Starts.{may_be_early, eager_at_lem}
use context_swarm_memory.Ask.Settled.{answer, ask-settled}

abbrev entry : Text → MemoryDirectoryEntry
entry id = record {
  id = id;
  name = id;
  description = [];
  tags = [];
  created_at = [];
  updated_at = [];
  time_range = none;
  status = ShardStatus.active;
  snapshot_id = text "S001";
  token_count_estimate = 0;
  context_limit_estimate = 1000;
  fullness_pct = 0;
  summary_short = [];
  known_conflicts = [];
  parent_id = none;
  children = [];
  trust_level = TrustLevel.user_memory;
  staleness = Staleness.current;
}

abbrev candidate : Text → CandidateScore
candidate id = record { entry = entry id; score = 1000000; reasons = [] }

abbrev cut : RouterCut
cut = record {
  candidates = candidate (text "a") ∷ candidate (text "b") ∷ candidate (text "c") ∷ [];
  selection = record {
    discriminated = false;
    degenerate_reason = some no_signal;
    signal_ratio = record { part = 0; whole = 3 };
    total_candidates = 3;
    path = none;
  };
  last_hybrid = none;
}

abbrev snapshot : Text → Text → MemoryShardSnapshot
snapshot shard_id snapshot_id = record {
  shard_id = shard_id;
  snapshot_id = snapshot_id;
  system_prompt = [];
  summary = [];
  events = [];
  index_terms = [];
  created_at = [];
  parent_snapshot_id = none;
}

abbrev verdict : Text → Verdict
verdict shard_id = record {
  shard_id = shard_id;
  knows = not (shard_id == text "a");
  confidence = 800000;
  memory_type = direct;
  estimated_answer_value = high;
  needs_full_recall = true;
  relevant_event_ids = [];
}

abbrev spent : ProviderUsage
spent = record no_usage { input_tokens_estimate = 10 }

abbrev outside : AskOutside ℕ
outside = record {
  load_snapshot = λ i s. some (some (snapshot i s));
  answer_probe = λ snap. some (record { result = verdict snap.shard_id; usage = spent });
  answer_batch = λ snaps. some (record {
    result = map (λ (snap : MemoryShardSnapshot). verdict snap.shard_id) snaps;
    usage = spent;
  });
  answer_recall = λ snap hint. some (record {
    result = record {
      shard_id = snap.shard_id;
      snapshot_id = snap.snapshot_id;
      confidence = 800000;
      answer = text "yes";
      claims = [];
      unknowns = [];
      conflicts = [];
    };
    usage = spent;
  });
  answer_synthesis = λ recalls. some (record { result = empty_packet (text "?"); usage = spent });
  compact_index = λ snap. [];
  local_probe_gate = none;
  attach_coverage = none;
  run_id = text "run";
  started_at = text "t0";
  finished_at = text "t1";
}

abbrev opts : AskSettings
opts = record {
  query = text "?";
  provider_name = text "mock";
  max_probe_shards = 8;
  max_recall_shards = 2;
  recall_confidence_min = 450000;
  recall_tokens_per_shard = 1200;
  local_keep = 0;
  router_index = false;
  probe_shrink = false;
  probe_batch = true;
  eager_recalls = true;
  parallel_probes = true;
  skip_query_log = false;
}

abbrev told : Option AskRunResult → List Text × ℕ × ℕ
told none = ([], 0, 0)
told (some r) = (
  map (λ (q : RecallResult). q.shard_id) r.recalls,
  r.discarded_recalls,
  r.cost.input_tokens_estimate,
)

-- The last probe completes first, and its recall is discarded.
hasty : told (ask opts outside cut reverse) ≡ (text "a" ∷ text "b" ∷ [], 1, 60)
unfolding ask ◌>>=◌ select list_beq list_lt recall_result probe_qualifies_for_recall probed_views
    run_jobs probe_shard recall_targets score_probe eager_entries
hasty = refl

-- In the order of the router, the recall that starts early is used.
orderly : told (ask opts outside cut (λ l. l)) ≡ (text "a" ∷ text "b" ∷ [], 0, 50)
unfolding ask ◌>>=◌ select list_beq list_lt recall_result probe_qualifies_for_recall probed_views
    run_jobs probe_shard recall_targets score_probe eager_entries
orderly = refl

named :
    (i s : Text) (snap : MemoryShardSnapshot)
    → outside.load_snapshot i s ≡ some (some snap)
    → (snap.shard_id ≡ i) × (snap.snapshot_id ≡ s)
named i s snap h =
    let e = sym (some_inj (some_inj h)) in
    (
      ap (λ (m : MemoryShardSnapshot). m.shard_id) e,
      ap (λ (m : MemoryShardSnapshot). m.snapshot_id) e,
    )

distinct : IsDistinct (map candidate_shard cut.candidates)
unfolding list_beq
distinct = (refl, (refl, (refl, tt)))

ask-settled_example :
    answer (ask opts outside cut reverse)
    ≡ answer
        (ask (record opts { eager_recalls = false; parallel_probes = false }) outside cut (λ l. l))
ask-settled_example = ask-settled outside named cut distinct opts reverse (λ l. l) false false

abbrev probe : Text → Bool → ProbeResult
probe id knows = record {
  shard_id = id;
  snapshot_id = text "S001";
  knows = knows;
  confidence = 800000;
  memory_type = direct;
  estimated_answer_value = high;
  needs_full_recall = true;
  relevant_event_ids = [];
}

abbrev probes : List ProbeResult
probes = probe (text "a") false ∷ probe (text "b") true ∷ probe (text "c") true ∷ []

recall_targets-AreTargets_example :
    AreTargets opts (top_shard cut.candidates) probes (recall_targets opts cut.candidates probes)
recall_targets-AreTargets_example = recall_targets-AreTargets opts probes cut.candidates

abbrev placed : ℕ → Text → Placed
placed ix id = record {
  ix = ix;
  probed = record {
    view = record { candidate = candidate id; snapshot = some (snapshot id (text "S001")) };
    output = some (record { result = probe id true; usage = spent });
  };
}

abbrev completed : List Placed
completed = placed 2 (text "c") ∷ placed 0 (text "a") ∷ placed 1 (text "b") ∷ []

abbrev probed : List Probed
probed =
    map (λ (p : Placed). p.probed)
      (placed 0 (text "a") ∷ placed 1 (text "b") ∷ placed 2 (text "c") ∷ [])

abbrev views : List View
views = map (λ (p : Probed). p.view) probed

distinct_shards : IsDistinct (map probed_shard probed)
unfolding list_beq
distinct_shards = (refl, (refl, (refl, tt)))

eager_at_lem_example :
    (called (eager_at opts outside probed views completed) ≡ (
      if may_be_early opts outside views
      then map shard_at (filter (is_early opts outside completed) (place 0 probed))
      else []))
    × (length (called (eager_at opts outside probed views completed)) ≤ opts.max_recall_shards)
eager_at_lem_example = eager_at_lem opts outside probed views completed distinct_shards

-- The third completes before the second, and two recalls are allowed: the second one waits.
early_calls : called (eager_at opts outside probed views completed) ≡ text "a" ∷ text "c" ∷ []
unfolding eager_entries list_beq recall_result probe_qualifies_for_recall ◌>>=◌
early_calls = refl

answering : IsAnswering outside
answering = record {
  load_snapshot = λ i s. (some (snapshot i s), refl);
  answer_probe = λ snap. (record { result = verdict snap.shard_id; usage = spent }, refl);
  answer_batch = λ snaps. (
    record {
      result = map (λ (snap : MemoryShardSnapshot). verdict snap.shard_id) snaps;
      usage = spent;
    },
    refl,
  );
  answer_recall = λ snap hint. (_, refl);
  answer_synthesis = λ recalls. (_, refl);
  gate = tt;
}

ask-Answers_example : Answers (ask opts outside cut reverse)
ask-Answers_example = ask-Answers opts outside answering named cut distinct reverse

-- The run ends, by computation.
ended : Answers (ask opts outside cut reverse)
unfolding ask ◌>>=◌ select list_beq list_lt recall_result probe_qualifies_for_recall probed_views
    run_jobs probe_shard recall_targets score_probe eager_entries
ended = (_, refl)

ask-IsCited_example : All (IsCited opts outside named) ended.0.recalls
ask-IsCited_example = ask-IsCited opts outside named cut distinct reverse ended.0 ended.1
