-- ===== src/Ask.antt =====
-- src/core/ask.ts: the query path behind the router, from its candidates to the packet and the record
-- of the run. The settings are what their resolvers read, once, at the start.
pub mod Gate
pub mod Probing
pub mod Targets
pub mod Eager
pub mod Run
pub mod Trust
pub mod Jobs
pub mod Loaded
pub mod Probes
pub mod Schedule
pub mod Settled
pub mod Cited
pub mod Total
pub mod Places
pub mod Early
pub mod Starts
pub mod Record
mod Tests
use context_swarm_memory.Prelude.{ℕ, ◌+◌, Bool, Option, none, some, List, [], ◌∷◌, Text}
use context_swarm_memory.Memory.{CandidateScore, MemoryShardSnapshot}
use context_swarm_memory.Selection.{DegenerateReason, Ratio, SelectionResult}
use context_swarm_memory.Probe.{ProbeResult, Verdict}
use context_swarm_memory.Recall.{RecallResult}
use context_swarm_memory.Packet.{MemoryPacket}
use context_swarm_memory.ProviderJson.{ProviderUsage}

pub data RouterPath : Type 0 where
  lexical hybrid hybrid_fallback_no_index hybrid_fallback_embed_failed : RouterPath

pub record SelectionSummary : Type 0 where
  pub discriminated : Bool
  pub degenerate_reason : Option DegenerateReason
  pub signal_ratio : Ratio
  pub total_candidates : ℕ
  pub path : Option RouterPath

pub record RouterCut : Type 0 where
  pub candidates : List CandidateScore
  pub selection : SelectionSummary
  -- `lastHybridSelectionReport()?.discriminated`
  pub last_hybrid : Option Bool

pub record AskSettings : Type 0 where
  pub query : Text
  pub provider_name : Text
  pub max_probe_shards : ℕ
  pub max_recall_shards : ℕ
  pub recall_confidence_min : ℕ
  pub recall_tokens_per_shard : ℕ
  pub local_keep : ℕ
  -- Whether `opts.routerIndex` is given.
  pub router_index : Bool
  pub probe_shrink : Bool
  pub probe_batch : Bool
  pub eager_recalls : Bool
  pub parallel_probes : Bool
  pub skip_query_log : Bool

-- The value of a call of the provider, with what it used.
pub record Reply (A : Type 0) : Type 0 where
  pub result : A
  pub usage : ProviderUsage

pub record ShardDigest : Type 0 where
  pub shard_id : Text
  pub digest : Text

-- What the pipeline asks of its surroundings during one run, each answer a function of what is asked:
-- the storage; the validated answers of the model, at this query; `compactEventIndex` at this query and
-- its budget; the local gate, whose scores are of any ordered type; the coverage code, if the query
-- calls for it; the clock and the name of the run. `none` is an error that is thrown.
pub record AskOutside (S : Type 0) : Type 0 where
  pub load_snapshot : Text → Text → Option (Option MemoryShardSnapshot)
  pub answer_probe : MemoryShardSnapshot → Option (Reply Verdict)
  pub answer_batch : List MemoryShardSnapshot → Option (Reply (List Verdict))
  pub answer_recall : MemoryShardSnapshot → List Text → Option (Reply RecallResult)
  pub answer_synthesis : List RecallResult → Option (Reply MemoryPacket)
  pub compact_index : MemoryShardSnapshot → Text
  pub local_probe_gate : Option (List ShardDigest → Option (List S))
  pub attach_coverage : Option (MemoryPacket → List MemoryShardSnapshot → List Text → MemoryPacket)
  pub run_id : Text
  pub started_at : Text
  pub finished_at : Text

-- A probed candidate, with the snapshot that was loaded for it.
pub record View : Type 0 where
  pub candidate : CandidateScore
  pub snapshot : Option MemoryShardSnapshot

abbrev pub shard_of : View → Text
shard_of v = v.candidate.entry.id

infixl 5 ◌>>=◌
unfoldable pub ◌>>=◌ : {A B : Type 0} → Option A → (A → Option B) → Option B
none >>= f = none
some a >>= f = f a

-- `runJobs`, in parallel or one by one: the values in the order of the jobs, or an error.
unfoldable pub run_jobs : {A B : Type 0} → (A → Option B) → List A → Option (List B)
run_jobs job [] = some []
run_jobs job (x ∷ xs) = do y ← job x; ys ← run_jobs job xs; some (y ∷ ys)

-- The values that are not `null`.
abbrev pub present : {A : Type 0} → List (Option A) → List A
present [] = []
present (none ∷ xs) = present xs
present (some x ∷ xs) = x ∷ present xs
