-- ===== src/Probe.antt =====
-- src/core/probe.ts and src/core/ask.ts: what becomes of the verdicts of a batched probe, and which
-- probes lead to a recall. Confidence is counted in millionths, a probe's score in units of 10^-8.
pub mod Reconciled
pub mod Recall
use context_swarm_memory.Prelude.{
  ℕ, ◌+◌, ◌*◌, Bool, true, false, not, ◌&&◌, ◌||◌, Option, none, some, List, [], ◌∷◌, ◌++◌,
  if◌then◌else◌, any, find, filter, map, leb, Text, ◌==◌, list_eq, nat_eq_inst,
}
use context_swarm_memory.Memory.{MemoryEvent, MemoryShardSnapshot}
use context_swarm_memory.Recall.{known}

pub data MemoryType : Type 0 where
  direct adjacent conflicting vague no_memory : MemoryType

pub data EstimatedAnswerValue : Type 0 where
  no_value low medium high : EstimatedAnswerValue

pub record ProbeResult : Type 0 where
  pub shard_id : Text
  pub snapshot_id : Text
  pub knows : Bool
  pub confidence : ℕ
  pub memory_type : MemoryType
  pub estimated_answer_value : EstimatedAnswerValue
  pub needs_full_recall : Bool
  pub relevant_event_ids : List Text

-- A verdict of the model, as the schema lets it through.
pub record Verdict : Type 0 where
  pub shard_id : Text
  pub knows : Bool
  pub confidence : ℕ
  pub memory_type : MemoryType
  pub estimated_answer_value : EstimatedAnswerValue
  pub needs_full_recall : Bool
  pub relevant_event_ids : List Text

abbrev pub is_for : Text → Verdict → Bool
is_for shard_id v = v.shard_id == shard_id

-- `byShardId`, with its verdicts in the order in which they were set.
unfoldable pub index_from : List Verdict → List Verdict → List Verdict
index_from seen [] = seen
index_from seen (v ∷ vs) =
    index_from (if any (is_for v.shard_id) seen then seen else seen ++ v ∷ []) vs

unfoldable pub padded : MemoryShardSnapshot → ProbeResult
padded snap = record {
  shard_id = snap.shard_id;
  snapshot_id = snap.snapshot_id;
  knows = false;
  confidence = 0;
  memory_type = no_memory;
  estimated_answer_value = no_value;
  needs_full_recall = false;
  relevant_event_ids = [];
}

unfoldable pub from_verdict : MemoryShardSnapshot → Verdict → ProbeResult
from_verdict snap v = record {
  shard_id = snap.shard_id;
  snapshot_id = snap.snapshot_id;
  knows = v.knows;
  confidence = v.confidence;
  memory_type = v.memory_type;
  estimated_answer_value = v.estimated_answer_value;
  needs_full_recall = v.needs_full_recall;
  relevant_event_ids = filter (known snap) v.relevant_event_ids;
}

abbrev pub result_for : MemoryShardSnapshot → Option Verdict → ProbeResult
result_for snap none = padded snap
result_for snap (some v) = from_verdict snap v

-- The results of `probeShardsBatched`, from the verdicts of the call.
unfoldable pub reconcile : List Verdict → List MemoryShardSnapshot → List ProbeResult
unfolding index_from padded from_verdict
reconcile verdicts = map (λ (snap : MemoryShardSnapshot).
    result_for snap (find (is_for snap.shard_id) (index_from [] verdicts)))

unfoldable pub is_worthless : EstimatedAnswerValue → Bool
is_worthless no_value = true
is_worthless _ = false

unfoldable pub is_valuable : EstimatedAnswerValue → Bool
is_valuable high = true
is_valuable medium = true
is_valuable _ = false

unfoldable pub is_pertinent : MemoryType → Bool
is_pertinent direct = true
is_pertinent adjacent = true
is_pertinent conflicting = true
is_pertinent _ = false

unfoldable pub probe_qualifies_for_recall : ProbeResult → ℕ → Bool
unfolding is_worthless is_valuable is_pertinent
probe_qualifies_for_recall p recall_confidence_min =
    let explicit = p.needs_full_recall && leb recall_confidence_min p.confidence in
    let inferred =
      leb 700000 p.confidence
      && is_valuable p.estimated_answer_value
      && is_pertinent p.memory_type in
    if not p.knows
    then false
    else if is_worthless p.estimated_answer_value
    then false
    else explicit || inferred

abbrev pub value_weight : EstimatedAnswerValue → ℕ
value_weight high = 100
value_weight medium = 60
value_weight low = 30
value_weight no_value = 0

abbrev pub type_weight : MemoryType → ℕ
type_weight direct = 100
type_weight adjacent = 60
type_weight conflicting = 50
type_weight vague = 20
type_weight no_memory = 0

-- `p.confidence * 0.6 + valueWeight * 0.25 + typeWeight * 0.15`
unfoldable pub score_probe : ProbeResult → ℕ
score_probe p =
    p.confidence * 60
    + value_weight p.estimated_answer_value * 250000
    + type_weight p.memory_type * 150000
