-- ===== src/Recall.antt =====
-- src/core/recall.ts: the part of `recallShard` behind the model's answer, which makes the citations
-- those of the call. The answer, as its schema lets it through, is an argument.
pub mod Grounded
use context_swarm_memory.Prelude.{
  ℕ, ◌+◌, ◌-◌, Bool, true, false, not, ◌&&◌, ◌||◌, List, [], ◌∷◌, ◌++◌, if◌then◌else◌, any, filter,
  length, map, ltb, nat_eq, Text, text, ◌==◌, list_eq, nat_eq_inst,
}
use context_swarm_memory.Ids.{decimal}
use context_swarm_memory.Memory.{MemoryEvent, MemoryShardSnapshot}

pub record RecallClaim : Type 0 where
  pub claim : Text
  pub support : List Text
  pub confidence : ℕ

-- `RecallResult`, which is also the shape of a validated answer with its echoed names.
pub record RecallResult : Type 0 where
  pub shard_id : Text
  pub snapshot_id : Text
  pub confidence : ℕ
  pub answer : Text
  pub claims : List RecallClaim
  pub unknowns : List Text
  pub conflicts : List Text

-- `knownEventIds.has(id)`
abbrev pub known : MemoryShardSnapshot → Text → Bool
known snapshot id = any (λ (e : MemoryEvent). e.event_id == id) snapshot.events

unfoldable pub keep_known : MemoryShardSnapshot → RecallClaim → RecallClaim
keep_known snapshot c =
    let support = filter (known snapshot) c.support in
    if nat_eq (length support) (length c.support) then c else record c { support = support }

-- `fabricated`, behind the last claim.
unfoldable pub fabricated : MemoryShardSnapshot → List RecallClaim → ℕ
fabricated snapshot [] = 0
fabricated snapshot (c ∷ cs) =
    (length c.support - length (filter (known snapshot) c.support)) + fabricated snapshot cs

abbrev pub echoed_wrongly : MemoryShardSnapshot → RecallResult → Bool
echoed_wrongly snapshot echoed =
    not (echoed.shard_id == snapshot.shard_id) || not (echoed.snapshot_id == snapshot.snapshot_id)

unfoldable pub echo_conflict : MemoryShardSnapshot → RecallResult → Text
echo_conflict snapshot echoed =
    text "citation: model echoed "
    ++ echoed.shard_id
    ++ text "@"
    ++ echoed.snapshot_id
    ++ text " for a recall made against "
    ++ snapshot.shard_id
    ++ text "@"
    ++ snapshot.snapshot_id
    ++ text "; the call's ids are used."

unfoldable pub dropped_conflict : MemoryShardSnapshot → ℕ → Text
dropped_conflict snapshot n =
    text "citation: "
    ++ decimal n
    ++ text " support id(s) not present in "
    ++ snapshot.shard_id
    ++ text "@"
    ++ snapshot.snapshot_id
    ++ text " were dropped."

-- The conflicts that the call adds to the model's.
unfoldable pub citation_conflicts : MemoryShardSnapshot → RecallResult → List Text
unfolding echo_conflict dropped_conflict fabricated
citation_conflicts snapshot echoed =
    let n = fabricated snapshot echoed.claims in
    (if echoed_wrongly snapshot echoed then echo_conflict snapshot echoed ∷ [] else [])
    ++ (if ltb 0 n then dropped_conflict snapshot n ∷ [] else [])

unfoldable pub recall_result : MemoryShardSnapshot → RecallResult → RecallResult
unfolding keep_known citation_conflicts
recall_result snapshot echoed = record {
  shard_id = snapshot.shard_id;
  snapshot_id = snapshot.snapshot_id;
  confidence = echoed.confidence;
  answer = echoed.answer;
  claims = map (keep_known snapshot) echoed.claims;
  unknowns = echoed.unknowns;
  conflicts = echoed.conflicts ++ citation_conflicts snapshot echoed;
}
