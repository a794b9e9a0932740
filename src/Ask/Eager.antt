-- ===== src/Ask/Eager.antt =====
-- Recalls that start while other probes are still running.
use context_swarm_memory.Prelude.{
  ℕ, suc, ◌+◌, ◌-◌, Bool, false, not, ◌&&◌, ◌||◌, Option, none, some, List, [], ◌∷◌, if◌then◌else◌,
  any, find, leb, nat_eq, Text, ◌==◌, list_eq, nat_eq_inst,
}
use context_swarm_memory.Memory.{MemoryShardSnapshot}
use context_swarm_memory.Recall.{RecallResult, recall_result}
use context_swarm_memory.Probe.{ProbeResult, probe_qualifies_for_recall}
use context_swarm_memory.Ask.{AskSettings, AskOutside, Reply, shard_of, ◌>>=◌}
use context_swarm_memory.Ask.Probing.{Probed}

-- What becomes of an entry's promise: no call was made, the call gave a reply, or its error is kept.
pub data EagerOutcome : Type 0 where
  not_called : EagerOutcome
  answered : Reply RecallResult → EagerOutcome
  failed : EagerOutcome

pub record EagerEntry : Type 0 where
  pub shard_id : Text
  pub outcome : EagerOutcome

-- A probed view with its place among the candidates.
pub record Placed : Type 0 where
  pub ix : ℕ
  pub probed : Probed

unfoldable pub place : ℕ → List Probed → List Placed
place ix [] = []
place ix (p ∷ ps) = record { ix = ix; probed = p } ∷ place (suc ix) ps

-- `map.set(entry.shardId, entry)`, which keeps the place of a key that is there.
unfoldable pub set_entry : EagerEntry → List EagerEntry → List EagerEntry
set_entry e [] = e ∷ []
set_entry e (m ∷ ms) =
    let rest = set_entry e ms in if m.shard_id == e.shard_id then e ∷ ms else m ∷ rest

abbrev pub entry_of : Text → List EagerEntry → Option EagerEntry
entry_of shard_id = find (λ (e : EagerEntry). e.shard_id == shard_id)

module _ {S : Type 0} (opts : AskSettings) (outside : AskOutside S) where
  unfoldable pub recall_shard : MemoryShardSnapshot → List Text → Option (Reply RecallResult)
  unfolding recall_result
  recall_shard snap hint = do
    r ← outside.answer_recall snap hint
    some (record { result = recall_result snap r.result; usage = r.usage })

  -- Whether the probe of a candidate other than the first may start a recall.
  abbrev pub may_start : Placed → Bool
  may_start p = admits p.probed.view.snapshot p.probed.output
    where
      admits : Option MemoryShardSnapshot → Option (Reply ProbeResult) → Bool
      admits none o = false
      admits (some snap) none = false
      admits (some snap) (some o) =
          not (nat_eq p.ix 0) && probe_qualifies_for_recall o.result opts.recall_confidence_min

  -- The candidates other than the first whose recall starts, for probes that complete in the given
  -- order; `started` is `eagerStartedOthers`.
  unfoldable pub starts : ℕ → List Placed → List ℕ
  starts started [] = []
  starts started (p ∷ ps) =
      let taken = starts (started + 1) ps in
      let passed = starts started ps in
      if may_start p && not (leb (opts.max_recall_shards - 1) started) then p.ix ∷ taken else passed

  abbrev pub outcome_of : Option (Reply RecallResult) → EagerOutcome
  outcome_of none = failed
  outcome_of (some r) = answered r

  -- What the handler of a probe does, once it is known which recalls start.
  abbrev pub handled :
      List ℕ → Placed → MemoryShardSnapshot → Option (Reply ProbeResult) → EagerOutcome
  handled started p snap none = not_called
  handled started p snap (some o) =
      if nat_eq p.ix 0 || any (nat_eq p.ix) started
      then outcome_of (recall_shard snap o.result.relevant_event_ids)
      else not_called

  -- The entry that a view registers.
  abbrev pub registered : List ℕ → Placed → Option MemoryShardSnapshot → Option EagerEntry
  registered started p none = none
  registered started p (some snap) =
      if not (nat_eq p.ix 0) && not opts.eager_recalls
      then none
      else some (record {
        shard_id = shard_of p.probed.view;
        outcome = handled started p snap p.probed.output;
      })

  abbrev pub set_registered : Option EagerEntry → List EagerEntry → List EagerEntry
  set_registered none entries = entries
  set_registered (some e) entries = set_entry e entries

  unfoldable pub register : List ℕ → List EagerEntry → List Placed → List EagerEntry
  unfolding recall_shard set_entry
  register started entries [] = entries
  register started entries (p ∷ ps) =
      register started (set_registered (registered started p p.probed.view.snapshot) entries) ps

  -- `eagerRecalls`, for a completion order of the probes.
  unfoldable pub eager_entries : List Probed → List Placed → List EagerEntry
  unfolding starts register place
  eager_entries probed order =
      let started = if opts.eager_recalls then starts 0 order else [] in
      register started [] (place 0 probed)
