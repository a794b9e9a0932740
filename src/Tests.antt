-- ===== src/Tests.antt =====
-- Runs of the small components, and what the theorems say of them.
mod Query
use context_swarm_memory.Prelude.{
  All, ℕ, ◌+◌, ◌≤◌, ◌≡◌, refl, true, false, none, some, [], ◌∷◌, ◌++◌, if◌then◌else◌, leb, length,
  take, ◌-◌, text, All, Memᴰ, ◌⊎◌, trim, to_lower, list_beq, arith,
}
use context_swarm_memory.Ids.Slug.{IsSlugUnit, slugify_lem}
use context_swarm_memory.Ids.{slugify, decimal, new_snapshot_id, next_snapshot_id, snapshot_number}
use context_swarm_memory.Ids.RoundTrip.{next_snapshot_id-new_snapshot_id, new_snapshot_id-injective}
use context_swarm_memory.Truncate.{truncate, truncate_lem}
use context_swarm_memory.RetrievalUnit.{
  RetrievalUnit, cut_at, PartitionOptions, partition_into_units, unit_id, best_unit_score,
}
use context_swarm_memory.RetrievalUnit.Tiling.{Tiles, IsUnit, partition_into_units-Tiles}
use context_swarm_memory.RetrievalUnit.Best.{best_unit_score_lem}
use context_swarm_memory.Memory.{MemoryEvent, EventRole, MemoryShardSnapshot}
use context_swarm_memory.Recall.{RecallResult, recall_result}
use context_swarm_memory.Recall.Grounded.{IsGrounded, recall_result-IsGrounded}
use context_swarm_memory.ProviderJson.{
  CompleteJsonInput, Outside, Data, no_usage, validated, complete_and_validate,
}
use context_swarm_memory.ProviderJson.Attempts.{Ends, complete_and_validate-Ends}
use context_swarm_memory.Budget.{
  estimate_events_tokens, fullness_pct, round2, recommend_for_fullness,
}
use context_swarm_memory.Budget.Bounds.{estimate_events_tokens-append}
use context_swarm_memory.Packet.{MemoryPacketClaim, packet_from_single_recall}
use context_swarm_memory.Packet.Sources.{IsSource, packet_from_single_recall-IsSource}
use context_swarm_memory.Probe.{
  Verdict, ProbeResult, direct, high, reconcile, padded, probe_qualifies_for_recall, score_probe,
}
use context_swarm_memory.Probe.Reconciled.{AreResults, reconcile-AreResults}
use context_swarm_memory.Probe.Recall.{probe_qualifies_for_recall_mono}
use context_swarm_memory.Env.{
  ok, thrown, EnvIntOptions, env_flag, env_int, env_int_optional, least, greatest, includes,
  true_values, not_a_flag,
}
use context_swarm_memory.Env.Meaning.{IsUnset, IsInteger, IsInRange, env_int-range, env_flag-words}

first_name : new_snapshot_id 1 ≡ text "S001"
unfolding new_snapshot_id
first_name = refl

wide_name : next_snapshot_id (text "S999") ≡ text "S1000"
unfolding next_snapshot_id
wide_name = refl

next_snapshot_id-new_snapshot_id_example :
    (next_snapshot_id (new_snapshot_id 999) ≡ new_snapshot_id 1000)
    × (snapshot_number (next_snapshot_id (new_snapshot_id 999)) ≡ some 1000)
next_snapshot_id-new_snapshot_id_example = next_snapshot_id-new_snapshot_id 999

abbrev seven : ℕ
seven = 7

new_snapshot_id-injective_example : seven ≡ 3 + 4
new_snapshot_id-injective_example = new_snapshot_id-injective seven (3 + 4) refl

truncate_lem_example :
    (length (truncate (text "hello") 3) ≤ 3)
    × (truncate (text "hello") 3 ≡ (
        if leb (length (text "hello")) 3
        then text "hello"
        else take (3 - 1) (text "hello") ++ text "…"))
truncate_lem_example = truncate_lem (text "hello") 3 (omega arith)

-- The session changes at event 3, and a unit holds at most two events.
abbrev sessions : PartitionOptions
sessions = record {
  target_size = some 2;
  boundary_key = some (λ i. some (if leb 3 i then text "b" else text "a"));
}

abbrev unit : ℕ → (start end : ℕ) → RetrievalUnit
unit n start end = record {
  unit_id = unit_id (text "s") n;
  shard_id = text "s";
  start = start;
  end = end;
}

two_sessions :
    partition_into_units (text "s") 5 sessions ≡ unit 0 0 2 ∷ unit 1 2 3 ∷ unit 2 3 5 ∷ []
unfolding partition_into_units cut_at list_beq
two_sessions = refl

partition_into_units-Tiles_example :
    Tiles 0 5 (partition_into_units (text "s") 5 sessions)
    × All (IsUnit (text "s") sessions) (partition_into_units (text "s") 5 sessions)
partition_into_units-Tiles_example = partition_into_units-Tiles (text "s") 5 sessions

best_unit_score_lem_example :
    (best : ℕ) × (best_unit_score (2 ∷ 5 ∷ 3 ∷ []) ≡ some best)
    × Memᴰ best (2 ∷ 5 ∷ 3 ∷ [])
    × All (λ x. x ≤ best) (2 ∷ 5 ∷ 3 ∷ [])
best_unit_score_lem_example = best_unit_score_lem 2 (5 ∷ 3 ∷ [])

off_is_off : env_flag (some (text " OFF ")) (text "CSM_ROUTER_HYBRID") true ≡ ok false
unfolding env_flag list_beq
off_is_off = refl

typo_is_refused :
    env_flag (some (text "ture")) (text "CSM_ROUTER_HYBRID") true
    ≡ thrown
        (record { variable = text "CSM_ROUTER_HYBRID"; value = text "ture"; detail = not_a_flag })
unfolding env_flag list_beq
typo_is_refused = refl

abbrev six_hundred : ℕ
six_hundred = 600

abbrev budget : EnvIntOptions
budget = record { name = text "CSM_RECALL_BUDGET"; min = some 1; max = none }

env_int-range_example :
    (IsUnset (some (text "600")) × (six_hundred ≡ 1200))
    ⊎ (IsInteger (some (text "600")) six_hundred × IsInRange budget six_hundred)
unfolding env_int
env_int-range_example = env_int-range (some (text "600")) budget 1200 600 refl

env_flag-words_example :
    (includes (to_lower (trim (text "Yes"))) true_values ≡ true)
    × (env_flag (some (text "Yes")) (text "CSM_SIGNALS_RANKER") true ≡ ok true)
unfolding env_flag list_beq
env_flag-words_example =
    env_flag-words (text "Yes") (text "CSM_SIGNALS_RANKER") false true refl refl

almost_full : round2 (fullness_pct 127999 128000) ≡ 10000
unfolding round2 fullness_pct
almost_full = refl

abbrev likes_tea : MemoryEvent
likes_tea = record {
  event_id = text "e_0001";
  role = EventRole.user;
  content = text "likes tea";
  created_at = text "2026-01-01";
  importance = 500000;
  tags = [];
  source_conversation_id = none;
  source_message_id = none;
}

estimate_events_tokens-append_example :
    estimate_events_tokens (likes_tea ∷ [] ++ likes_tea ∷ [])
    ≡ estimate_events_tokens (likes_tea ∷ []) + estimate_events_tokens (likes_tea ∷ [])
estimate_events_tokens-append_example =
    estimate_events_tokens-append (likes_tea ∷ []) (likes_tea ∷ [])

a_slug : slugify (text "--My Notes, 2026!--") ≡ text "my-notes-2026"
unfolding slugify
a_slug = refl

slugify_lem_example :
    All IsSlugUnit (slugify (text "--My Notes, 2026!--"))
    × (length (slugify (text "--My Notes, 2026!--")) ≤ 60)
slugify_lem_example = slugify_lem (text "--My Notes, 2026!--")
