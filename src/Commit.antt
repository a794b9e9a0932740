-- ===== src/Commit.antt =====
-- src/core/commit.ts: the one way in which durable memory changes.
-- The records that a handler builds are functions of their own, and the handlers the sequences of
-- reads, checks and writes around them.
pub mod Decision
pub mod Append
pub mod Create
pub mod Freeze
pub mod Consistent
pub mod Preserved
pub mod Outcomes
pub mod Effects
pub mod Contracts
pub mod Crash
pub mod Endures
pub mod History
pub mod Remembered
pub mod Refines
pub mod Sound
pub mod Calm
pub mod Guards
pub mod Performed
mod Tests
use context_swarm_memory.Prelude.{
  ℕ, zero, suc, ◌+◌, Bool, true, false, not, ◌&&◌, ◌||◌, Option, none, some, List, [], ◌∷◌, ◌++◌,
  map, if◌then◌else◌, any, find, length, Text, text, to_lower, ◌==◌, list_eq, nat_eq_inst,
}
use context_swarm_memory.Selection.{dedupe_in_order, or_else}
use context_swarm_memory.Ids.{new_event_id, new_snapshot_id, next_snapshot_id}
use context_swarm_memory.Budget.{estimate_events_tokens, fullness_pct, round2}
use context_swarm_memory.Memory.{
  ShardStatus, active, frozen, archived, deleted, TrustLevel, Staleness, current, CommitAction,
  write, update, split, merge, freeze, no_op, ask_confirmation, CommitDecision, EventRole,
  commit_note, MemoryDirectory, MemoryDirectoryEntry, TimeRange, MemoryEvent, MemoryShardSnapshot,
  ShardManifest, ChronicleType, shard_created, commit_write, commit_update, shard_frozen, Actor,
  ChronicleEvent,
}
use context_swarm_memory.Store.{
  load_directory, save_directory, upsert_directory_entry, has_id, load_manifest, save_manifest,
  load_snapshot, write_snapshot, append_chronicle, is_absent,
}
use context_swarm_memory.Store.Disk.{
  Exec, World, Result, ok, err, Error, shard_not_found, shard_not_active, snapshot_missing,
  orphan_snapshot, shard_exists, pure, raise, require, guard, now_iso, new_chronicle_id, ◌>>=◌,
  ◌>>◌,
}

-- `[...new Set(arr.map((s) => s.toLowerCase()))]`
unfoldable pub dedupe : List Text → List Text
unfolding dedupe_in_order to_lower
dedupe arr = dedupe_in_order (map to_lower arr)

unfoldable pub is_active : ShardStatus → Bool
is_active active = true
is_active _ = false

-- A text that is absent or empty is left out.
unfoldable pub if_truthy : Option Text → Option Text
if_truthy none = none
if_truthy (some []) = none
if_truthy (some (c ∷ s)) = some (c ∷ s)

-- The argument `event` of `appendEventAndSnapshot`.
pub record EventInput : Type 0 where
  pub role : EventRole
  pub content : Text
  pub importance : Option ℕ
  pub tags : Option (List Text)
  pub source_conversation_id : Option Text
  pub source_message_id : Option Text

unfoldable pub appended_event : MemoryShardSnapshot → EventInput → Text → MemoryEvent
appended_event prev e now = record {
  event_id = new_event_id (length prev.events + 1);
  role = e.role;
  content = e.content;
  created_at = now;
  importance = or_else e.importance 500000;
  tags = or_else e.tags [];
  source_conversation_id = if_truthy e.source_conversation_id;
  source_message_id = if_truthy e.source_message_id;
}

unfoldable pub appended_snapshot :
    Text → ShardManifest → MemoryShardSnapshot → MemoryEvent → Text → MemoryShardSnapshot
appended_snapshot shard_id manifest prev e now = record {
  shard_id = shard_id;
  snapshot_id = next_snapshot_id manifest.latest_snapshot_id;
  system_prompt = prev.system_prompt;
  summary = prev.summary;
  events = prev.events ++ e ∷ [];
  index_terms = dedupe (prev.index_terms ++ e.tags);
  created_at = now;
  parent_snapshot_id = some prev.snapshot_id;
}

unfoldable pub appended_manifest : ShardManifest → Text → ShardManifest
appended_manifest manifest now =
    let new_id = next_snapshot_id manifest.latest_snapshot_id in
    record manifest {
      latest_snapshot_id = new_id;
      snapshot_ids = manifest.snapshot_ids ++ new_id ∷ [];
      updated_at = now;
    }

-- A field of an entry that may not be there: `existing?.f ?? d`.
abbrev from_entry : {A : Type 0} → (MemoryDirectoryEntry → A) → Option MemoryDirectoryEntry → A → A
from_entry f none d = d
from_entry f (some e) d = f e

abbrev time_range_of : Option MemoryDirectoryEntry → Option TimeRange
time_range_of none = none
time_range_of (some e) = e.time_range

unfoldable pub appended_entry :
    Text
    → ShardManifest
    → MemoryShardSnapshot
    → MemoryShardSnapshot
    → MemoryEvent
    → Option MemoryDirectoryEntry
    → Text
    → MemoryDirectoryEntry
appended_entry shard_id manifest prev new e existing now =
    let tokens = estimate_events_tokens new.events in
    let context_limit =
      from_entry (λ x. x.context_limit_estimate) existing manifest.context_limit_estimate in
    record {
      id = shard_id;
      name = manifest.name;
      description = manifest.description;
      tags = dedupe (from_entry (λ x. x.tags) existing manifest.tags ++ e.tags);
      created_at = from_entry (λ x. x.created_at) existing manifest.created_at;
      updated_at = now;
      time_range = time_range_of existing;
      status = manifest.status;
      snapshot_id = new.snapshot_id;
      token_count_estimate = tokens;
      context_limit_estimate = context_limit;
      fullness_pct = round2 (fullness_pct tokens context_limit);
      summary_short = from_entry (λ x. x.summary_short) existing prev.summary;
      known_conflicts = from_entry (λ x. x.known_conflicts) existing [];
      parent_id = manifest.parent_id;
      children = manifest.children;
      trust_level = from_entry (λ x. x.trust_level) existing manifest.trust_level;
      staleness = from_entry (λ x. x.staleness) existing current;
    }

pub record Written : Type 0 where
  pub snapshot : MemoryShardSnapshot
  pub entry : MemoryDirectoryEntry
  pub chronicle : ChronicleEvent

-- What `appendEventAndSnapshot` is told besides the shard and the event.
pub record Provenance : Type 0 where
  pub reason : Text
  pub actor : Actor
  pub chronicle_type : ChronicleType

unfoldable pub append_note :
    Text → MemoryShardSnapshot → MemoryShardSnapshot → Provenance → Text → Text → ChronicleEvent
append_note shard_id prev new p id now = record {
  chronicle_id = id;
  type = p.chronicle_type;
  created_at = now;
  target_shard_id = some shard_id;
  old_snapshot_id = some prev.snapshot_id;
  new_snapshot_id = some new.snapshot_id;
  reason = p.reason;
  actor = p.actor;
}

unfoldable pub append_event_and_snapshot : Text → EventInput → Provenance → Exec Written
unfolding load_manifest load_snapshot write_snapshot save_manifest load_directory
    upsert_directory_entry append_chronicle
append_event_and_snapshot shard_id event p = do
  found ← load_manifest shard_id
  manifest ← require found (shard_not_found shard_id)
  guard (is_active manifest.status) (shard_not_active shard_id manifest.status)
  latest ← load_snapshot shard_id manifest.latest_snapshot_id
  prev ← require latest (snapshot_missing shard_id manifest.latest_snapshot_id)
  event_at ← now_iso
  let new_event = appended_event prev event event_at
  snapshot_at ← now_iso
  let new_snapshot = appended_snapshot shard_id manifest prev new_event snapshot_at
  orphan ← load_snapshot shard_id new_snapshot.snapshot_id
  guard (is_absent orphan) (orphan_snapshot shard_id new_snapshot.snapshot_id)
  write_snapshot new_snapshot
  manifest_at ← now_iso
  save_manifest (appended_manifest manifest manifest_at)
  dir ← load_directory
  let existing = find (has_id shard_id) dir.entries
  entry_at ← now_iso
  let entry = appended_entry shard_id manifest prev new_snapshot new_event existing entry_at
  upsert_directory_entry entry
  chronicle_id ← new_chronicle_id
  chronicle_at ← now_iso
  let chronicle = append_note shard_id prev new_snapshot p chronicle_id chronicle_at
  append_chronicle chronicle
  pure (record { snapshot = new_snapshot; entry = entry; chronicle = chronicle })

-- The arguments of `createShard`.
pub record ShardInput : Type 0 where
  pub id : Text
  pub name : Text
  pub description : Text
  pub tags : List Text
  pub system_prompt : Text
  pub summary : Text
  pub context_limit_estimate : Option ℕ
  pub trust_level : Option TrustLevel

unfoldable pub first_snapshot : ShardInput → Text → MemoryShardSnapshot
first_snapshot s now = record {
  shard_id = s.id;
  snapshot_id = new_snapshot_id 1;
  system_prompt = s.system_prompt;
  summary = s.summary;
  events = [];
  index_terms = dedupe s.tags;
  created_at = now;
  parent_snapshot_id = none;
}

unfoldable pub first_manifest : ShardInput → Text → Text → ShardManifest
first_manifest s created updated = record {
  id = s.id;
  name = s.name;
  description = s.description;
  tags = s.tags;
  created_at = created;
  updated_at = updated;
  status = active;
  latest_snapshot_id = new_snapshot_id 1;
  snapshot_ids = new_snapshot_id 1 ∷ [];
  context_limit_estimate = or_else s.context_limit_estimate 128000;
  trust_level = or_else s.trust_level TrustLevel.user_memory;
  parent_id = none;
  children = [];
}

unfoldable pub first_entry : ShardInput → ShardManifest → MemoryDirectoryEntry
first_entry s manifest = record {
  id = s.id;
  name = s.name;
  description = s.description;
  tags = s.tags;
  created_at = manifest.created_at;
  updated_at = manifest.updated_at;
  time_range = none;
  status = active;
  snapshot_id = manifest.latest_snapshot_id;
  token_count_estimate = 0;
  context_limit_estimate = manifest.context_limit_estimate;
  fullness_pct = 0;
  summary_short = s.summary;
  known_conflicts = [];
  parent_id = none;
  children = [];
  trust_level = manifest.trust_level;
  staleness = current;
}

unfoldable pub creation_note : ShardInput → MemoryShardSnapshot → Text → Text → ChronicleEvent
creation_note s snapshot id now = record {
  chronicle_id = id;
  type = shard_created;
  created_at = now;
  target_shard_id = some s.id;
  old_snapshot_id = none;
  new_snapshot_id = some snapshot.snapshot_id;
  reason = text "Created shard " ++ s.id ++ text " (" ++ s.name ++ text ")";
  actor = Actor.user;
}

unfoldable pub create_shard : ShardInput → Exec Written
unfolding load_manifest write_snapshot save_manifest upsert_directory_entry append_chronicle
create_shard s = do
  existing ← load_manifest s.id
  guard (is_absent existing) (shard_exists s.id)
  snapshot_at ← now_iso
  let snapshot = first_snapshot s snapshot_at
  write_snapshot snapshot
  created_at ← now_iso
  updated_at ← now_iso
  let manifest = first_manifest s created_at updated_at
  save_manifest manifest
  let entry = first_entry s manifest
  upsert_directory_entry entry
  chronicle_id ← new_chronicle_id
  chronicle_at ← now_iso
  let chronicle = creation_note s snapshot chronicle_id chronicle_at
  append_chronicle chronicle
  pure (record { snapshot = snapshot; entry = entry; chronicle = chronicle })
