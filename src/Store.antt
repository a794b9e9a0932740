-- ===== src/Store.antt =====
-- src/storage/jsonlStorage.ts: the durable files, and the operations on them.
-- A file is its parsed contents (what is stringified is what is parsed again); a manifest is found by
-- its shard's id, a snapshot by its shard's id and its own. Each write happens whole or not at all.
-- Directories are made on the way to a file, and are no part of the state.
-- The clock, the random ids and the point at which the process dies are the environment's: the world
-- holds what they will answer. One process writes at a time.
pub mod Disk
pub mod Laws
pub mod Keeps
use context_swarm_memory.Prelude.{
  ℕ, zero, suc, ◌+◌, Bool, true, false, not, Option, none, some, List, [], ◌∷◌, ◌++◌, if◌then◌else◌,
  any, Text, ◌==◌, list_eq, nat_eq_inst,
}
use context_swarm_memory.Memory.{
  MemoryDirectory, MemoryDirectoryEntry, MemoryShardSnapshot, ShardManifest, ChronicleEvent,
  ShardStatus,
}
use context_swarm_memory.Store.Disk.{
  Exec, World, Result, ok, err, immutable_snapshot, pure, raise, gets, guard, durable, ◌>>=◌, ◌>>◌,
  put,
}

-- A missing file reads as the directory with no entries.
abbrev pub directory_or_empty : Option MemoryDirectory → MemoryDirectory
directory_or_empty none = record { version = 1; entries = [] }
directory_or_empty (some d) = d

unfoldable pub load_directory : Exec MemoryDirectory
load_directory = gets (λ w. directory_or_empty w.directory)

unfoldable pub save_directory : MemoryDirectory → Exec Unit
save_directory dir = durable (λ w. record w { directory = some dir })

abbrev pub has_id : Text → MemoryDirectoryEntry → Bool
has_id id e = e.id == id

-- `dir.entries[ix] = entry` at the first entry with that id.
unfoldable pub replace_entry :
    MemoryDirectoryEntry → List MemoryDirectoryEntry → List MemoryDirectoryEntry
replace_entry entry [] = []
replace_entry entry (e ∷ es) = if has_id entry.id e then entry ∷ es else e ∷ replace_entry entry es

unfoldable pub upsert_entry :
    MemoryDirectoryEntry → List MemoryDirectoryEntry → List MemoryDirectoryEntry
unfolding replace_entry
upsert_entry entry es =
    if any (has_id entry.id) es then replace_entry entry es else es ++ entry ∷ []

unfoldable pub upsert_directory_entry : MemoryDirectoryEntry → Exec Unit
unfolding load_directory save_directory
upsert_directory_entry entry = do
  dir ← load_directory
  save_directory (record dir { entries = upsert_entry entry dir.entries })

unfoldable pub load_manifest : Text → Exec (Option ShardManifest)
load_manifest shard_id = gets (λ w. w.manifests shard_id)

unfoldable pub save_manifest : ShardManifest → Exec Unit
save_manifest manifest =
    durable (λ w. record w { manifests = put manifest.id manifest w.manifests })

unfoldable pub load_snapshot : Text → Text → Exec (Option MemoryShardSnapshot)
load_snapshot shard_id snapshot_id = gets (λ w. w.snapshots shard_id snapshot_id)

abbrev pub is_absent {ℓ} : {A : Type ℓ} → Option A → Bool
is_absent none = true
is_absent (some a) = false

abbrev pub put_snapshot :
    MemoryShardSnapshot
    → (Text → Text → Option MemoryShardSnapshot)
    → Text
    → Text
    → Option MemoryShardSnapshot
put_snapshot s files shard_id =
    if s.shard_id == shard_id then put s.snapshot_id s (files shard_id) else files shard_id

unfoldable pub write_snapshot : MemoryShardSnapshot → Exec Unit
unfolding load_snapshot
write_snapshot s = do
  there ← load_snapshot s.shard_id s.snapshot_id
  guard (is_absent there) (immutable_snapshot s.shard_id s.snapshot_id)
  durable (λ w. record w { snapshots = put_snapshot s w.snapshots })

unfoldable pub append_chronicle : ChronicleEvent → Exec Unit
append_chronicle event = durable (λ w. record w { chronicle = w.chronicle ++ event ∷ [] })
