-- ===== src/Commit/Append.antt =====
-- Running `appendEventAndSnapshot` to its end, when nothing stands in the way.
use context_swarm_memory.Prelude.{
  ◌+◌, ◌≡◌, true, none, some, [], ◌∷◌, ◌++◌, find, Text, list_eq, nat_eq_inst,
}
use context_swarm_memory.Memory.{
  MemoryShardSnapshot, ShardManifest, MemoryEvent, MemoryDirectoryEntry,
}
use context_swarm_memory.Store.{
  directory_or_empty, upsert_entry, has_id, put_snapshot, write_snapshot, upsert_directory_entry,
}
use context_swarm_memory.Store.Disk.{◌>>=◌, World, ok, put}
use context_swarm_memory.Commit.{
  EventInput, Provenance, Written, append_event_and_snapshot, appended_event, appended_snapshot,
  appended_manifest, appended_entry, append_note, is_active,
}

module _ (shard_id : Text) (event : EventInput) (p : Provenance) (w : World) (m : ShardManifest)
    (prev : MemoryShardSnapshot) where
  abbrev pub new_event : MemoryEvent
  new_event = appended_event prev event (w.clock w.ticks)

  abbrev pub new_snapshot : MemoryShardSnapshot
  new_snapshot = appended_snapshot shard_id m prev new_event (w.clock (w.ticks + 1))

  abbrev pub new_entry : MemoryDirectoryEntry
  new_entry =
      appended_entry shard_id m prev new_snapshot new_event
        (find (has_id shard_id) (directory_or_empty w.directory).entries)
        (w.clock (w.ticks + 1 + 1 + 1))

  abbrev pub written : Written
  written = record {
    snapshot = new_snapshot;
    entry = new_entry;
    chronicle =
        append_note shard_id prev new_snapshot p (w.entropy (w.ticks + 1 + 1 + 1 + 1))
          (w.clock (w.ticks + 1 + 1 + 1 + 1 + 1));
  }

  -- The world behind the four writes.
  abbrev pub after_append : World
  after_append = record w {
    snapshots = put_snapshot new_snapshot w.snapshots;
    manifests = put m.id (appended_manifest m (w.clock (w.ticks + 1 + 1))) w.manifests;
    directory = some (record (directory_or_empty w.directory) {
      entries = upsert_entry new_entry (directory_or_empty w.directory).entries;
    });
    chronicle = w.chronicle ++ written.chronicle ∷ [];
    ticks = w.ticks + 1 + 1 + 1 + 1 + 1 + 1;
  }

  pub append-run :
      w.fuse ≡ none
      → w.manifests shard_id ≡ some m
      → is_active m.status ≡ true
      → w.snapshots shard_id m.latest_snapshot_id ≡ some prev
      → w.snapshots shard_id new_snapshot.snapshot_id ≡ none
      → append_event_and_snapshot shard_id event p w ≡ (ok written, after_append)
  unfolding append_event_and_snapshot write_snapshot upsert_directory_entry appended_snapshot
      appended_manifest ◌>>=◌
  append-run unlit found live latest free = rw (found, live, latest, free, free, unlit)
