-- ===== src/Commit/Create.antt =====
-- Running `createShard` to its end, when nothing stands in the way.
use context_swarm_memory.Prelude.{◌+◌, ◌≡◌, none, some, [], ◌∷◌, ◌++◌}
use context_swarm_memory.Memory.{MemoryShardSnapshot, ShardManifest, ChronicleEvent}
use context_swarm_memory.Store.{
  upsert_directory_entry, write_snapshot, directory_or_empty, upsert_entry, put_snapshot,
}
use context_swarm_memory.Store.Disk.{◌>>=◌, World, ok, put}
use context_swarm_memory.Commit.{
  ShardInput, Written, create_shard, first_snapshot, first_manifest, first_entry, creation_note,
}

module _ (s : ShardInput) (w : World) where
  abbrev pub created_snapshot : MemoryShardSnapshot
  created_snapshot = first_snapshot s (w.clock w.ticks)

  abbrev pub created_manifest : ShardManifest
  created_manifest = first_manifest s (w.clock (w.ticks + 1)) (w.clock (w.ticks + 1 + 1))

  abbrev pub creation : ChronicleEvent
  creation =
      creation_note s created_snapshot (w.entropy (w.ticks + 1 + 1 + 1))
        (w.clock (w.ticks + 1 + 1 + 1 + 1))

  abbrev pub created : Written
  created = record {
    snapshot = created_snapshot;
    entry = first_entry s created_manifest;
    chronicle = creation;
  }

  abbrev pub after_create : World
  after_create = record w {
    snapshots = put_snapshot created_snapshot w.snapshots;
    manifests = put s.id created_manifest w.manifests;
    directory = some (record (directory_or_empty w.directory) {
      entries =
          upsert_entry (first_entry s created_manifest) (directory_or_empty w.directory).entries;
    });
    chronicle = w.chronicle ++ creation ∷ [];
    ticks = w.ticks + 1 + 1 + 1 + 1 + 1;
  }

  pub create-run :
      w.fuse ≡ none
      → w.manifests s.id ≡ none
      → w.snapshots s.id created_snapshot.snapshot_id ≡ none
      → create_shard s w ≡ (ok created, after_create)
  unfolding create_shard write_snapshot upsert_directory_entry first_snapshot first_manifest ◌>>=◌
  create-run unlit found free = rw (found, free, unlit)
