-- ===== src/Commit/Crash.antt =====
-- A crash between the two first writes of an append.
use context_swarm_memory.Prelude.{◌+◌, ◌≡◌, true, none, some, Text, ==_refl, list_eq, nat_eq_inst}
use context_swarm_memory.Memory.{MemoryShardSnapshot, ShardManifest}
use context_swarm_memory.Ids.{next_snapshot_id}
use context_swarm_memory.Store.{put_snapshot}
use context_swarm_memory.Store.Disk.{◌>>=◌, World, err, crashed, orphan_snapshot}
use context_swarm_memory.Commit.{
  EventInput, Provenance, append_event_and_snapshot, appended_snapshot, is_active,
}
use context_swarm_memory.Commit.Append.{new_snapshot}
use context_swarm_memory.Commit.Consistent.{IsConsistent}
use context_swarm_memory.Commit.Outcomes.{tracked, next-free, next-ne-latest}

module _ (shard_id : Text) (event : EventInput) (p : Provenance) (w : World) (m : ShardManifest)
    (prev : MemoryShardSnapshot) where
  -- The snapshot is written, and nothing else.
  abbrev pub orphaned : World
  orphaned = record w {
    snapshots = put_snapshot (new_snapshot shard_id event p w m prev) w.snapshots;
    ticks = w.ticks + 1 + 1 + 1;
    fuse = some 0;
  }

  abbrev pub restarted : World
  restarted = record orphaned { fuse = none }

  append-crash :
      w.fuse ≡ some 1
      → w.manifests shard_id ≡ some m
      → is_active m.status ≡ true
      → w.snapshots shard_id m.latest_snapshot_id ≡ some prev
      → w.snapshots shard_id (next_snapshot_id m.latest_snapshot_id) ≡ none
      → append_event_and_snapshot shard_id event p w ≡ (err crashed, orphaned)
  unfolding append_event_and_snapshot appended_snapshot ◌>>=◌
  append-crash lit found live latest free = rw (found, live, latest, free, free, lit)

module _ (shard_id : Text) (event : EventInput) (p : Provenance) (w : World) (m : ShardManifest)
    (found : w.manifests shard_id ≡ some m) (live : is_active m.status ≡ true)
    (orphan prev : MemoryShardSnapshot) where
  -- Where the next name is taken, an append is refused, and no file changes.
  append-orphan :
      w.snapshots shard_id m.latest_snapshot_id ≡ some prev
      → w.snapshots shard_id (next_snapshot_id m.latest_snapshot_id) ≡ some orphan
      → append_event_and_snapshot shard_id event p w ≡ (
        err (orphan_snapshot shard_id (next_snapshot_id m.latest_snapshot_id)),
        record w { ticks = w.ticks + 1 + 1 },
      )
  unfolding append_event_and_snapshot appended_snapshot ◌>>=◌
  append-orphan latest taken = rw (found, live, latest, taken)

-- In a consistent store the process dies in an append to an active shard, between the write of the
-- snapshot and that of the manifest. After a restart, the next append to the shard is refused with
-- the name of the orphan, whatever its event, and changes no file.
pub append_event_and_snapshot-orphan :
    (shard_id : Text) (event later : EventInput) (p q : Provenance) (w : World) (m : ShardManifest)
    → IsConsistent w
    → w.fuse ≡ some 1
    → w.manifests shard_id ≡ some m
    → is_active m.status ≡ true
    → (prev : MemoryShardSnapshot) × (append_event_and_snapshot shard_id event p w
        ≡ (err crashed, orphaned shard_id event p w m prev))
      × (append_event_and_snapshot shard_id later q (restarted shard_id event p w m prev) ≡ (
        err (orphan_snapshot shard_id (next_snapshot_id m.latest_snapshot_id)),
        record (restarted shard_id event p w m prev) { ticks = w.ticks + 1 + 1 + 1 + 1 + 1 },
      ))
unfolding appended_snapshot
append_event_and_snapshot-orphan shard_id event later p q w m c lit found live =
    let t = tracked shard_id m c found in
    let prev = t.head in
    let r = restarted shard_id event p w m prev in
    (
      prev,
      append-crash shard_id event p w m prev lit found live t.stored (next-free w shard_id m t),
      append-orphan shard_id later q r m found live (new_snapshot shard_id event p w m prev) prev
          (rw (==_refl shard_id, next-ne-latest w shard_id m t) t.stored)
          (rw (==_refl shard_id, ==_refl (next_snapshot_id m.latest_snapshot_id))),
    )
