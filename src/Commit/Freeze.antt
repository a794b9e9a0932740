-- ===== src/Commit/Freeze.antt =====
-- Running the freeze of `applyCommitDecision` to its end, when nothing stands in the way.
use context_swarm_memory.Prelude.{
  ◌+◌, ◌≡◌, Bool, true, none, some, List, [], ◌∷◌, ◌++◌, Text, text, any, if◌then◌else◌, find,
  arith, ==_iff, list_eq, nat_eq_inst, ◌==◌,
}
use context_swarm_memory.Memory.{
  ShardManifest, MemoryDirectoryEntry, ChronicleEvent, shard_frozen, Actor, frozen,
}
use context_swarm_memory.Store.{directory_or_empty, has_id}
use context_swarm_memory.Store.Disk.{◌>>=◌, World, ok, put}
use context_swarm_memory.Commit.Decision.{freeze_shard, frozen_manifest, freeze_entry}

pub find-freeze_entry :
    (shard_id now id : Text) (es : List MemoryDirectoryEntry) (e : MemoryDirectoryEntry)
    → find (has_id shard_id) es ≡ some e
    → find (has_id id) (freeze_entry shard_id now es) ≡ (
        if shard_id == id
        then some (record e { status = frozen; updated_at = now })
        else find (has_id id) es)
unfolding freeze_entry
find-freeze_entry shard_id now id [] e h = cc
find-freeze_entry shard_id now id (x ∷ es) e h = ground (
  arith,
  ==_iff x.id shard_id,
  ==_iff x.id id,
  ==_iff shard_id id,
  find-freeze_entry shard_id now id es e,
)

pub any_of_find :
    (p : MemoryDirectoryEntry → Bool) (es : List MemoryDirectoryEntry) {e : MemoryDirectoryEntry}
    → find p es ≡ some e
    → any p es ≡ true
any_of_find p [] h = cc
any_of_find p (x ∷ es) {e} h = ground (arith, any_of_find p es {e = e})

module _ (shard_id : Text) (m : ShardManifest) (w : World) where
  abbrev pub freeze_note : ChronicleEvent
  freeze_note = record {
    chronicle_id = w.entropy (w.ticks + 1 + 1);
    type = shard_frozen;
    created_at = w.clock (w.ticks + 1 + 1 + 1);
    target_shard_id = some shard_id;
    old_snapshot_id = none;
    new_snapshot_id = none;
    reason = text "Committer:freeze";
    actor = Actor.committer;
  }

  abbrev pub after_freeze : World
  after_freeze = record w {
    manifests = put m.id (frozen_manifest m (w.clock w.ticks)) w.manifests;
    directory = some (record (directory_or_empty w.directory) {
      entries =
          freeze_entry shard_id (w.clock (w.ticks + 1)) (directory_or_empty w.directory).entries;
    });
    chronicle = w.chronicle ++ freeze_note ∷ [];
    ticks = w.ticks + 1 + 1 + 1 + 1;
  }

  pub freeze-run :
      (description : Text)
      → w.fuse ≡ none
      → any (has_id shard_id) (directory_or_empty w.directory).entries ≡ true
      → freeze_shard shard_id description (some m) w
        ≡ (ok (record { applied = true; description = description }), after_freeze)
  unfolding freeze_shard freeze_entry frozen_manifest ◌>>=◌
  freeze-run description unlit listed = rw (unlit, listed)
