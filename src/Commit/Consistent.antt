-- ===== src/Commit/Consistent.antt =====
-- The shards of a store that no crash has interrupted: manifest, snapshots and directory agree.
use context_swarm_memory.Prelude.{
  ℕ, ◌+◌, ◌≡◌, ◌∙◌, false, Option, none, some, if◌then◌else◌, find, All, All_mono, Text, ◌==◌,
  ==_iff, list_eq, nat_eq_inst, Bool-cases, inl, inr, subst,
}
use context_swarm_memory.Ids.{new_snapshot_id}
use context_swarm_memory.Memory.{MemoryShardSnapshot, ShardManifest, MemoryDirectoryEntry}
use context_swarm_memory.Store.{directory_or_empty, has_id, is_absent}
use context_swarm_memory.Store.Disk.{World}

abbrev pub listing : World → Text → Option MemoryDirectoryEntry
listing w id = find (has_id id) (directory_or_empty w.directory).entries

-- A shard with its manifest: the latest snapshot is stored under the name that carries its number,
-- no snapshot is stored under a later one, every named snapshot is stored, and the directory points
-- at the latest snapshot with the manifest's status.
pub record IsTracked (w : World) (id : Text) (m : ShardManifest) : Type 0 where
  pub named : m.id ≡ id
  pub number : ℕ
  pub latest : m.latest_snapshot_id ≡ new_snapshot_id number
  pub head : MemoryShardSnapshot
  pub stored : w.snapshots id m.latest_snapshot_id ≡ some head
  pub head_id : head.snapshot_id ≡ m.latest_snapshot_id
  pub free : (k : ℕ) → w.snapshots id (new_snapshot_id (number + 1 + k)) ≡ none
  pub complete : All (λ i. is_absent (w.snapshots id i) ≡ false) m.snapshot_ids
  pub entry : MemoryDirectoryEntry
  pub listed : listing w id ≡ some entry
  pub points : entry.snapshot_id ≡ m.latest_snapshot_id
  pub status : entry.status ≡ m.status

-- A name that no manifest has: nothing is stored under it.
pub record IsUnused (w : World) (id : Text) : Type 0 where
  pub empty : (i : Text) → w.snapshots id i ≡ none
  pub unlisted : listing w id ≡ none

abbrev pub IsShard : World → Text → Option ShardManifest → Type 0
IsShard w id none = IsUnused w id
IsShard w id (some m) = IsTracked w id m

pub record IsConsistent (w : World) : Type 0 where
  pub shard : (id : Text) → IsShard w id (w.manifests id)

-- Worlds that agree about a shard.
module _ (w w' : World) (id : Text) (snapshots : (i : Text) → w'.snapshots id i ≡ w.snapshots id i)
    (entries : listing w' id ≡ listing w id) where
  IsShard-same : (o : Option ShardManifest) → IsShard w id o → IsShard w' id o
  IsShard-same none h = record {
    empty = λ i. snapshots i ∙ h.empty i;
    unlisted = entries ∙ h.unlisted;
  }
  IsShard-same (some m) h = record {
    named = h.named;
    number = h.number;
    latest = h.latest;
    head = h.head;
    stored = snapshots _ ∙ h.stored;
    head_id = h.head_id;
    free = λ k. snapshots _ ∙ h.free k;
    complete = All_mono _ _ m.snapshot_ids (λ i e. rw (snapshots i) e) h.complete;
    entry = h.entry;
    listed = entries ∙ h.listed;
    points = h.points;
    status = h.status;
  }

-- An operation that rewrites one shard and leaves it tracked keeps the store consistent.
module _ (w w' : World) (s : Text) (m' : ShardManifest) (e' : MemoryDirectoryEntry)
    (manifests : (id : Text) → w'.manifests id ≡ (if s == id then some m' else w.manifests id))
    (snapshots : (id i : Text) → (s == id) ≡ false → w'.snapshots id i ≡ w.snapshots id i)
    (entries : (id : Text) → listing w' id ≡ (if s == id then some e' else listing w id))
    (tracked : IsTracked w' s m') where
  update-IsShard : (id : Text) → IsShard w id (w.manifests id) → IsShard w' id (w'.manifests id)
  update-IsShard id h = elim (Bool-cases (s == id)) [
    | inl e ↦ rw (manifests id, e) (subst (λ j. IsTracked w' j m') ((==_iff s id).0 e) tracked)
    | inr e ↦
        rw (manifests id, e)
          (IsShard-same w w' id (λ i. snapshots id i e) (rw (entries id, e)) (w.manifests id) h)
  ]

  pub update-IsConsistent : IsConsistent w → IsConsistent w'
  update-IsConsistent c = record { shard = λ id. update-IsShard id (c.shard id) }
