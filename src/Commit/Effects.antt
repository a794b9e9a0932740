-- ===== src/Commit/Effects.antt =====
-- The store behind an append and behind a new shard, as its readers find it.
use context_swarm_memory.Prelude.{
  ℕ, ◌+◌, ◌≡◌, refl, ap, ◌∙◌, false, none, some, [], ◌∷◌, ◌++◌, Text, ◌==◌, ==_refl, list_eq,
  nat_eq_inst, length,
}
use context_swarm_memory.Selection.{or_else}
use context_swarm_memory.Ids.{new_event_id, new_snapshot_id}
use context_swarm_memory.Memory.{
  MemoryEvent, MemoryShardSnapshot, ShardManifest, active, shard_created,
}
use context_swarm_memory.Store.Disk.{World}
use context_swarm_memory.Commit.{
  EventInput, Provenance, Written, ShardInput, appended_event, appended_snapshot, appended_manifest,
  appended_entry, append_note, first_snapshot, first_manifest, first_entry, creation_note,
}
use context_swarm_memory.Commit.Append.{written, after_append}
use context_swarm_memory.Commit.Create.{created, after_create, created_manifest}
use context_swarm_memory.Commit.Consistent.{IsTracked, IsUnused, listing}
use context_swarm_memory.Commit.Preserved.{next_stored, next_listed, born_stored, born_listed}
use context_swarm_memory.Commit.Outcomes.{next_name, next-free}

-- The event that a caller hands over, as the next one behind those of a snapshot.
pub record IsEventOf (input : EventInput) (prev : MemoryShardSnapshot) (e : MemoryEvent)
    : Type 0 where
  pub event_id : e.event_id ≡ new_event_id (length prev.events + 1)
  pub role : e.role ≡ input.role
  pub content : e.content ≡ input.content
  pub importance : e.importance ≡ or_else input.importance 500000
  pub tags : e.tags ≡ or_else input.tags []

-- The store after an append to a shard: one snapshot more, with one event more than the latest one.
pub record Extends (shard_id : Text) (input : EventInput) (p : Provenance) (w w' : World)
    (m : ShardManifest) (prev : MemoryShardSnapshot) (r : Written) : Type 0 where
  -- The event, behind all of the previous ones.
  pub added : MemoryEvent
  pub events : r.snapshot.events ≡ prev.events ++ added ∷ []
  pub is_event : IsEventOf input prev added
  pub system_prompt : r.snapshot.system_prompt ≡ prev.system_prompt
  pub summary : r.snapshot.summary ≡ prev.summary
  pub parent : r.snapshot.parent_snapshot_id ≡ some m.latest_snapshot_id
  -- The name, which was free, and what is stored under it and under the others.
  pub number : ℕ
  pub old_name : m.latest_snapshot_id ≡ new_snapshot_id number
  pub new_name : r.snapshot.snapshot_id ≡ new_snapshot_id (number + 1)
  pub was_free : w.snapshots shard_id r.snapshot.snapshot_id ≡ none
  pub stored : w'.snapshots shard_id r.snapshot.snapshot_id ≡ some r.snapshot
  pub others :
      (i : Text)
      → (r.snapshot.snapshot_id == i) ≡ false
      → w'.snapshots shard_id i ≡ w.snapshots shard_id i
  -- The manifest, the directory and the chronicle.
  pub manifest : ShardManifest
  pub saved : w'.manifests shard_id ≡ some manifest
  pub latest : manifest.latest_snapshot_id ≡ r.snapshot.snapshot_id
  pub names : manifest.snapshot_ids ≡ m.snapshot_ids ++ r.snapshot.snapshot_id ∷ []
  pub status : manifest.status ≡ active
  pub listed : listing w' shard_id ≡ some r.entry
  pub points : r.entry.snapshot_id ≡ r.snapshot.snapshot_id
  pub noted : w'.chronicle ≡ w.chronicle ++ r.chronicle ∷ []
  pub from : r.chronicle.old_snapshot_id ≡ some m.latest_snapshot_id
  pub to : r.chronicle.new_snapshot_id ≡ some r.snapshot.snapshot_id
  pub reason : r.chronicle.reason ≡ p.reason
  pub type : r.chronicle.type ≡ p.chronicle_type

pub after_append-Extends :
    (shard_id : Text) (event : EventInput) (p : Provenance) (w : World) (m : ShardManifest)
    (t : IsTracked w shard_id m)
    → m.status ≡ active
    → Extends shard_id event p w
        (after_append shard_id event p w m t.head)
        m
        t.head
        (written shard_id event p w m t.head)
unfolding appended_event appended_snapshot appended_manifest appended_entry append_note
after_append-Extends shard_id event p w m t live = record {
  added = appended_event t.head event (w.clock w.ticks);
  events = refl;
  is_event = record {
    event_id = refl;
    role = refl;
    content = refl;
    importance = refl;
    tags = refl;
  };
  system_prompt = refl;
  summary = refl;
  parent = ap some t.head_id;
  number = t.number;
  old_name = t.latest;
  new_name = next_name w shard_id m t;
  was_free = next-free w shard_id m t;
  stored = next_stored shard_id event p w m t;
  others = λ i ne. rw (==_refl shard_id, ne) refl;
  manifest = appended_manifest m (w.clock (w.ticks + 1 + 1));
  saved = rw (t.named, ==_refl shard_id) refl;
  latest = refl;
  names = refl;
  status = live;
  listed = next_listed shard_id event p w m t shard_id ∙ rw (==_refl shard_id);
  points = refl;
  noted = refl;
  from = ap some t.head_id;
  to = refl;
  reason = refl;
  type = refl;
}

-- The store after a new shard: an empty snapshot, and the files that name it.
pub record IsCreated (s : ShardInput) (w w' : World) (r : Written) : Type 0 where
  pub events : r.snapshot.events ≡ []
  pub system_prompt : r.snapshot.system_prompt ≡ s.system_prompt
  pub summary : r.snapshot.summary ≡ s.summary
  pub parent : r.snapshot.parent_snapshot_id ≡ none
  pub name : r.snapshot.snapshot_id ≡ new_snapshot_id 1
  pub stored : w'.snapshots s.id (new_snapshot_id 1) ≡ some r.snapshot
  pub alone : (i : Text) → (new_snapshot_id 1 == i) ≡ false → w'.snapshots s.id i ≡ none
  pub manifest : ShardManifest
  pub saved : w'.manifests s.id ≡ some manifest
  pub latest : manifest.latest_snapshot_id ≡ new_snapshot_id 1
  pub status : manifest.status ≡ active
  pub listed : listing w' s.id ≡ some r.entry
  pub points : r.entry.snapshot_id ≡ new_snapshot_id 1
  pub noted : w'.chronicle ≡ w.chronicle ++ r.chronicle ∷ []
  pub type : r.chronicle.type ≡ shard_created
  pub about : r.chronicle.target_shard_id ≡ some s.id

pub after_create-IsCreated :
    (s : ShardInput) (w : World) → IsUnused w s.id → IsCreated s w (after_create s w) (created s w)
unfolding first_snapshot first_manifest first_entry creation_note
after_create-IsCreated s w u = record {
  events = refl;
  system_prompt = refl;
  summary = refl;
  parent = refl;
  name = refl;
  stored = born_stored s w u;
  alone = λ i ne. rw (==_refl s.id, ne) (u.empty i);
  manifest = created_manifest s w;
  saved = rw (==_refl s.id) refl;
  latest = refl;
  status = refl;
  listed = born_listed s w u s.id ∙ rw (==_refl s.id);
  points = refl;
  noted = refl;
  type = refl;
  about = refl;
}
