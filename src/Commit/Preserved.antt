-- ===== src/Commit/Preserved.antt =====
-- The operations keep the store consistent.
use context_swarm_memory.Prelude.{
  ℕ, ◌+◌, ◌≡◌, refl, ap, ◌∙◌, false, Option, none, some, [], ◌∷◌, arith, if◌then◌else◌, All-append,
  All_mono, Text, ◌==◌, ==_iff, ==_refl, list_eq, nat_eq_inst, Bool-cases, inl, inr, subst,
}
use context_swarm_memory.Ids.{new_snapshot_id, next_snapshot_id}
use context_swarm_memory.Ids.RoundTrip.{next_snapshot_id-new_snapshot_id, new_snapshot_id-injective}
use context_swarm_memory.Memory.{MemoryShardSnapshot, ShardManifest, MemoryDirectoryEntry, frozen}
use context_swarm_memory.Store.{is_absent, put_snapshot}
use context_swarm_memory.Store.Laws.{find-upsert_entry, put_snapshot_lem}
use context_swarm_memory.Store.Disk.{World}
use context_swarm_memory.Commit.{
  EventInput, Provenance, ShardInput, appended_snapshot, appended_manifest, appended_entry,
  first_snapshot, first_manifest, first_entry,
}
use context_swarm_memory.Commit.Append.{after_append, new_snapshot, new_entry}
use context_swarm_memory.Commit.Create.{after_create, created_manifest, created_snapshot}
use context_swarm_memory.Commit.Freeze.{after_freeze, find-freeze_entry}
use context_swarm_memory.Commit.Decision.{frozen_manifest}
use context_swarm_memory.Commit.Consistent.{
  IsConsistent, IsTracked, IsUnused, listing, update-IsConsistent,
}

-- Snapshot names that stand further on are other names.
later_name : (n k : ℕ) → (new_snapshot_id (n + 1) == new_snapshot_id (n + 1 + 1 + k)) ≡ false
later_name n k = elim (Bool-cases (new_snapshot_id (n + 1) == new_snapshot_id (n + 1 + 1 + k))) [
  | inl e ↦ absurd (omega (arith, new_snapshot_id-injective _ _ ((==_iff _ _).0 e)))
  | inr e ↦ e
]

-- A stored snapshot stays stored.
put_snapshot-kept :
    (s : MemoryShardSnapshot) (files : Text → Text → Option MemoryShardSnapshot) (id i : Text)
    → is_absent (files id i) ≡ false
    → is_absent (put_snapshot s files id i) ≡ false
put_snapshot-kept s files id i h = rw (put_snapshot_lem s files id i) (ground arith)

module _ (shard_id : Text) (event : EventInput) (p : Provenance) (w : World) (m : ShardManifest)
    (t : IsTracked w shard_id m) where
  abbrev pub next : World
  next = after_append shard_id event p w m t.head

  abbrev snap : MemoryShardSnapshot
  snap = new_snapshot shard_id event p w m t.head

  abbrev next_manifest : ShardManifest
  next_manifest = appended_manifest m (w.clock (w.ticks + 1 + 1))

  new_name : next_snapshot_id m.latest_snapshot_id ≡ new_snapshot_id (t.number + 1)
  new_name = ap next_snapshot_id t.latest ∙ (next_snapshot_id-new_snapshot_id t.number).0

  pub next_stored : next.snapshots shard_id (next_snapshot_id m.latest_snapshot_id) ≡ some snap
  unfolding appended_snapshot
  next_stored = rw (==_refl shard_id, ==_refl (next_snapshot_id m.latest_snapshot_id))

  next_free : (k : ℕ) → next.snapshots shard_id (new_snapshot_id (t.number + 1 + 1 + k)) ≡ none
  unfolding appended_snapshot
  next_free k =
      rw (==_refl shard_id, new_name, later_name t.number k)
        (subst (λ n. w.snapshots shard_id (new_snapshot_id n) ≡ none) (omega arith)
          (t.free (1 + k)))

  pub next_listed :
      (id : Text)
      → listing next id
        ≡ (if shard_id == id then some (new_entry shard_id event p w m t.head) else listing w id)
  unfolding appended_entry
  next_listed id = find-upsert_entry id (new_entry shard_id event p w m t.head) _

  next-IsTracked : IsTracked next shard_id next_manifest
  unfolding appended_manifest appended_snapshot appended_entry
  next-IsTracked = record {
    named = t.named;
    number = t.number + 1;
    latest = new_name;
    head = snap;
    stored = next_stored;
    head_id = refl;
    free = next_free;
    complete =
        All-append _ m.snapshot_ids (next_snapshot_id m.latest_snapshot_id ∷ [])
          (All_mono _ _ m.snapshot_ids (λ i e. put_snapshot-kept snap w.snapshots shard_id i e)
            t.complete)
          (rw next_stored refl, tt);
    entry = new_entry shard_id event p w m t.head;
    listed = next_listed shard_id ∙ rw (==_refl shard_id);
    points = refl;
    status = refl;
  }

  pub after_append-IsConsistent : IsConsistent w → IsConsistent next
  unfolding appended_manifest appended_snapshot
  after_append-IsConsistent =
      update-IsConsistent w next shard_id next_manifest (new_entry shard_id event p w m t.head)
        (λ id. ap (λ (k : Text). if k == id then some next_manifest else w.manifests id) t.named)
        (λ id i e. rw e) next_listed next-IsTracked

module _ (s : ShardInput) (w : World) (u : IsUnused w s.id) where
  abbrev pub born : World
  born = after_create s w

  abbrev born_manifest : ShardManifest
  born_manifest = created_manifest s w

  abbrev born_snapshot : MemoryShardSnapshot
  born_snapshot = created_snapshot s w

  pub born_stored : born.snapshots s.id (new_snapshot_id 1) ≡ some born_snapshot
  unfolding first_snapshot
  born_stored = rw (==_refl s.id, ==_refl (new_snapshot_id 1))

  born_free : (k : ℕ) → born.snapshots s.id (new_snapshot_id (1 + 1 + k)) ≡ none
  unfolding first_snapshot
  born_free k = rw (==_refl s.id, later_name 0 k) (u.empty (new_snapshot_id (1 + 1 + k)))

  pub born_listed :
      (id : Text)
      → listing born id ≡ (if s.id == id then some (first_entry s born_manifest) else listing w id)
  unfolding first_entry
  born_listed id = find-upsert_entry id (first_entry s born_manifest) _

  born-IsTracked : IsTracked born s.id born_manifest
  unfolding first_manifest first_snapshot first_entry
  born-IsTracked = record {
    named = refl;
    number = 1;
    latest = refl;
    head = born_snapshot;
    stored = born_stored;
    head_id = refl;
    free = born_free;
    complete = (rw born_stored refl, tt);
    entry = first_entry s born_manifest;
    listed = born_listed s.id ∙ rw (==_refl s.id);
    points = refl;
    status = refl;
  }

  pub after_create-IsConsistent : IsConsistent w → IsConsistent born
  unfolding first_manifest first_snapshot
  after_create-IsConsistent =
      update-IsConsistent w born s.id born_manifest (first_entry s born_manifest) (λ id. refl)
        (λ id i e. rw e) born_listed born-IsTracked

module _ (shard_id : Text) (w : World) (m : ShardManifest) (t : IsTracked w shard_id m) where
  abbrev pub still : World
  still = after_freeze shard_id m w

  abbrev still_manifest : ShardManifest
  still_manifest = frozen_manifest m (w.clock w.ticks)

  abbrev still_entry : MemoryDirectoryEntry
  still_entry = record t.entry { status = frozen; updated_at = w.clock (w.ticks + 1) }

  still_listed :
      (id : Text) → listing still id ≡ (if shard_id == id then some still_entry else listing w id)
  still_listed id = find-freeze_entry shard_id (w.clock (w.ticks + 1)) id _ t.entry t.listed

  still-IsTracked : IsTracked still shard_id still_manifest
  unfolding frozen_manifest
  still-IsTracked = record {
    named = t.named;
    number = t.number;
    latest = t.latest;
    head = t.head;
    stored = t.stored;
    head_id = t.head_id;
    free = t.free;
    complete = t.complete;
    entry = still_entry;
    listed = still_listed shard_id ∙ rw (==_refl shard_id);
    points = t.points;
    status = refl;
  }

  pub after_freeze-IsConsistent : IsConsistent w → IsConsistent still
  unfolding frozen_manifest
  after_freeze-IsConsistent =
      update-IsConsistent w still shard_id still_manifest still_entry
        (λ id. ap (λ (k : Text). if k == id then some still_manifest else w.manifests id) t.named)
        (λ id i e. refl) still_listed still-IsTracked
