-- ===== src/Commit/Outcomes.antt =====
-- How the operations end: the checks that refuse, and success in a consistent store.
use context_swarm_memory.Prelude.{
  ◌+◌, ◌≡◌, refl, sym, ap, ◌∙◌, true, false, Option, none, some, arith, Text, ◌==◌, ==_iff, list_eq,
  nat_eq_inst, Option-cases, Bool-cases, inl, inr, ◌⊎◌, subst, if◌then◌else◌, some_inj,
}
use context_swarm_memory.Memory.{MemoryShardSnapshot, ShardManifest}
use context_swarm_memory.Ids.{next_snapshot_id, new_snapshot_id}
use context_swarm_memory.Ids.RoundTrip.{next_snapshot_id-new_snapshot_id, new_snapshot_id-injective}
use context_swarm_memory.Store.Disk.{
  ◌>>=◌, World, Error, ok, err, shard_not_found, shard_not_active, shard_exists,
}
use context_swarm_memory.Commit.{
  EventInput, Provenance, ShardInput, append_event_and_snapshot, create_shard, is_active,
  appended_snapshot,
}
use context_swarm_memory.Commit.Append.{written, after_append, append-run}
use context_swarm_memory.Commit.Create.{created, after_create, create-run}
use context_swarm_memory.Commit.Consistent.{IsConsistent, IsTracked, IsUnused, IsShard}
use context_swarm_memory.Commit.Preserved.{after_append-IsConsistent, after_create-IsConsistent}

-- The next name of a tracked shard is free.
pub next-free :
    (w : World) (id : Text) (m : ShardManifest) (t : IsTracked w id m)
    → w.snapshots id (next_snapshot_id m.latest_snapshot_id) ≡ none
next-free w id m t =
    ap (λ i. w.snapshots id i)
      (ap next_snapshot_id t.latest ∙ (next_snapshot_id-new_snapshot_id t.number).0)
    ∙ subst (λ n. w.snapshots id (new_snapshot_id n) ≡ none) (omega arith) (t.free 0)

pub next_name :
    (w : World) (id : Text) (m : ShardManifest) (t : IsTracked w id m)
    → next_snapshot_id m.latest_snapshot_id ≡ new_snapshot_id (t.number + 1)
next_name w id m t = ap next_snapshot_id t.latest ∙ (next_snapshot_id-new_snapshot_id t.number).0

pub next-ne-latest :
    (w : World) (id : Text) (m : ShardManifest)
    → IsTracked w id m
    → (next_snapshot_id m.latest_snapshot_id == m.latest_snapshot_id) ≡ false
next-ne-latest w id m t =
    elim (Bool-cases (next_snapshot_id m.latest_snapshot_id == m.latest_snapshot_id)) [
      | inl e ↦ absurd (
          omega (
            arith,
            new_snapshot_id-injective (t.number + 1) t.number
                (sym (next_name w id m t) ∙ (==_iff _ _).0 e ∙ t.latest),
          ))
      | inr e ↦ e
    ]

-- Why a shard with this manifest, or none, takes no event.
abbrev pub refusal : Text → Option ShardManifest → Option Error
refusal shard_id none = some (shard_not_found shard_id)
refusal shard_id (some m) =
    if is_active m.status then none else some (shard_not_active shard_id m.status)

pub refusal-none :
    (shard_id : Text) (o : Option ShardManifest)
    → refusal shard_id o ≡ none
    → (m : ShardManifest) × (o ≡ some m) × (is_active m.status ≡ true)
refusal-none shard_id none h = cc
refusal-none shard_id (some m) h = elim (Bool-cases (is_active m.status)) [
  | inl live ↦ (m, refl, live)
  | inr dead ↦ cc (rw dead at h)
]

pub tracked :
    (shard_id : Text) {w : World} (m : ShardManifest)
    → IsConsistent w
    → w.manifests shard_id ≡ some m
    → IsTracked w shard_id m
tracked shard_id {w} m c found = subst (λ o. IsShard w shard_id o) found (c.shard shard_id)

module _ (shard_id : Text) (event : EventInput) (p : Provenance) (w : World) where
  refusal-inactive :
      (m : ShardManifest) (e : Error)
      → is_active m.status ≡ false
      → refusal shard_id (some m) ≡ some e
      → shard_not_active shard_id m.status ≡ e
  refusal-inactive m e dead h = some_inj (rw dead at h)

  -- An append to an unknown or an inactive shard is refused, and leaves everything as it was.
  pub append-refusal :
      (e : Error)
      → refusal shard_id (w.manifests shard_id) ≡ some e
      → append_event_and_snapshot shard_id event p w ≡ (err e, w)
  unfolding append_event_and_snapshot ◌>>=◌
  append-refusal e h = elim (Option-cases (w.manifests shard_id)) [
    | inl absent ↦ rw absent (ap (λ x. (err x, w)) (some_inj (rw absent at h)))
    | inr (m, found) ↦ elim (Bool-cases (is_active m.status)) [
      | inl live ↦ cc (rw (found, live) at h)
      | inr dead ↦
          rw (found, dead) (ap (λ x. (err x, w)) (refusal-inactive m e dead (rw found at h)))
    ]
  ]

  module _ (m : ShardManifest) (c : IsConsistent w) (unlit : w.fuse ≡ none)
      (found : w.manifests shard_id ≡ some m) (live : is_active m.status ≡ true) where
    -- In a consistent store and with no crash, an append to an active shard succeeds: the new
    -- snapshot extends the latest one, and the store is consistent again.
    pub append-after_append :
        (prev : MemoryShardSnapshot) × (w.snapshots shard_id m.latest_snapshot_id ≡ some prev)
        × (append_event_and_snapshot shard_id event p w
            ≡ (ok (written shard_id event p w m prev), after_append shard_id event p w m prev))
        × IsConsistent (after_append shard_id event p w m prev)
    unfolding appended_snapshot
    append-after_append =
        let t = tracked shard_id m c found in
        (
          t.head,
          t.stored,
          append-run shard_id event p w m t.head unlit found live t.stored
              (next-free w shard_id m t),
          after_append-IsConsistent shard_id event p w m t c,
        )

-- A used name is refused.
pub create_shard-exists :
    (s : ShardInput) (w : World) (m : ShardManifest)
    → w.manifests s.id ≡ some m
    → create_shard s w ≡ (err (shard_exists s.id), w)
create_shard-exists s w m e = unfold create_shard ◌>>=◌ in rw e

-- With no crash, a shard is created under an unused name and refused under a used one; the store
-- stays consistent.
pub create-after_create :
    (s : ShardInput) (w : World)
    → IsConsistent w
    → w.fuse ≡ none
    → ((w.manifests s.id ≡ none)
        × (create_shard s w ≡ (ok (created s w), after_create s w))
        × IsConsistent (after_create s w))
      ⊎ (create_shard s w ≡ (err (shard_exists s.id), w))
create-after_create s w c unlit = elim (Option-cases (w.manifests s.id)) [
  | inl e ↦
      let u : IsUnused w s.id = subst (λ o. IsShard w s.id o) e (c.shard s.id) in
      inl (e, create-run s w unlit e (u.empty _), after_create-IsConsistent s w u c)
  | inr (m, e) ↦ inr (create_shard-exists s w m e)
]
