-- ===== src/Commit/Contracts.antt =====
-- What a caller of `appendEventAndSnapshot` and `createShard` finds in the store afterwards.
use context_swarm_memory.Prelude.{
  ◌≡◌, ◌≢◌, ◌↔◌, refl, sym, ap, ◌∙◌, true, false, none, some, Text, list_eq, nat_eq_inst, Option,
  some_inj, Option-cases, Bool-cases, inl, inr, ◌⊎◌, subst,
}
use context_swarm_memory.Memory.{
  MemoryShardSnapshot, ShardManifest, ShardStatus, active, frozen, archived, deleted,
}
use context_swarm_memory.Store.Disk.{
  World, Error, Result, ok, err, shard_not_found, shard_not_active, shard_exists,
}
use context_swarm_memory.Commit.{
  EventInput, Provenance, Written, ShardInput, append_event_and_snapshot, create_shard, is_active,
  appended_snapshot,
}
use context_swarm_memory.Commit.Append.{written, after_append, append-run}
use context_swarm_memory.Commit.Create.{created, after_create, create-run}
use context_swarm_memory.Commit.Consistent.{IsConsistent, IsUnused, IsShard}
use context_swarm_memory.Commit.Preserved.{after_append-IsConsistent, after_create-IsConsistent}
use context_swarm_memory.Commit.Outcomes.{
  refusal, refusal-none, tracked, next-free, append-after_append, append-refusal,
  create_shard-exists,
}
use context_swarm_memory.Commit.Effects.{
  Extends, IsCreated, after_append-Extends, after_create-IsCreated,
}

is_active-live : (s : ShardStatus) → s ≡ active → is_active s ≡ true
unfolding is_active
is_active-live s e = rw e refl

is_active-dead : (s : ShardStatus) → s ≢ active → is_active s ≡ false
unfolding is_active
is_active-dead active n = absurd (n refl)
is_active-dead frozen n = refl
is_active-dead archived n = refl
is_active-dead deleted n = refl

dead-ne-active : (s : ShardStatus) → is_active s ≡ false → s ≢ active
unfolding is_active
dead-ne-active s h e = cc (rw e at h)

err_inj : {e f : Error} → Path (Result Written) (err e) (err f) → e ≡ f
err_inj h = cc

-- Why no event is taken.
abbrev pub IsRefusal : Text → World → Error → Type 0
IsRefusal shard_id w e =
    ((w.manifests shard_id ≡ none) × (e ≡ shard_not_found shard_id))
    ⊎ ((m : ShardManifest) × (w.manifests shard_id ≡ some m)
        × (m.status ≢ active)
        × (e ≡ shard_not_active shard_id m.status))

module _ (shard_id : Text) (event : EventInput) (p : Provenance) (w : World) (c : IsConsistent w)
    (unlit : w.fuse ≡ none) where
  -- In a consistent store and with no crash, an append to an active shard succeeds: the new snapshot,
  -- stored under the next name, which was free, has the events of the latest one and the given event
  -- behind them, and its prompt and summary; the older snapshots of the shard stay; the manifest, the
  -- directory and one new chronicle entry name the new snapshot; and the store is consistent again.
  pub append_event_and_snapshot_lem :
      (m : ShardManifest)
      → w.manifests shard_id ≡ some m
      → m.status ≡ active
      → (prev : MemoryShardSnapshot) × (r : Written) × (w' : World) × (w.snapshots shard_id
            m.latest_snapshot_id
          ≡ some prev)
        × (append_event_and_snapshot shard_id event p w ≡ (ok r, w'))
        × Extends shard_id event p w w' m prev r
        × IsConsistent w'
  unfolding appended_snapshot
  append_event_and_snapshot_lem m found live =
      let t = tracked shard_id m c found in
      let alive = is_active-live m.status live in
      (
        t.head,
        written shard_id event p w m t.head,
        after_append shard_id event p w m t.head,
        t.stored,
        append-run shard_id event p w m t.head unlit found alive t.stored
            (next-free w shard_id m t),
        after_append-Extends shard_id event p w m t live,
        after_append-IsConsistent shard_id event p w m t c,
      )

  refusal-IsRefusal :
      (o : Option ShardManifest) (e : Error)
      → w.manifests shard_id ≡ o
      → refusal shard_id o ≡ some e
      → IsRefusal shard_id w e
  refusal-IsRefusal none e found h = inl (found, sym (some_inj h))
  refusal-IsRefusal (some m) e found h = elim (Bool-cases (is_active m.status)) [
    | inl live ↦ cc (rw live at h)
    | inr dead ↦ inr (m, found, dead-ne-active m.status dead, sym (some_inj (rw dead at h)))
  ]

  IsRefusal-refusal :
      (e : Error) → IsRefusal shard_id w e → refusal shard_id (w.manifests shard_id) ≡ some e
  IsRefusal-refusal e (inl (absent, why)) = rw (absent, why) refl
  IsRefusal-refusal e (inr (m, found, dead, why)) =
      rw (found, is_active-dead m.status dead, why) refl

  errors :
      (e : Error) (w' : World)
      → append_event_and_snapshot shard_id event p w ≡ (err e, w')
      → (w' ≡ w) × IsRefusal shard_id w e
  errors e w' h = elim (Option-cases (refusal shard_id (w.manifests shard_id))) [
    | inl granted ↦
        let (m, found, live) = refusal-none shard_id _ granted in
        let (prev, stored, run, kept) =
          append-after_append shard_id event p w m c unlit found live in
        cc (ap (λ x. x.0) (sym run ∙ h))
    | inr (x, refusing) ↦
        let same = sym (append-refusal shard_id event p w x refusing) ∙ h in
        (
          sym (ap (λ r. r.1) same),
          subst (IsRefusal shard_id w) (err_inj (ap (λ r. r.0) same))
              (refusal-IsRefusal _ x refl refusing),
        )
  ]

  -- In a consistent store and with no crash, an append ends with an error exactly in two cases, and then
  -- leaves every file as it was: no shard has the name, or the shard that has it is not active; the error
  -- says which, and the status.
  pub append_event_and_snapshot-refuses :
      (e : Error) (w' : World)
      → (append_event_and_snapshot shard_id event p w ≡ (err e, w'))
        ↔ ((w' ≡ w) × IsRefusal shard_id w e)
  append_event_and_snapshot-refuses e w' = (
    λ h. errors e w' h,
    λ (same, why).
        append-refusal shard_id event p w e (IsRefusal-refusal e why)
        ∙ ap (λ x. (err e, x)) (sym same),
  )

-- In a consistent store and with no crash, a shard is created exactly under a name that no shard has:
-- it is active and listed, its one snapshot has no events and the given prompt and summary, one
-- chronicle entry tells of it, and the store stays consistent. Under a name that a shard has, the call
-- is refused and no file changes.
pub create_shard_lem :
    (s : ShardInput) (w : World)
    → IsConsistent w
    → w.fuse ≡ none
    → ((w.manifests s.id ≡ none)
        × (r : Written) × (w' : World) × (create_shard s w ≡ (ok r, w'))
        × IsCreated s w w' r
        × IsConsistent w')
      ⊎ ((m : ShardManifest) × (w.manifests s.id ≡ some m)
          × (create_shard s w ≡ (err (shard_exists s.id), w)))
create_shard_lem s w c unlit = elim (Option-cases (w.manifests s.id)) [
  | inl e ↦
      let u : IsUnused w s.id = subst (λ o. IsShard w s.id o) e (c.shard s.id) in
      inl (
        e,
        created s w,
        after_create s w,
        create-run s w unlit e (u.empty _),
        after_create-IsCreated s w u,
        after_create-IsConsistent s w u c,
      )
  | inr (m, e) ↦ inr (m, e, create_shard-exists s w m e)
]
