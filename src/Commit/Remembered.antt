-- ===== src/Commit/Remembered.antt =====
-- What a store remembers, seen from outside: of each shard its status and its history of events. An
-- operation of the program is a step of this view, or leaves it alone.
use context_swarm_memory.Prelude.{
  ◌+◌, ◌≡◌, refl, sym, ap, ◌∙◌, true, false, Option, none, some, some_inj, List, [], ◌∷◌, ◌++◌,
  append-nil, if◌then◌else◌, Text, ◌==◌, ==_iff, list_eq, nat_eq_inst, Bool-cases, inl, inr, ◌⊎◌,
  subst,
}
use context_swarm_memory.Memory.{
  ShardStatus, ShardManifest, MemoryShardSnapshot, MemoryEvent, active, frozen, archived, deleted,
}
use context_swarm_memory.Store.Disk.{World, put}
use context_swarm_memory.Commit.{
  EventInput, Provenance, ShardInput, appended_snapshot, appended_manifest, first_snapshot,
  first_manifest, is_active,
}
use context_swarm_memory.Commit.Append.{after_append, new_event, new_snapshot}
use context_swarm_memory.Commit.Create.{after_create, created_manifest, created_snapshot}
use context_swarm_memory.Commit.Freeze.{after_freeze}
use context_swarm_memory.Commit.Decision.{frozen_manifest}
use context_swarm_memory.Commit.Consistent.{IsTracked, IsUnused}
use context_swarm_memory.Commit.Preserved.{next_stored, born_stored}

pub record ShardMemory : Type 0 where
  pub status : ShardStatus
  pub history : List MemoryEvent

abbrev pub Remembered : Type 0
Remembered = Text → Option ShardMemory

-- What becomes of a shard's memory: its history is extended, and only if it was active; its status
-- stays or becomes frozen.
pub record Grows (s t : ShardMemory) : Type 0 where
  pub added : List MemoryEvent
  pub history : t.history ≡ s.history ++ added
  pub untouched : (added ≡ []) ⊎ (s.status ≡ active)
  pub standing : (t.status ≡ s.status) ⊎ (t.status ≡ frozen)

-- One step of what is remembered: a shard is born empty and active, an active one remembers one more
-- event, or one is frozen.
pub data Step (k l : Remembered) : Type 0 where
  born :
      (id : Text)
      → k id ≡ none
      → ((i : Text) → l i ≡ put id (record { status = active; history = [] }) k i)
      → Step k l
  learns :
      (id : Text) (s : ShardMemory) (e : MemoryEvent)
      → k id ≡ some s
      → s.status ≡ active
      → ((i : Text) → l i ≡ put id (record s { history = s.history ++ e ∷ [] }) k i)
      → Step k l
  freezes :
      (id : Text) (s : ShardMemory)
      → k id ≡ some s
      → ((i : Text) → l i ≡ put id (record s { status = frozen }) k i)
      → Step k l

pub data Reaches (k : Remembered) : Remembered → Type 0 where
  here : Reaches k k
  after : {l m : Remembered} → Reaches k l → Step l m → Reaches k m

abbrev head_memory : ShardManifest → Option MemoryShardSnapshot → Option ShardMemory
head_memory m none = none
head_memory m (some s) = some (record { status = m.status; history = s.events })

abbrev shard_memory : World → Text → Option ShardManifest → Option ShardMemory
shard_memory w id none = none
shard_memory w id (some m) = head_memory m (w.snapshots id m.latest_snapshot_id)

-- The abstraction: a shard is remembered by its manifest's status and the events of its latest
-- snapshot.
abbrev pub remembered : World → Remembered
remembered w id = shard_memory w id (w.manifests id)

-- Rewriting one shard changes what is remembered of that shard alone.
module _ (w w' : World) (s : Text) (m' : ShardManifest) (snap : MemoryShardSnapshot)
    (manifests : (id : Text) → w'.manifests id ≡ (if s == id then some m' else w.manifests id))
    (snapshots : (id i : Text) → (s == id) ≡ false → w'.snapshots id i ≡ w.snapshots id i)
    (stored : w'.snapshots s m'.latest_snapshot_id ≡ some snap) where
  same_memory :
      (id : Text) (o : Option ShardManifest)
      → (s == id) ≡ false
      → shard_memory w' id o ≡ shard_memory w id o
  same_memory id none e = refl
  same_memory id (some m) e = ap (head_memory m) (snapshots id m.latest_snapshot_id e)

  update-remembered :
      (id : Text)
      → remembered w' id
        ≡ put s (record { status = m'.status; history = snap.events }) (remembered w) id
  update-remembered id = elim (Bool-cases (s == id)) [
    | inl e ↦
        rw (manifests id, e)
          (subst
            (λ j.
              head_memory m' (w'.snapshots j m'.latest_snapshot_id)
              ≡ some (record { status = m'.status; history = snap.events }))
            ((==_iff s id).0 e) (ap (head_memory m') stored))
    | inr e ↦ rw (manifests id, e) (same_memory id (w.manifests id) e)
  ]

remembers :
    (w : World) (id : Text) (m : ShardManifest) (s : MemoryShardSnapshot)
    → w.manifests id ≡ some m
    → w.snapshots id m.latest_snapshot_id ≡ some s
    → remembered w id ≡ some (record { status = m.status; history = s.events })
remembers w id m s found stored = rw (found, stored) refl

is_active-eq : (s : ShardStatus) → is_active s ≡ true → s ≡ active
unfolding is_active
is_active-eq active h = refl
is_active-eq frozen h = cc
is_active-eq archived h = cc
is_active-eq deleted h = cc

module _ (shard_id : Text) (event : EventInput) (p : Provenance) (w : World) (m : ShardManifest)
    (t : IsTracked w shard_id m) (found : w.manifests shard_id ≡ some m) where
  head-Step :
      is_active m.status ≡ true
      → Step (remembered w) (remembered (after_append shard_id event p w m t.head))
  unfolding appended_snapshot appended_manifest
  head-Step live =
      Step.learns shard_id (record { status = m.status; history = t.head.events })
        (new_event shard_id event p w m t.head) (remembers w shard_id m t.head found t.stored)
        (is_active-eq m.status live)
        (update-remembered w (after_append shard_id event p w m t.head) shard_id
          (appended_manifest m (w.clock (w.ticks + 1 + 1)))
          (new_snapshot shard_id event p w m t.head)
          (λ id.
            ap
              (λ (k : Text).
                if k == id
                then some (appended_manifest m (w.clock (w.ticks + 1 + 1)))
                else w.manifests id)
              t.named)
          (λ id i e. rw e) (next_stored shard_id event p w m t))

  pub append-Step :
      (prev : MemoryShardSnapshot)
      → w.snapshots shard_id m.latest_snapshot_id ≡ some prev
      → is_active m.status ≡ true
      → Step (remembered w) (remembered (after_append shard_id event p w m prev))
  append-Step prev stored live =
      subst (λ s. Step (remembered w) (remembered (after_append shard_id event p w m s)))
        (some_inj (sym t.stored ∙ stored)) (head-Step live)

module _ (shard_id : Text) (w : World) (m : ShardManifest) (t : IsTracked w shard_id m)
    (found : w.manifests shard_id ≡ some m) where
  pub freeze-Step : Step (remembered w) (remembered (after_freeze shard_id m w))
  unfolding frozen_manifest
  freeze-Step =
      Step.freezes shard_id (record { status = m.status; history = t.head.events })
        (remembers w shard_id m t.head found t.stored)
        (update-remembered w (after_freeze shard_id m w) shard_id
          (frozen_manifest m (w.clock w.ticks)) t.head
          (λ id.
            ap
              (λ (k : Text).
                if k == id then some (frozen_manifest m (w.clock w.ticks)) else w.manifests id)
              t.named)
          (λ id i e. refl) t.stored)

pub create-Step :
    (s : ShardInput) (w : World)
    → IsUnused w s.id
    → w.manifests s.id ≡ none
    → Step (remembered w) (remembered (after_create s w))
unfolding first_snapshot first_manifest
create-Step s w u unused = Step.born s.id (rw unused refl) (
    update-remembered w (after_create s w) s.id (created_manifest s w) (created_snapshot s w)
      (λ id. refl) (λ id i e. rw e) (born_stored s w u))

pub Grows-refl : (s : ShardMemory) → Grows s s
Grows-refl s = record {
  added = [];
  history = sym (append-nil s.history);
  untouched = inl refl;
  standing = inl refl;
}

-- Of a shard that a step writes, and of the others.
put-Grows :
    (k l : Remembered) (id : Text) (s t : ShardMemory)
    → k id ≡ some s
    → ((i : Text) → l i ≡ put id t k i)
    → Grows s t
    → (i : Text) (u : ShardMemory) → k i ≡ some u
    → (v : ShardMemory) × (l i ≡ some v) × Grows u v
put-Grows k l id s t old new g i u h = elim (Bool-cases (id == i)) [
  | inl e ↦
      let same = some_inj (sym h ∙ ap k (sym ((==_iff id i).0 e)) ∙ old) in
      (t, new i ∙ rw e refl, subst (λ (x : ShardMemory). Grows x t) (sym same) g)
  | inr e ↦ (u, new i ∙ rw e h, Grows-refl u)
]

pub Step-Grows :
    {k l : Remembered}
    → Step k l
    → (i : Text) (u : ShardMemory) → k i ≡ some u
    → (v : ShardMemory) × (l i ≡ some v) × Grows u v
Step-Grows {k} {l} (born id unused new) i u h = elim (Bool-cases (id == i)) [
  | inl e ↦ cc (h, ap k ((==_iff id i).0 e), unused)
  | inr e ↦ (u, new i ∙ rw e h, Grows-refl u)
]
Step-Grows {k} {l} (learns id s e old live new) i u h =
    put-Grows k l id s (record s { history = s.history ++ e ∷ [] }) old new
      (record { added = e ∷ []; history = refl; untouched = inr live; standing = inl refl }) i u h
Step-Grows {k} {l} (freezes id s old new) i u h =
    put-Grows k l id s (record s { status = frozen }) old new
      (record {
        added = [];
        history = sym (append-nil s.history);
        untouched = inl refl;
        standing = inr refl;
      })
      i u h
