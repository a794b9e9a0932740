-- ===== src/Commit/Calm.antt =====
-- The stores that operations lead to from the first run of the program, as long as no process dies.
use context_swarm_memory.Prelude.{ℕ, refl, Bool, none, [], Text}
use context_swarm_memory.Memory.{CommitDecision}
use context_swarm_memory.Store.Disk.{World}
use context_swarm_memory.Commit.{
  EventInput, Provenance, ShardInput, append_event_and_snapshot, create_shard,
}
use context_swarm_memory.Commit.Decision.{apply_commit_decision}
use context_swarm_memory.Commit.Consistent.{IsConsistent}
use context_swarm_memory.Commit.Sound.{
  IsSound, create_shard-IsSound, append_event_and_snapshot-IsSound, apply_commit_decision-IsSound,
}

-- Nothing is stored yet.
abbrev pub fresh : (clock entropy : ℕ → Text) → World
fresh clock entropy = record {
  directory = none;
  manifests = λ _. none;
  snapshots = λ _ _. none;
  chronicle = [];
  clock = clock;
  entropy = entropy;
  ticks = 0;
  fuse = none;
}

pub data Operates (w : World) : World → Type 0 where
  here : Operates w w
  create : {v : World} → Operates w v → (s : ShardInput) → Operates w (create_shard s v).1
  append :
      {v : World}
      → Operates w v
      → (shard_id : Text) (event : EventInput) (p : Provenance)
      → Operates w (append_event_and_snapshot shard_id event p v).1
  apply :
      {v : World}
      → Operates w v
      → (d : CommitDecision) (confirmed : Bool) → Operates w (apply_commit_decision d confirmed v).1

fresh-IsSound : (clock entropy : ℕ → Text) → IsSound (fresh clock entropy)
fresh-IsSound clock entropy = record {
  consistent = record { shard = λ id. record { empty = λ i. refl; unlisted = refl } };
  unlit = refl;
}

Operates-IsSound : {w u : World} → Operates w u → IsSound w → IsSound u
Operates-IsSound here h = h
Operates-IsSound (create {v} l s) h = (create_shard-IsSound s).at v (Operates-IsSound l h)
Operates-IsSound (append {v} l id e p) h =
    (append_event_and_snapshot-IsSound id e p).at v (Operates-IsSound l h)
Operates-IsSound (apply {v} l d c) h =
    (apply_commit_decision-IsSound d c).at v (Operates-IsSound l h)

-- Every store that operations, successful or refused, reach from an empty one while no process dies
-- is consistent.
pub Operates-IsConsistent :
    (clock entropy : ℕ → Text) (u : World) → Operates (fresh clock entropy) u → IsConsistent u
Operates-IsConsistent clock entropy u l =
    (Operates-IsSound l (fresh-IsSound clock entropy)).consistent
