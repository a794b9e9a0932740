-- ===== src/Commit/History.antt =====
-- The histories of a store: operations one after the other, and restarts of the process, which may
-- die again at any write.
use context_swarm_memory.Prelude.{ℕ, ◌≡◌, Bool, Option, some, List, [], ◌++◌, append-nil, sym, Text}
use context_swarm_memory.Memory.{CommitDecision, MemoryShardSnapshot, ChronicleEvent}
use context_swarm_memory.Store.Keeps.{Remembers}
use context_swarm_memory.Store.Disk.{World}
use context_swarm_memory.Commit.{
  EventInput, Provenance, ShardInput, append_event_and_snapshot, create_shard,
}
use context_swarm_memory.Commit.Decision.{apply_commit_decision}
use context_swarm_memory.Commit.Endures.{
  append_event_and_snapshot-Keeps, create_shard-Keeps, apply_commit_decision-Keeps,
}

-- One operation, whatever its result, or a restart.
pub data Step (w : World) : World → Type 0 where
  creating : (s : ShardInput) → Step w (create_shard s w).1
  appending :
      (shard_id : Text) (event : EventInput) (p : Provenance)
      → Step w (append_event_and_snapshot shard_id event p w).1
  applying :
      (d : CommitDecision) (confirmed : Bool) → Step w (apply_commit_decision d confirmed w).1
  restarting : (fuse : Option ℕ) → Step w (record w { fuse = fuse })

pub data Leads (w : World) : World → Type 0 where
  here : Leads w w
  then : {v u : World} → Leads w v → Step v u → Leads w u

module _ (id i : Text) (snap : MemoryShardSnapshot) (base : List ChronicleEvent) where
  Step-keeps : {v u : World} → Step v u → Remembers id i snap base v → Remembers id i snap base u
  Step-keeps {v} (creating s) h = (create_shard-Keeps id i snap base s).at v h
  Step-keeps {v} (appending shard_id event p) h =
      (append_event_and_snapshot-Keeps id i snap base shard_id event p).at v h
  Step-keeps {v} (applying d c) h = (apply_commit_decision-Keeps id i snap base d c).at v h
  Step-keeps (restarting fuse) h = record {
    stored = h.stored;
    later = h.later;
    chronicle = h.chronicle;
  }

  Leads-keeps : {w u : World} → Leads w u → Remembers id i snap base w → Remembers id i snap base u
  Leads-keeps here h = h
  Leads-keeps (then l s) h = Step-keeps s (Leads-keeps l h)

-- Whatever operations and restarts follow, and at whatever writes the process dies in them, a stored
-- snapshot stays as it is, and the chronicle keeps its beginning.
pub Leads-endures :
    (id i : Text) (snap : MemoryShardSnapshot) (w u : World)
    → Leads w u
    → w.snapshots id i ≡ some snap
    → (u.snapshots id i ≡ some snap)
      × ((later : List ChronicleEvent) × (u.chronicle ≡ w.chronicle ++ later))
Leads-endures id i snap w u l h =
    let r =
      Leads-keeps id i snap w.chronicle l
        (record { stored = h; later = []; chronicle = sym (append-nil w.chronicle) }) in
    (r.stored, (r.later, r.chronicle))
