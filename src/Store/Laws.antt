-- ===== src/Store/Laws.antt =====
-- What a write leaves to be read: one law for each kind of file, in the form of a test on the keys.
use context_swarm_memory.Prelude.{
  ◌≡◌, refl, true, false, ◌&&◌, Option, some, List, [], ◌∷◌, ◌++◌, arith, if◌then◌else◌, any, find,
  Text, ◌==◌, ==_iff, list_eq, nat_eq_inst, Bool-cases, inl, inr,
}
use context_swarm_memory.Memory.{MemoryDirectoryEntry, MemoryShardSnapshot}
use context_swarm_memory.Store.{has_id, replace_entry, upsert_entry, put_snapshot}

find-replace_entry :
    (id : Text) (e : MemoryDirectoryEntry) (es : List MemoryDirectoryEntry)
    → any (has_id e.id) es ≡ true
    → find (has_id id) (replace_entry e es) ≡ (if e.id == id then some e else find (has_id id) es)
unfolding replace_entry
find-replace_entry id e [] h = cc
find-replace_entry id e (x ∷ es) h =
    ground (arith, ==_iff x.id e.id, ==_iff x.id id, ==_iff e.id id, find-replace_entry id e es)

find-concat :
    (id : Text) (e : MemoryDirectoryEntry) (es : List MemoryDirectoryEntry)
    → any (has_id e.id) es ≡ false
    → find (has_id id) (es ++ e ∷ []) ≡ (if e.id == id then some e else find (has_id id) es)
find-concat id e [] h = refl
find-concat id e (x ∷ es) h =
    ground (arith, ==_iff x.id e.id, ==_iff x.id id, ==_iff e.id id, find-concat id e es)

-- After an upsert the entry is the one of its id, and the entries of the other ids are as before.
pub find-upsert_entry :
    (id : Text) (e : MemoryDirectoryEntry) (es : List MemoryDirectoryEntry)
    → find (has_id id) (upsert_entry e es) ≡ (if e.id == id then some e else find (has_id id) es)
unfolding upsert_entry
find-upsert_entry id e es = elim (Bool-cases (any (has_id e.id) es)) [
  | inl h ↦ rw h (find-replace_entry id e es h)
  | inr h ↦ rw h (find-concat id e es h)
]

pub put_snapshot_lem :
    (s : MemoryShardSnapshot) (files : Text → Text → Option MemoryShardSnapshot) (id i : Text)
    → put_snapshot s files id i
      ≡ (if (s.shard_id == id) && (s.snapshot_id == i) then some s else files id i)
put_snapshot_lem s files id i = ground arith
