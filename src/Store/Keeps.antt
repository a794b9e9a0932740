-- ===== src/Store/Keeps.antt =====
-- What no action destroys, whether it returns, fails or dies half-way: a snapshot that is stored,
-- and the chronicle that is written.
use context_swarm_memory.Prelude.{
  ℕ, zero, suc, ◌≡◌, refl, ap, ◌∙◌, Bool, true, false, Option, none, some, List, [], ◌∷◌, ◌++◌,
  append_assoc, arith, Text, Option-cases, inl, inr, ==_iff, list_eq, nat_eq_inst, if◌then◌else◌,
}
use context_swarm_memory.Memory.{
  MemoryShardSnapshot, MemoryDirectory, MemoryDirectoryEntry, ShardManifest, ChronicleEvent,
}
use context_swarm_memory.Store.{
  put_snapshot, write_snapshot, save_manifest, save_directory, upsert_directory_entry,
  append_chronicle,
}
use context_swarm_memory.Store.Laws.{put_snapshot_lem}
use context_swarm_memory.Store.Disk.{
  World, Exec, Result, ok, err, Error, pure, raise, gets, require, guard, continue, ◌>>=◌, write_by,
  durable, now_iso, new_chronicle_id,
}

-- The snapshot `snap` is stored, and the chronicle starts with `base`.
pub record Remembers (id i : Text) (snap : MemoryShardSnapshot) (base : List ChronicleEvent)
    (w : World) : Type 0 where
  pub stored : w.snapshots id i ≡ some snap
  pub later : List ChronicleEvent
  pub chronicle : w.chronicle ≡ base ++ later

pub record Keeps {A : Type 0} (P : World → Type 0) (m : Exec A) : Type 0 where
  pub at : (w : World) → P w → P (m w).1

module _ {P : World → Type 0} {A : Type 0} where
  pub Keeps-pure : (a : A) → Keeps P (pure a)
  Keeps-pure a = record { at = λ w h. h }

  pub Keeps-raise : (e : Error) → Keeps P (raise {A = A} e)
  Keeps-raise e = record { at = λ w h. h }

  pub Keeps-gets : (f : World → A) → Keeps P (gets f)
  Keeps-gets f = record { at = λ w h. h }

  pub Keeps-require : (o : Option A) (e : Error) → Keeps P (require o e)
  Keeps-require none e = record { at = λ w h. h }
  Keeps-require (some a) e = record { at = λ w h. h }

pub Keeps-if :
    {P : World → Type 0} {A : Type 0} (b : Bool) (m n : Exec A)
    → Keeps P m
    → Keeps P n
    → Keeps P (if b then m else n)
Keeps-if true m n k l = k
Keeps-if false m n k l = l

module _ {P : World → Type 0} {A B : Type 0} where
  Keeps-continue :
      (r : Result A) (f : A → Exec B) → ((a : A) → Keeps P (f a)) → Keeps P (continue r f)
  Keeps-continue (ok a) f k = record { at = (k a).at }
  Keeps-continue (err e) f k = record { at = λ w h. h }

  pub Keeps-bind :
      (m : Exec A) (f : A → Exec B) → Keeps P m → ((a : A) → Keeps P (f a)) → Keeps P (m >>= f)
  unfolding ◌>>=◌
  Keeps-bind m f k l = record { at = λ w h. (Keeps-continue (m w).0 f l).at (m w).1 (k.at w h) }

pub Keeps-guard : {P : World → Type 0} (b : Bool) (e : Error) → Keeps P (guard b e)
Keeps-guard true e = record { at = λ w h. h }
Keeps-guard false e = record { at = λ w h. h }

-- The write goes to a free name, so that it is not the name of a stored snapshot.
put_snapshot-stored :
    (s snap : MemoryShardSnapshot) (id i : Text) (w : World)
    → w.snapshots s.shard_id s.snapshot_id ≡ none
    → w.snapshots id i ≡ some snap
    → put_snapshot s w.snapshots id i ≡ some snap
put_snapshot-stored s snap id i w free h =
    rw put_snapshot_lem (ground (arith, ==_iff s.shard_id id, ==_iff s.snapshot_id i))

module _ (id i : Text) (snap : MemoryShardSnapshot) (base : List ChronicleEvent) where
  abbrev pub Kept : World → Type 0
  Kept w = Remembers id i snap base w

  same : (w w' : World) → w'.snapshots ≡ w.snapshots → w'.chronicle ≡ w.chronicle → Kept w → Kept w'
  same w w' s c h = record {
    stored = ap (λ f. f id i) s ∙ h.stored;
    later = h.later;
    chronicle = c ∙ h.chronicle;
  }

  pub Keeps-now_iso : Keeps Kept now_iso
  Keeps-now_iso = record { at = λ w h. same w _ refl refl h }

  pub Keeps-new_chronicle_id : Keeps Kept new_chronicle_id
  Keeps-new_chronicle_id = record { at = λ w h. same w _ refl refl h }

  -- A write keeps what its effect keeps, however long the process lives.
  Keeps-write_by :
      (fuse : Option ℕ) (f : World → World) (w : World)
      → ((v : World) → v.snapshots ≡ w.snapshots → Kept v → Kept (f v))
      → Kept w
      → Kept (write_by fuse f w).1
  Keeps-write_by none f w k h = k w refl h
  Keeps-write_by (some zero) f w k h = h
  Keeps-write_by (some (suc n)) f w k h = k _ refl (same w _ refl refl h)

  Keeps-durable : (f : World → World) → ((v : World) → Kept v → Kept (f v)) → Keeps Kept (durable f)
  Keeps-durable f k = record { at = λ w h. Keeps-write_by w.fuse f w (λ v e. k v) h }

  pub Keeps-save_manifest : (m : ShardManifest) → Keeps Kept (save_manifest m)
  unfolding save_manifest
  Keeps-save_manifest m = Keeps-durable _ (λ w h. same w _ refl refl h)

  pub Keeps-save_directory : (d : MemoryDirectory) → Keeps Kept (save_directory d)
  unfolding save_directory
  Keeps-save_directory d = Keeps-durable _ (λ w h. same w _ refl refl h)

  pub Keeps-upsert_directory_entry :
      (e : MemoryDirectoryEntry) → Keeps Kept (upsert_directory_entry e)
  unfolding upsert_directory_entry
  Keeps-upsert_directory_entry e = Keeps-bind _ _ (Keeps-gets _) (λ d. Keeps-save_directory _)

  pub Keeps-append_chronicle : (e : ChronicleEvent) → Keeps Kept (append_chronicle e)
  unfolding append_chronicle
  Keeps-append_chronicle e = Keeps-durable _ (λ w h. record {
    stored = h.stored;
    later = h.later ++ e ∷ [];
    chronicle = ap (λ c. c ++ e ∷ []) h.chronicle ∙ append_assoc base h.later (e ∷ []);
  })

  pub Keeps-write_snapshot : (s : MemoryShardSnapshot) → Keeps Kept (write_snapshot s)
  unfolding write_snapshot ◌>>=◌
  Keeps-write_snapshot s = record {
    at = λ w h. elim (Option-cases (w.snapshots s.shard_id s.snapshot_id)) [
      | inl free ↦ rw free (
          Keeps-write_by w.fuse _ w
            (λ v e k. record {
              stored =
                  put_snapshot-stored s snap id i v (ap (λ f. f s.shard_id s.snapshot_id) e ∙ free)
                    k.stored;
              later = k.later;
              chronicle = k.chronicle;
            })
            h)
      | inr (old, taken) ↦ rw taken h
    ];
  }
