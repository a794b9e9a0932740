-- ===== src/Store/Disk.antt =====
-- The files and the environment as one state, and the actions on it. What was written before an
-- error stays written, so the state comes back beside the error too.
use context_swarm_memory.Prelude.{
  ℕ, zero, suc, ◌+◌, Bool, true, false, Option, none, some, List, if◌then◌else◌, Text, ◌==◌,
  list_eq, nat_eq_inst,
}
use context_swarm_memory.Memory.{
  MemoryDirectory, MemoryShardSnapshot, ShardManifest, ChronicleEvent, ShardStatus,
}

-- The errors that the program throws, and the end of the process.
pub data Error : Type 0 where
  immutable_snapshot : (shard_id snapshot_id : Text) → Error
  shard_not_found : (shard_id : Text) → Error
  shard_not_active : (shard_id : Text) → ShardStatus → Error
  snapshot_missing : (shard_id snapshot_id : Text) → Error
  orphan_snapshot : (shard_id snapshot_id : Text) → Error
  shard_exists : (shard_id : Text) → Error
  crashed : Error

pub data Result (A : Type 0) : Type 0 where
  ok : A → Result A
  err : Error → Result A

pub record World : Type 0 where
  pub directory : Option MemoryDirectory
  pub manifests : Text → Option ShardManifest
  pub snapshots : Text → Text → Option MemoryShardSnapshot
  pub chronicle : List ChronicleEvent
  -- The answers of `nowIso` and of `newChronicleId`, by the number of questions asked so far.
  pub clock : ℕ → Text
  pub entropy : ℕ → Text
  pub ticks : ℕ
  -- The number of writes until the process dies, if it does.
  pub fuse : Option ℕ

abbrev pub put {ℓ} : {V : Type ℓ} → Text → V → (Text → Option V) → Text → Option V
put k v files j = if k == j then some v else files j

abbrev pub Exec : Type 0 → Type 0
Exec A = World → Result A × World

module _ {A : Type 0} where
  abbrev pub pure : A → Exec A
  pure a w = (ok a, w)

  abbrev pub raise : Error → Exec A
  raise e w = (err e, w)

  abbrev pub gets : (World → A) → Exec A
  gets f w = (ok (f w), w)

  -- A value that has to be there.
  abbrev pub require : Option A → Error → Exec A
  require none e = raise e
  require (some a) e = pure a

abbrev pub guard : Bool → Error → Exec Unit
guard true e = pure tt
guard false e = raise e

infixl 5 ◌>>=◌ ◌>>◌
abbrev pub continue : {A B : Type 0} → Result A → (A → Exec B) → Exec B
continue (ok a) f w = f a w
continue (err e) f w = (err e, w)

unfoldable pub ◌>>=◌ : {A B : Type 0} → Exec A → (A → Exec B) → Exec B
◌>>=◌ m f w = let (r, w') = m w in continue r f w'

abbrev pub ◌>>◌ : {A B : Type 0} → Exec A → Exec B → Exec B
m >> k = m >>= λ _. k

-- One write to the disk, if the process lives that long.
abbrev pub write_by : Option ℕ → (World → World) → Exec Unit
write_by none f w = (ok tt, f w)
write_by (some zero) f w = (err crashed, w)
write_by (some (suc n)) f w = (ok tt, f (record w { fuse = some n }))

abbrev pub durable : (World → World) → Exec Unit
durable f w = write_by w.fuse f w

abbrev pub now_iso : Exec Text
now_iso w = (ok (w.clock w.ticks), record w { ticks = w.ticks + 1 })

abbrev pub new_chronicle_id : Exec Text
new_chronicle_id w = (ok (w.entropy w.ticks), record w { ticks = w.ticks + 1 })
