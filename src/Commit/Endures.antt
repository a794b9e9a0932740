-- ===== src/Commit/Endures.antt =====
-- What every operation leaves in place, in any store, at any point where the process may die.
use context_swarm_memory.Prelude.{Bool, Option, none, some, List, Text}
use context_swarm_memory.Memory.{
  CommitAction, write, update, freeze, CommitDecision, MemoryShardSnapshot, MemoryDirectory,
  ShardManifest, ChronicleEvent,
}
use context_swarm_memory.Store.{load_directory, load_manifest, load_snapshot}
use context_swarm_memory.Store.Keeps.{
  Keeps, Kept, Keeps-pure, Keeps-gets, Keeps-require, Keeps-bind, Keeps-if, Keeps-guard,
  Keeps-now_iso, Keeps-new_chronicle_id, Keeps-save_manifest, Keeps-save_directory,
  Keeps-upsert_directory_entry, Keeps-append_chronicle, Keeps-write_snapshot,
}
use context_swarm_memory.Commit.Decision.{
  freeze_directory, freeze_shard, apply_on, DryRun, apply_target, apply_after, dry_run_target,
  dry_run_commit, apply_commit_decision,
}
use context_swarm_memory.Commit.{
  EventInput, Provenance, ShardInput, append_event_and_snapshot, create_shard,
}

ruleset keeps_rules = (
  Keeps-pure, Keeps-gets, Keeps-require, Keeps-bind, Keeps-if, Keeps-guard, Keeps-now_iso,
  Keeps-new_chronicle_id, Keeps-save_manifest, Keeps-save_directory, Keeps-upsert_directory_entry,
  Keeps-append_chronicle, Keeps-write_snapshot,
)

module _ (id i : Text) (snap : MemoryShardSnapshot) (base : List ChronicleEvent) where
  pub append_event_and_snapshot-Keeps :
      (shard_id : Text) (event : EventInput) (p : Provenance)
      → Keeps (Kept id i snap base) (append_event_and_snapshot shard_id event p)
  unfolding append_event_and_snapshot load_manifest load_snapshot load_directory
  append_event_and_snapshot-Keeps shard_id event p = search keeps_rules depth 60

  pub create_shard-Keeps : (s : ShardInput) → Keeps (Kept id i snap base) (create_shard s)
  unfolding create_shard load_manifest
  create_shard-Keeps s = search keeps_rules depth 60

  freeze_directory-Keeps :
      (shard_id : Text) (dir : MemoryDirectory)
      → Keeps (Kept id i snap base) (freeze_directory shard_id dir)
  freeze_directory-Keeps shard_id dir = search keeps_rules depth 60

  freeze_shard-Keeps :
      (shard_id description : Text) (m : Option ShardManifest)
      → Keeps (Kept id i snap base) (freeze_shard shard_id description m)
  unfolding freeze_shard load_directory
  freeze_shard-Keeps shard_id description none = search keeps_rules
  freeze_shard-Keeps shard_id description (some m) =
      search (keeps_rules, freeze_directory-Keeps) depth 60

  apply_on-Keeps :
      (d : CommitDecision) (dry : DryRun) (target : Text) (a : CommitAction)
      → Keeps (Kept id i snap base) (apply_on d dry target a)
  unfolding apply_on load_manifest
  apply_on-Keeps d dry target write = search (keeps_rules, append_event_and_snapshot-Keeps)
  apply_on-Keeps d dry target update = search (keeps_rules, append_event_and_snapshot-Keeps)
  apply_on-Keeps d dry target freeze = search (keeps_rules, freeze_shard-Keeps)
  apply_on-Keeps d dry target _ = search keeps_rules

  apply_target-Keeps :
      (d : CommitDecision) (dry : DryRun) (target : Option Text)
      → Keeps (Kept id i snap base) (apply_target d dry target)
  apply_target-Keeps d dry none = search keeps_rules
  apply_target-Keeps d dry (some target) = search apply_on-Keeps

  dry_run_target-Keeps :
      (d : CommitDecision) (target : Option Text)
      → Keeps (Kept id i snap base) (dry_run_target d target)
  unfolding load_manifest
  dry_run_target-Keeps d none = search keeps_rules
  dry_run_target-Keeps d (some target) = search keeps_rules

  pub apply_commit_decision-Keeps :
      (d : CommitDecision) (confirmed : Bool)
      → Keeps (Kept id i snap base) (apply_commit_decision d confirmed)
  unfolding apply_commit_decision apply_after dry_run_commit
  apply_commit_decision-Keeps d confirmed =
      search (keeps_rules, apply_target-Keeps, dry_run_target-Keeps) depth 10
