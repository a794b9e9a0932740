-- ===== src/Commit/Sound.antt =====
-- Operations in a consistent store, with no crash: the store they leave is consistent.
use context_swarm_memory.Prelude.{◌≡◌, Bool, Option, none, some, Text, Option-cases, inl, inr}
use context_swarm_memory.Memory.{CommitDecision, CommitAction, write, update, freeze}
use context_swarm_memory.Store.{load_manifest, has_id, directory_or_empty}
use context_swarm_memory.Store.Keeps.{Keeps, Keeps-pure, Keeps-gets, Keeps-bind, Keeps-if}
use context_swarm_memory.Store.Disk.{World, ◌>>=◌}
use context_swarm_memory.Commit.{
  EventInput, Provenance, ShardInput, append_event_and_snapshot, create_shard,
}
use context_swarm_memory.Commit.Consistent.{IsConsistent}
use context_swarm_memory.Commit.Preserved.{after_freeze-IsConsistent}
use context_swarm_memory.Commit.Freeze.{freeze-run, any_of_find}
use context_swarm_memory.Commit.Outcomes.{
  refusal, refusal-none, tracked, append-refusal, append-after_append, create-after_create,
}
use context_swarm_memory.Commit.Decision.{
  DryRun, freeze_shard, apply_on, apply_target, apply_after, dry_run_target, dry_run_commit,
  apply_commit_decision,
}

-- A consistent store, in a process that lives on.
pub record IsSound (w : World) : Type 0 where
  pub consistent : IsConsistent w
  pub unlit : w.fuse ≡ none

ruleset keeps_rules = (Keeps-pure, Keeps-gets, Keeps-bind, Keeps-if)

pub create_shard-IsSound : (s : ShardInput) → Keeps IsSound (create_shard s)
create_shard-IsSound s = record {
  at = λ w h. elim (create-after_create s w h.consistent h.unlit) [
    | inl (e, r, c) ↦ rw r (record { consistent = c; unlit = h.unlit })
    | inr r ↦ rw r h
  ];
}

pub append_event_and_snapshot-IsSound :
    (shard_id : Text) (event : EventInput) (p : Provenance)
    → Keeps IsSound (append_event_and_snapshot shard_id event p)
append_event_and_snapshot-IsSound shard_id event p = record {
  at = λ w h. elim (Option-cases (refusal shard_id (w.manifests shard_id))) [
    | inr (e, refusing) ↦ rw (append-refusal shard_id event p w e refusing) h
    | inl granted ↦
        let (m, found, live) = refusal-none shard_id _ granted in
        let (prev, stored, run, kept) =
          append-after_append shard_id event p w m h.consistent h.unlit found live in
        rw run (record { consistent = kept; unlit = h.unlit })
  ];
}

freeze_found-IsSound :
    (target description : Text)
    → Keeps IsSound (load_manifest target >>= freeze_shard target description)
unfolding ◌>>=◌ load_manifest
freeze_found-IsSound target description = record {
  at = λ w h. elim (Option-cases (w.manifests target)) [
    | inl absent ↦ rw absent (unfold freeze_shard in h)
    | inr (m, found) ↦
        let t = tracked target m h.consistent found in
        rw
          (
            found,
            freeze-run target m w description h.unlit
                (any_of_find (has_id target) (directory_or_empty w.directory).entries t.listed),
          )
          (record {
            consistent = after_freeze-IsConsistent target w m t h.consistent;
            unlit = h.unlit;
          })
  ];
}

apply_on-IsSound :
    (d : CommitDecision) (dry : DryRun) (target : Text) (a : CommitAction)
    → Keeps IsSound (apply_on d dry target a)
unfolding apply_on
apply_on-IsSound d dry target write = search (keeps_rules, append_event_and_snapshot-IsSound)
apply_on-IsSound d dry target update = search (keeps_rules, append_event_and_snapshot-IsSound)
apply_on-IsSound d dry target freeze = freeze_found-IsSound target dry.description
apply_on-IsSound d dry target _ = search keeps_rules

apply_target-IsSound :
    (d : CommitDecision) (dry : DryRun) (target : Option Text)
    → Keeps IsSound (apply_target d dry target)
apply_target-IsSound d dry none = search keeps_rules
apply_target-IsSound d dry (some target) = search apply_on-IsSound

dry_run_target-IsSound :
    (d : CommitDecision) (target : Option Text) → Keeps IsSound (dry_run_target d target)
unfolding load_manifest
dry_run_target-IsSound d none = search keeps_rules
dry_run_target-IsSound d (some target) = search keeps_rules

pub apply_commit_decision-IsSound :
    (d : CommitDecision) (confirmed : Bool) → Keeps IsSound (apply_commit_decision d confirmed)
unfolding apply_commit_decision apply_after dry_run_commit
apply_commit_decision-IsSound d confirmed =
    search (keeps_rules, apply_target-IsSound, dry_run_target-IsSound) depth 10
