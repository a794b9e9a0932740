-- ===== src/Commit/Tests.antt =====
-- A store with one shard, and what the theorems say of it.
use context_swarm_memory.Prelude.{
  ◌+◌, ◌≡◌, refl, true, false, none, some, List, [], ◌∷◌, ◌++◌, text, list_eq, nat_eq_inst, ◌⊎◌,
  ◌↔◌, list_beq,
}
use context_swarm_memory.Ids.{decimal, new_snapshot_id, next_snapshot_id}
use context_swarm_memory.Memory.{
  CommitDecision, write, freeze, ask_confirmation, user_preference, current_conversation,
  MemoryShardSnapshot, ShardManifest, ChronicleEvent, active, frozen, commit_write, commit_note,
  Actor,
}
use context_swarm_memory.Store.Disk.{
  ◌>>=◌, World, ok, err, crashed, shard_not_found, shard_not_active, shard_exists, orphan_snapshot,
}
use context_swarm_memory.Commit.{
  EventInput, Provenance, ShardInput, Written, append_event_and_snapshot, create_shard,
  first_manifest, first_snapshot, is_active, if_truthy,
}
use context_swarm_memory.Commit.Create.{after_create, created_manifest, created_snapshot}
use context_swarm_memory.Commit.Consistent.{IsConsistent}
use context_swarm_memory.Commit.Preserved.{after_create-IsConsistent}
use context_swarm_memory.Commit.Effects.{Extends, IsCreated}
use context_swarm_memory.Commit.Contracts.{
  IsRefusal, append_event_and_snapshot_lem, append_event_and_snapshot-refuses, create_shard_lem,
}
use context_swarm_memory.Commit.Crash.{append_event_and_snapshot-orphan, orphaned, restarted}
use context_swarm_memory.Commit.History.{Leads, Leads-endures, appending}
use context_swarm_memory.Commit.Freeze.{after_freeze}
use context_swarm_memory.Commit.Calm.{fresh, Operates, Operates-IsConsistent}
use context_swarm_memory.Commit.Decision.{
  frozen_manifest, changes_nothing, dry_run_on, apply_commit_decision, dry_run_commit,
}
use context_swarm_memory.Commit.Sound.{IsSound}
use context_swarm_memory.Commit.Guards.{
  reported, preview, dry_run_commit-reads, apply_commit_decision-unconfirmed,
  apply_commit_decision-unapplied,
}
use context_swarm_memory.Commit.Performed.{
  reported_change, apply_commit_decision-inactive, IsPerformed, apply_commit_decision-IsPerformed,
  apply_commit_decision-frozen,
}
use context_swarm_memory.Commit.Remembered.{ShardMemory, Reaches, Grows, remembered}
use context_swarm_memory.Commit.Refines.{Operates-Reaches, Operates-Grows}

abbrev empty : World
empty = fresh decimal decimal

abbrev notes : ShardInput
notes = record {
  id = text "notes";
  name = text "Notes";
  description = text "What the user said";
  tags = text "User" ∷ [];
  system_prompt = text "Remember.";
  summary = text "Nothing yet";
  context_limit_estimate = none;
  trust_level = none;
}

abbrev one : World
one = after_create notes empty

abbrev manifest : ShardManifest
manifest = created_manifest notes empty

abbrev likes_tea : EventInput
likes_tea = record {
  role = commit_note;
  content = text "likes tea";
  importance = none;
  tags = none;
  source_conversation_id = none;
  source_message_id = none;
}

abbrev by_user : Provenance
by_user = record { reason = text "said so"; actor = Actor.user; chronicle_type = commit_write }

empty-IsConsistent : IsConsistent empty
empty-IsConsistent = Operates-IsConsistent decimal decimal empty Operates.here

one-IsConsistent : IsConsistent one
one-IsConsistent =
    after_create-IsConsistent notes empty (record { empty = λ i. refl; unlisted = refl })
      empty-IsConsistent

found : one.manifests (text "notes") ≡ some manifest
unfolding first_manifest list_beq
found = refl

append_event_and_snapshot_lem_example :
    (prev : MemoryShardSnapshot) × (r : Written) × (w' : World) × (one.snapshots
        (text "notes")
        manifest.latest_snapshot_id
      ≡ some prev)
    × (append_event_and_snapshot (text "notes") likes_tea by_user one ≡ (ok r, w'))
    × Extends (text "notes") likes_tea by_user one w' manifest prev r
    × IsConsistent w'
unfolding first_manifest
append_event_and_snapshot_lem_example =
    append_event_and_snapshot_lem (text "notes") likes_tea by_user one one-IsConsistent refl
      manifest found refl

append_event_and_snapshot-refuses_example :
    (append_event_and_snapshot (text "other") likes_tea by_user one
      ≡ (err (shard_not_found (text "other")), one))
    ↔ ((one ≡ one) × IsRefusal (text "other") one (shard_not_found (text "other")))
append_event_and_snapshot-refuses_example =
    append_event_and_snapshot-refuses (text "other") likes_tea by_user one one-IsConsistent refl
      (shard_not_found (text "other")) one

create_shard_lem_example :
    ((one.manifests notes.id ≡ none)
      × (r : Written) × (w' : World) × (create_shard notes one ≡ (ok r, w'))
      × IsCreated notes one w' r
      × IsConsistent w')
    ⊎ ((m : ShardManifest) × (one.manifests notes.id ≡ some m)
        × (create_shard notes one ≡ (err (shard_exists notes.id), one)))
create_shard_lem_example = create_shard_lem notes one one-IsConsistent refl

-- The process dies behind its first write.
abbrev dying : World
dying = after_create notes (record empty { fuse = some 1 })

dying-IsConsistent : IsConsistent dying
dying-IsConsistent =
    after_create-IsConsistent notes (record empty { fuse = some 1 })
      (record { empty = λ i. refl; unlisted = refl })
      (record { shard = λ id. record { empty = λ i. refl; unlisted = refl } })

append_event_and_snapshot-orphan_example :
    (prev : MemoryShardSnapshot) × (append_event_and_snapshot (text "notes") likes_tea by_user dying
      ≡ (err crashed, orphaned (text "notes") likes_tea by_user dying manifest prev))
    × (append_event_and_snapshot
          (text "notes")
          likes_tea
          by_user
          (restarted (text "notes") likes_tea by_user dying manifest prev)
        ≡ (
          err (orphan_snapshot (text "notes") (next_snapshot_id manifest.latest_snapshot_id)),
          record (restarted (text "notes") likes_tea by_user dying manifest prev) {
            ticks = dying.ticks + 1 + 1 + 1 + 1 + 1;
          },
        ))
unfolding first_manifest is_active list_beq
append_event_and_snapshot-orphan_example =
    append_event_and_snapshot-orphan (text "notes") likes_tea likes_tea by_user by_user dying
      manifest dying-IsConsistent refl refl refl

abbrev two : World
two = (append_event_and_snapshot (text "notes") likes_tea by_user one).1

Leads-endures_example :
    (two.snapshots (text "notes") (new_snapshot_id 1) ≡ some (created_snapshot notes empty))
    × ((later : List ChronicleEvent) × (two.chronicle ≡ one.chronicle ++ later))
unfolding first_snapshot list_beq new_snapshot_id
Leads-endures_example =
    Leads-endures (text "notes") (new_snapshot_id 1) (created_snapshot notes empty) one two
      (Leads.then Leads.here (appending (text "notes") likes_tea by_user)) refl

Operates-IsConsistent_example : IsConsistent (create_shard notes empty).1
Operates-IsConsistent_example =
    Operates-IsConsistent decimal decimal (create_shard notes empty).1
      (Operates.create Operates.here notes)

one-IsSound : IsSound one
one-IsSound = record { consistent = one-IsConsistent; unlit = refl }

-- The store behind one more event.
abbrev taught : World
taught = (append_event_and_snapshot (text "notes") likes_tea by_user one).1

Operates-Reaches_example : Reaches (remembered one) (remembered taught)
Operates-Reaches_example =
    Operates-Reaches one taught one-IsSound
      (Operates.append Operates.here (text "notes") likes_tea by_user)

abbrev newborn : ShardMemory
newborn = record { status = active; history = [] }

remembered-one : remembered one (text "notes") ≡ some newborn
unfolding first_manifest first_snapshot list_beq new_snapshot_id decimal
remembered-one = refl

Operates-Grows_example :
    (t : ShardMemory) × (remembered taught (text "notes") ≡ some t) × Grows newborn t
Operates-Grows_example =
    Operates-Grows one taught one-IsSound
      (Operates.append Operates.here (text "notes") likes_tea by_user) (text "notes") newborn
      remembered-one

abbrev note_tea : CommitDecision
note_tea = record {
  action = write;
  target_shard_id = some (text "notes");
  memory_type = user_preference;
  content = text "likes tea";
  confidence = 900000;
  source = current_conversation;
  requires_user_confirmation = true;
  tags = [];
}

abbrev stop : CommitDecision
stop = record note_tea { action = freeze }

apply_commit_decision-unconfirmed_example :
    (reported (apply_commit_decision note_tea false one).0 ≡ some false)
    × ((apply_commit_decision note_tea false one).1 ≡ one)
apply_commit_decision-unconfirmed_example = apply_commit_decision-unconfirmed note_tea one refl

abbrev ask : CommitDecision
ask = record note_tea { action = ask_confirmation }

apply_commit_decision-unapplied_example : (apply_commit_decision ask true one).1 ≡ one
unfolding apply_commit_decision dry_run_commit ◌>>=◌
apply_commit_decision-unapplied_example = apply_commit_decision-unapplied ask true one refl

note_tea-mutates : (preview note_tea one).would_mutate ≡ true
unfolding first_manifest list_beq preview changes_nothing if_truthy dry_run_on
note_tea-mutates = refl

apply_commit_decision-IsPerformed_example :
    IsPerformed one
      (text "notes")
      (preview note_tea one)
      (apply_commit_decision note_tea true one).0
      (apply_commit_decision note_tea true one).1
unfolding first_manifest is_active if_truthy
apply_commit_decision-IsPerformed_example =
    apply_commit_decision-IsPerformed note_tea (text "notes") one manifest (preview note_tea one)
      one-IsSound (dry_run_commit-reads note_tea one) note_tea-mutates refl found refl

apply_commit_decision-frozen_example :
    append_event_and_snapshot
      (text "notes")
      likes_tea
      by_user
      (apply_commit_decision stop true one).1
    ≡ (err (shard_not_active (text "notes") frozen), (apply_commit_decision stop true one).1)
unfolding if_truthy
apply_commit_decision-frozen_example =
    apply_commit_decision-frozen stop (text "notes") one manifest likes_tea by_user one-IsSound refl
      refl found

-- A shard that was frozen.
abbrev stopped : World
stopped = after_freeze (text "notes") manifest one

abbrev stopped_manifest : ShardManifest
stopped_manifest = frozen_manifest manifest (one.clock one.ticks)

apply_commit_decision-inactive_example :
    (reported_change (dry_run_commit note_tea stopped).0 ≡ some true)
    × (apply_commit_decision note_tea true stopped
        ≡ (err (shard_not_active (text "notes") frozen), stopped))
unfolding first_manifest frozen_manifest is_active if_truthy list_beq
apply_commit_decision-inactive_example =
    apply_commit_decision-inactive note_tea (text "notes") stopped stopped_manifest refl refl refl
      refl
