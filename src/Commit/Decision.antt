-- ===== src/Commit/Decision.antt =====
-- src/core/commit.ts: what a decision of the committer would do, and doing it.
use context_swarm_memory.Prelude.{
  Bool, true, false, not, ◌&&◌, Option, none, some, List, [], ◌∷◌, ◌++◌, if◌then◌else◌, any, Text,
  text,
}
use context_swarm_memory.Memory.{
  frozen, CommitAction, write, update, split, merge, freeze, no_op, ask_confirmation,
  CommitMemoryType, user_preference, project_decision, fact, correction, inference, no_type,
  CommitSource, current_conversation, user_confirmation, system_inference, CommitDecision,
  commit_note, MemoryDirectory, MemoryDirectoryEntry, ShardManifest, ChronicleType, commit_write,
  commit_update, shard_frozen, Actor,
}
use context_swarm_memory.Truncate.{truncate}
use context_swarm_memory.Store.{
  load_directory, save_directory, has_id, load_manifest, save_manifest, append_chronicle,
}
use context_swarm_memory.Store.Disk.{Exec, pure, now_iso, new_chronicle_id, ◌>>=◌, ◌>>◌}
use context_swarm_memory.Commit.{EventInput, Provenance, append_event_and_snapshot, if_truthy}

unfoldable pub action_text : CommitAction → Text
action_text write = text "write"
action_text update = text "update"
action_text split = text "split"
action_text merge = text "merge"
action_text freeze = text "freeze"
action_text no_op = text "no_op"
action_text ask_confirmation = text "ask_confirmation"

unfoldable pub memory_type_text : CommitMemoryType → Text
memory_type_text user_preference = text "user_preference"
memory_type_text project_decision = text "project_decision"
memory_type_text fact = text "fact"
memory_type_text correction = text "correction"
memory_type_text inference = text "inference"
memory_type_text no_type = text "none"

unfoldable pub source_text : CommitSource → Text
source_text current_conversation = text "current_conversation"
source_text user_confirmation = text "user_confirmation"
source_text system_inference = text "system_inference"

-- `chronicle_type` is absent for the program's "none".
pub record DryRun : Type 0 where
  pub would_mutate : Bool
  pub description : Text
  pub chronicle_type : Option ChronicleType

abbrev pub refused : Text → DryRun
refused why = record { would_mutate = false; description = why; chronicle_type = none }

-- The part of `dryRunCommit` behind its look-up of the target.
unfoldable pub dry_run_on : CommitDecision → Text → CommitAction → DryRun
unfolding action_text truncate
dry_run_on d target write = record {
  would_mutate = true;
  description =
      text "Would append commit_note event to "
      ++ target
      ++ text ", creating new snapshot. content=\""
      ++ truncate d.content 80
      ++ text "\"";
  chronicle_type = some commit_write;
}
dry_run_on d target update = record {
  would_mutate = true;
  description =
      text "Would append commit_note event to "
      ++ target
      ++ text ", creating new snapshot. content=\""
      ++ truncate d.content 80
      ++ text "\"";
  chronicle_type = some commit_update;
}
dry_run_on d target freeze = record {
  would_mutate = true;
  description = text "Would freeze shard " ++ target ++ text " (status:active→frozen).";
  chronicle_type = some shard_frozen;
}
dry_run_on d target other =
    refused (text "Action " ++ action_text other ++ text " not implemented in MVP. No-op.")

abbrev pub dry_run_found : CommitDecision → Text → Option ShardManifest → DryRun
dry_run_found d target none =
    refused (text "Target shard " ++ target ++ text " not found; would be a no-op.")
dry_run_found d target (some manifest) = dry_run_on d target d.action

abbrev pub dry_run_target : CommitDecision → Option Text → Exec DryRun
dry_run_target d none =
    pure (refused (text "Action " ++ action_text d.action ++ text " requires target_shard_id."))
dry_run_target d (some target) = do
  manifest ← load_manifest target
  pure (dry_run_found d target manifest)

unfoldable pub changes_nothing : CommitAction → Bool
changes_nothing no_op = true
changes_nothing ask_confirmation = true
changes_nothing _ = false

unfoldable pub dry_run_commit : CommitDecision → Exec DryRun
unfolding changes_nothing dry_run_on load_manifest if_truthy
dry_run_commit d =
    if changes_nothing d.action
    then pure (refused (text "No durable change for action=" ++ action_text d.action ++ text "."))
    else dry_run_target d (if_truthy d.target_shard_id)

pub record Applied : Type 0 where
  pub applied : Bool
  pub description : Text

unfoldable pub frozen_manifest : ShardManifest → Text → ShardManifest
frozen_manifest manifest now = record manifest { status = frozen; updated_at = now }

-- `entry.status = "frozen"; entry.updatedAt = nowIso()` at the first entry of the shard.
unfoldable pub freeze_entry : Text → Text → List MemoryDirectoryEntry → List MemoryDirectoryEntry
freeze_entry shard_id now [] = []
freeze_entry shard_id now (e ∷ es) =
    if has_id shard_id e
    then record e { status = frozen; updated_at = now } ∷ es
    else e ∷ freeze_entry shard_id now es

abbrev pub freeze_directory : Text → MemoryDirectory → Exec Unit
freeze_directory shard_id dir =
    if any (has_id shard_id) dir.entries
    then (do
      entry_at ← now_iso
      save_directory (record dir { entries = freeze_entry shard_id entry_at dir.entries }))
    else pure tt

unfoldable pub freeze_shard : Text → Text → Option ShardManifest → Exec Applied
unfolding save_manifest load_directory save_directory append_chronicle
freeze_shard shard_id description none =
    pure (record { applied = false; description = text "Manifest missing." })
freeze_shard shard_id description (some manifest) = do
  manifest_at ← now_iso
  save_manifest (frozen_manifest manifest manifest_at)
  dir ← load_directory
  freeze_directory shard_id dir
  chronicle_id ← new_chronicle_id
  chronicle_at ← now_iso
  append_chronicle (record {
    chronicle_id = chronicle_id;
    type = shard_frozen;
    created_at = chronicle_at;
    target_shard_id = some shard_id;
    old_snapshot_id = none;
    new_snapshot_id = none;
    reason = text "Committer:freeze";
    actor = Actor.committer;
  })
  pure (record { applied = true; description = description })

unfoldable pub commit_note_input : CommitDecision → EventInput
commit_note_input d = record {
  role = commit_note;
  content = d.content;
  importance = some d.confidence;
  tags = some d.tags;
  source_conversation_id = none;
  source_message_id = none;
}

unfoldable pub commit_provenance : CommitDecision → ChronicleType → Provenance
unfolding action_text memory_type_text source_text
commit_provenance d t = record {
  reason =
      text "Committer:"
      ++ action_text d.action
      ++ text " memory_type="
      ++ memory_type_text d.memory_type
      ++ text " source="
      ++ source_text d.source;
  actor = Actor.committer;
  chronicle_type = t;
}

-- The mutation that a decision names, on its target.
unfoldable pub apply_on : CommitDecision → DryRun → Text → CommitAction → Exec Applied
unfolding commit_note_input commit_provenance freeze_shard load_manifest
apply_on d dry target write = do
  append_event_and_snapshot target (commit_note_input d) (commit_provenance d commit_write)
  pure (record { applied = true; description = dry.description })
apply_on d dry target update = do
  append_event_and_snapshot target (commit_note_input d) (commit_provenance d commit_update)
  pure (record { applied = true; description = dry.description })
apply_on d dry target freeze = do
  manifest ← load_manifest target
  freeze_shard target dry.description manifest
apply_on d dry target other = pure (record { applied = false; description = dry.description })

abbrev pub apply_target : CommitDecision → DryRun → Option Text → Exec Applied
apply_target d dry none =
    pure (record { applied = false; description = text "Missing targetShardId." })
apply_target d dry (some target) = apply_on d dry target d.action

-- `applyCommitDecision` behind its dry run.
unfoldable pub apply_after : CommitDecision → Bool → DryRun → Exec Applied
unfolding apply_on if_truthy
apply_after d confirmed dry =
    if not dry.would_mutate
    then pure (record { applied = false; description = dry.description })
    else if d.requires_user_confirmation && not confirmed
    then pure (record {
      applied = false;
      description =
          text "Decision requires user confirmation and none was given. Dry-run: "
          ++ dry.description
          ++ text " -- re-run with confirmed:true (CLI: --confirm) to apply.";
    })
    else apply_target d dry (if_truthy d.target_shard_id)

unfoldable pub apply_commit_decision : CommitDecision → Bool → Exec Applied
unfolding dry_run_commit apply_after
apply_commit_decision d confirmed = do dry ← dry_run_commit d; apply_after d confirmed dry
