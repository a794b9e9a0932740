-- ===== src/Commit/Guards.antt =====
-- What stands before a decision of the committer is applied.
use context_swarm_memory.Prelude.{
  ◌≡◌, ◌≢◌, refl, Bool, true, false, not, ◌&&◌, Option, none, some, ◌++◌, Text, text, Option-cases,
  Bool-cases, inl, inr, if◌then◌else◌,
}
use context_swarm_memory.Memory.{CommitDecision, CommitAction, write, update, freeze, ShardManifest}
use context_swarm_memory.Store.{load_manifest}
use context_swarm_memory.Store.Disk.{◌>>◌, World, Exec, pure, continue, Result, ok, err, ◌>>=◌}
use context_swarm_memory.Commit.{EventInput, Provenance, append_event_and_snapshot, if_truthy}
use context_swarm_memory.Commit.Decision.{
  dry_run_target, DryRun, Applied, freeze_shard, apply_on, apply_target, refused, dry_run_found,
  dry_run_commit, changes_nothing, apply_after, apply_commit_decision, action_text,
}

-- The dry run as a function of the store.
abbrev pub preview_target : CommitDecision → Option Text → World → DryRun
preview_target d none w =
    refused (text "Action " ++ action_text d.action ++ text " requires target_shard_id.")
preview_target d (some target) w = dry_run_found d target (w.manifests target)

unfoldable pub preview : CommitDecision → World → DryRun
preview d w =
    if changes_nothing d.action
    then refused (text "No durable change for action=" ++ action_text d.action ++ text ".")
    else preview_target d (if_truthy d.target_shard_id) w

dry_run_target-reads :
    (d : CommitDecision) (target : Option Text) (w : World)
    → dry_run_target d target w ≡ (ok (preview_target d target w), w)
unfolding load_manifest ◌>>=◌
dry_run_target-reads d none w = refl
dry_run_target-reads d (some target) w = refl

-- A dry run answers, and writes nothing.
pub dry_run_commit-reads :
    (d : CommitDecision) (w : World) → dry_run_commit d w ≡ (ok (preview d w), w)
unfolding dry_run_commit preview
dry_run_commit-reads d w = elim (Bool-cases (changes_nothing d.action)) [
  | inl e ↦ rw e
  | inr e ↦ rw (e, dry_run_target-reads d (if_truthy d.target_shard_id) w)
]

pub apply-preview :
    (d : CommitDecision) (confirmed : Bool) (w : World)
    → apply_commit_decision d confirmed w ≡ apply_after d confirmed (preview d w) w
unfolding apply_commit_decision ◌>>=◌
apply-preview d confirmed w = rw (dry_run_commit-reads d w)

-- What an action says: that it was applied, that it was not, or an error.
abbrev pub reported : Result Applied → Option Bool
reported (ok r) = some r.applied
reported (err e) = none

-- A decision that asks for a confirmation and gets none is reported as not applied, and nothing
-- changes.
pub apply_commit_decision-unconfirmed :
    (d : CommitDecision) (w : World)
    → d.requires_user_confirmation ≡ true
    → (reported (apply_commit_decision d false w).0 ≡ some false)
      × ((apply_commit_decision d false w).1 ≡ w)
unfolding apply_after
apply_commit_decision-unconfirmed d w asks = elim (Bool-cases ((preview d w).would_mutate)) [
  | inl e ↦ rw (apply-preview d false w, e, asks) (refl, refl)
  | inr e ↦ rw (apply-preview d false w, e) (refl, refl)
]

-- An action that never returns that it was not applied.
record Reports (m : Exec Applied) : Type 0 where
  told : (w : World) → reported (m w).0 ≢ some false

Reports-pure :
    (description : Text) → Reports (pure (record { applied = true; description = description }))
Reports-pure description = record { told = λ w e. cc }

Reports-continue :
    {A : Type 0} (r : Result A) (f : A → Exec Applied)
    → ((a : A) → Reports (f a))
    → Reports (continue r f)
Reports-continue (ok a) f k = record { told = (k a).told }
Reports-continue (err x) f k = record { told = λ w e. cc }

Reports-bind :
    {A : Type 0} (m : Exec A) (f : A → Exec Applied) → ((a : A) → Reports (f a)) → Reports (m >>= f)
unfolding ◌>>=◌
Reports-bind m f k = record { told = λ w. (Reports-continue (m w).0 f k).told (m w).1 }

ruleset report_rules = (Reports-pure, Reports-bind)

freeze_shard-Reports :
    (target description : Text) (m : ShardManifest)
    → Reports (freeze_shard target description (some m))
unfolding freeze_shard
freeze_shard-Reports target description m = search report_rules depth 30

append-Reports :
    (target description : Text) (event : EventInput) (p : Provenance)
    → Reports (do
      append_event_and_snapshot target event p
      pure (record { applied = true; description = description }))
append-Reports target description event p = search report_rules depth 30

-- An action that changes nothing unless it returns that it was applied.
record Candid (m : Exec Applied) : Type 0 where
  clean : (w : World) → reported (m w).0 ≡ some false → (m w).1 ≡ w

Candid-of_Reports : (m : Exec Applied) → Reports m → Candid m
Candid-of_Reports m k = record { clean = λ w e. absurd (k.told w e) }

freeze_found-Candid :
    (target description : Text) → Candid (load_manifest target >>= freeze_shard target description)
unfolding load_manifest ◌>>=◌
freeze_found-Candid target description = record {
  clean = λ w e. elim (Option-cases (w.manifests target)) [
    | inl absent ↦ rw absent (unfold freeze_shard in refl)
    | inr (m, found) ↦ absurd ((freeze_shard-Reports target description m).told w (rw found at e))
  ];
}

apply_on-Candid :
    (d : CommitDecision) (dry : DryRun) (target : Text) (a : CommitAction)
    → Candid (apply_on d dry target a)
unfolding apply_on
apply_on-Candid d dry target write = search (Candid-of_Reports, append-Reports)
apply_on-Candid d dry target update = search (Candid-of_Reports, append-Reports)
apply_on-Candid d dry target freeze = freeze_found-Candid target dry.description
apply_on-Candid d dry target _ = record { clean = λ w e. refl }

apply_target-Candid :
    (d : CommitDecision) (dry : DryRun) (target : Option Text) → Candid (apply_target d dry target)
apply_target-Candid d dry none = record { clean = λ w e. refl }
apply_target-Candid d dry (some target) = apply_on-Candid d dry target d.action

apply_after-Candid :
    (d : CommitDecision) (confirmed : Bool) (dry : DryRun) → Candid (apply_after d confirmed dry)
unfolding apply_after
apply_after-Candid d confirmed dry = record {
  clean = λ w e. elim (Bool-cases dry.would_mutate) [
    | inr no_change ↦ rw no_change
    | inl change ↦ elim (Bool-cases (d.requires_user_confirmation && not confirmed)) [
      | inl asks ↦ rw (change, asks)
      | inr goes ↦
          rw (change, goes)
            ((apply_target-Candid d dry (if_truthy d.target_shard_id)).clean w
              (rw (change, goes) at e))
    ]
  ];
}

-- A decision that is reported as not applied has changed nothing.
pub apply_commit_decision-unapplied :
    (d : CommitDecision) (confirmed : Bool) (w : World)
    → reported (apply_commit_decision d confirmed w).0 ≡ some false
    → (apply_commit_decision d confirmed w).1 ≡ w
apply_commit_decision-unapplied d confirmed w e =
    rw (apply-preview d confirmed w) (
      (apply_after-Candid d confirmed (preview d w)).clean w
        (rw (apply-preview d confirmed w) at e))
