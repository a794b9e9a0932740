-- ===== src/Commit/Performed.antt =====
-- What a decision that passes its guards does.
use context_swarm_memory.Prelude.{
  ◌≡◌, refl, sym, ap, ◌∙◌, Bool, true, false, Option, none, some, [], ◌∷◌, ◌++◌, Text, Bool-cases,
  inl, inr, ==_refl, list_eq, nat_eq_inst,
}
use context_swarm_memory.Memory.{
  CommitDecision, CommitAction, write, update, split, merge, freeze, no_op, ask_confirmation,
  ShardManifest, frozen, ChronicleEvent,
}
use context_swarm_memory.Store.{load_manifest, has_id, directory_or_empty}
use context_swarm_memory.Store.Disk.{
  World, Exec, Result, ok, err, shard_not_active, pure, ◌>>=◌, ◌>>◌,
}
use context_swarm_memory.Commit.{
  EventInput, Provenance, append_event_and_snapshot, if_truthy, is_active, append_note,
}
use context_swarm_memory.Commit.Decision.{
  DryRun, Applied, freeze_shard, frozen_manifest, dry_run_on, apply_on, dry_run_commit,
  changes_nothing, apply_after, apply_commit_decision, commit_provenance,
}
use context_swarm_memory.Commit.Append.{written}
use context_swarm_memory.Commit.Freeze.{freeze-run, freeze_note, any_of_find, after_freeze}
use context_swarm_memory.Commit.Outcomes.{refusal, tracked, append-after_append, append-refusal}
use context_swarm_memory.Commit.Sound.{IsSound}
use context_swarm_memory.Commit.Guards.{preview, dry_run_commit-reads, apply-preview}

-- The action returned that it was applied, in the words of the dry run, and put one entry into the
-- chronicle: about the target, and of the type that the dry run named.
pub record IsPerformed (w : World) (target : Text) (dry : DryRun) (result : Result Applied)
    (u : World) : Type 0 where
  pub returned : result ≡ ok (record { applied = true; description = dry.description })
  pub note : ChronicleEvent
  pub chronicle : u.chronicle ≡ w.chronicle ++ note ∷ []
  pub type : some note.type ≡ dry.chronicle_type
  pub about : note.target_shard_id ≡ some target

of_ok : {a b : DryRun} {w u : World} → Path (Result DryRun × World) (ok a, w) (ok b, u) → a ≡ b
of_ok e = cc

abbrev pub reported_change : Result DryRun → Option Bool
reported_change (ok dry) = some dry.would_mutate
reported_change (err e) = none

abbrev pub is_append : CommitAction → Bool
is_append write = true
is_append update = true
is_append _ = false

abbrev applied_as : Text → Exec Applied
applied_as description = pure (record { applied = true; description = description })

module _ (d : CommitDecision) (target : Text) (w : World) (m : ShardManifest)
    (found : w.manifests target ≡ some m) (named : if_truthy d.target_shard_id ≡ some target) where
  preview-on : changes_nothing d.action ≡ false → preview d w ≡ dry_run_on d target d.action
  unfolding preview
  preview-on changes = rw (changes, named, found)

  apply-on :
      changes_nothing d.action ≡ false
      → (preview d w).would_mutate ≡ true
      → apply_commit_decision d true w ≡ apply_on d (preview d w) target d.action w
  unfolding apply_after
  apply-on changes mutates =
      apply-preview d true w ∙ elim (Bool-cases d.requires_user_confirmation) [
        | inl asks ↦ rw (mutates, asks, named)
        | inr asks ↦ rw (mutates, asks, named)
      ]

  preview-changes : (preview d w).would_mutate ≡ true → changes_nothing d.action ≡ false
  unfolding preview
  preview-changes mutates = elim (Bool-cases (changes_nothing d.action)) [
    | inl e ↦ cc (rw e at mutates)
    | inr e ↦ e
  ]

refusal_frozen :
    (target : Text) (w : World) (m : ShardManifest)
    → m.id ≡ target
    → refusal target ((after_freeze target m w).manifests target)
      ≡ some (shard_not_active target frozen)
unfolding frozen_manifest is_active
refusal_frozen target w m e = rw (e, ==_refl target)

module _ (d : CommitDecision) (target : Text) (w : World) (h : IsSound w) (m : ShardManifest)
    (found : w.manifests target ≡ some m) where
  append-IsPerformed :
      (dry : DryRun) (event : EventInput) (p : Provenance)
      → is_active m.status ≡ true
      → some p.chronicle_type ≡ dry.chronicle_type
      → let out = (append_event_and_snapshot target event p >> applied_as dry.description) w in
        IsPerformed w target dry out.0 out.1
  unfolding ◌>>=◌ append_note
  append-IsPerformed dry event p live type =
      let (prev, stored, run, kept) =
        append-after_append target event p w m h.consistent h.unlit found live in
      rw run (record {
        returned = refl;
        note = (written target event p w m prev).chronicle;
        chronicle = refl;
        type = type;
        about = refl;
      })

  freeze_eq :
      (description : Text)
      → (load_manifest target >>= freeze_shard target description) w
        ≡ (ok (record { applied = true; description = description }), after_freeze target m w)
  unfolding ◌>>=◌ load_manifest
  freeze_eq description =
      let t = tracked target m h.consistent found in
      rw found (
        freeze-run target m w description h.unlit
          (any_of_find (has_id target) (directory_or_empty w.directory).entries t.listed))

  on-IsPerformed :
      (a : CommitAction)
      → is_active m.status ≡ true
      → (dry_run_on d target a).would_mutate ≡ true
      → let out = apply_on d (dry_run_on d target a) target a w in
        IsPerformed w target (dry_run_on d target a) out.0 out.1
  unfolding apply_on dry_run_on commit_provenance
  on-IsPerformed write live e = append-IsPerformed _ _ _ live refl
  on-IsPerformed update live e = append-IsPerformed _ _ _ live refl
  on-IsPerformed freeze live e = rw (freeze_eq (dry_run_on d target freeze).description) (record {
    returned = refl;
    note = freeze_note target m w;
    chronicle = refl;
    type = refl;
    about = refl;
  })
  on-IsPerformed split live e = cc
  on-IsPerformed merge live e = cc
  on-IsPerformed no_op live e = cc
  on-IsPerformed ask_confirmation live e = cc

  frozen_run :
      (dry : DryRun) (a : CommitAction)
      → a ≡ freeze
      → apply_on d dry target a w
        ≡ (ok (record { applied = true; description = dry.description }), after_freeze target m w)
  unfolding apply_on
  frozen_run dry a e = rw e (freeze_eq dry.description)

-- With no crash, in a consistent store, a decision that is confirmed, whose dry run announces a
-- change and whose target is active, is performed: it returns that it was applied, in the words of
-- the dry run, and the chronicle gets one entry, about the target and of the announced type.
pub apply_commit_decision-IsPerformed :
    (d : CommitDecision) (target : Text) (w : World) (m : ShardManifest) (dry : DryRun)
    → IsSound w
    → dry_run_commit d w ≡ (ok dry, w)
    → dry.would_mutate ≡ true
    → if_truthy d.target_shard_id ≡ some target
    → w.manifests target ≡ some m
    → is_active m.status ≡ true
    → IsPerformed w target dry (apply_commit_decision d true w).0 (apply_commit_decision d true w).1
apply_commit_decision-IsPerformed d target w m dry h runs mutates named found live =
    let e : preview d w ≡ dry = of_ok (sym (dry_run_commit-reads d w) ∙ runs) in
    let changes = preview-changes d target w m found named (rw e mutates) in
    let there = preview-on d target w m found named changes in
    rw (apply-on d target w m found named changes (rw e mutates), sym e, there)
      (on-IsPerformed d target w h m found d.action live
        (ap (λ (x : DryRun). x.would_mutate) (sym there ∙ e) ∙ mutates))

-- With no crash, in a consistent store: after a confirmed decision to freeze a known shard is applied,
-- every append to the shard is refused because it is frozen, and changes nothing.
pub apply_commit_decision-frozen :
    (d : CommitDecision) (target : Text) (w : World) (m : ShardManifest) (event : EventInput)
    (p : Provenance)
    → IsSound w
    → d.action ≡ freeze
    → if_truthy d.target_shard_id ≡ some target
    → w.manifests target ≡ some m
    → append_event_and_snapshot target event p (apply_commit_decision d true w).1
      ≡ (err (shard_not_active target frozen), (apply_commit_decision d true w).1)
apply_commit_decision-frozen d target w m event p h action named found =
    let changes : changes_nothing d.action ≡ false = unfold changes_nothing in rw action in
    let there = preview-on d target w m found named changes in
    let mutates : (preview d w).would_mutate ≡ true = unfold dry_run_on in rw (there, action) in
    let run : apply_commit_decision d true w ≡ (
      ok (record { applied = true; description = (preview d w).description }),
      after_freeze target m w,
    ) =
      apply-on d target w m found named changes mutates
      ∙ frozen_run d target w h m found (preview d w) d.action action in
    rw run (
      append-refusal target event p (after_freeze target m w) (shard_not_active target frozen)
        (refusal_frozen target w m (tracked target m h.consistent found).named))

append-changes : (a : CommitAction) → is_append a ≡ true → changes_nothing a ≡ false
unfolding changes_nothing
append-changes write e = refl
append-changes update e = refl
append-changes split e = cc
append-changes merge e = cc
append-changes freeze e = cc
append-changes no_op e = cc
append-changes ask_confirmation e = cc

append-mutates :
    (d : CommitDecision) (target : Text) (a : CommitAction)
    → is_append a ≡ true
    → (dry_run_on d target a).would_mutate ≡ true
unfolding dry_run_on
append-mutates d target write e = refl
append-mutates d target update e = refl
append-mutates d target split e = cc
append-mutates d target merge e = cc
append-mutates d target freeze e = cc
append-mutates d target no_op e = cc
append-mutates d target ask_confirmation e = cc

module _ (d : CommitDecision) (dry : DryRun) (target : Text) (w : World) (m : ShardManifest)
    (found : w.manifests target ≡ some m) (dead : is_active m.status ≡ false) where
  refused_append :
      (event : EventInput) (p : Provenance)
      → (append_event_and_snapshot target event p >> applied_as dry.description) w
        ≡ (err (shard_not_active target m.status), w)
  unfolding ◌>>=◌
  refused_append event p =
      rw (append-refusal target event p w (shard_not_active target m.status) (rw (found, dead)))

  append_refused :
      (a : CommitAction)
      → is_append a ≡ true
      → apply_on d dry target a w ≡ (err (shard_not_active target m.status), w)
  unfolding apply_on
  append_refused write e = refused_append _ _
  append_refused update e = refused_append _ _
  append_refused split e = cc
  append_refused merge e = cc
  append_refused freeze e = cc
  append_refused no_op e = cc
  append_refused ask_confirmation e = cc

-- On a shard that is not active, the dry run of a write or an update announces a change all the same;
-- when the decision is applied, it is refused because of the shard's status, and nothing changes.
pub apply_commit_decision-inactive :
    (d : CommitDecision) (target : Text) (w : World) (m : ShardManifest)
    → is_append d.action ≡ true
    → if_truthy d.target_shard_id ≡ some target
    → w.manifests target ≡ some m
    → is_active m.status ≡ false
    → (reported_change (dry_run_commit d w).0 ≡ some true)
      × (apply_commit_decision d true w ≡ (err (shard_not_active target m.status), w))
apply_commit_decision-inactive d target w m appends named found dead =
    let changes = append-changes d.action appends in
    let there = preview-on d target w m found named changes in
    let mutates : (preview d w).would_mutate ≡ true =
      ap (λ (x : DryRun). x.would_mutate) there ∙ append-mutates d target d.action appends in
    (
      rw (dry_run_commit-reads d w) (ap some mutates),
      apply-on d target w m found named changes mutates
          ∙ append_refused d (preview d w) target w m found dead d.action appends,
    )
