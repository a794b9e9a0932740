-- ===== src/Commit/Refines.antt =====
-- The operations implement the steps of what is remembered.
use context_swarm_memory.Prelude.{
  ◌≡◌, refl, sym, ap, ◌∙◌, Bool, Option, none, some, ◌++◌, append_assoc, Text, Option-cases, inl,
  inr, subst,
}
use context_swarm_memory.Memory.{CommitDecision, CommitAction, write, update, freeze, active}
use context_swarm_memory.Store.{load_manifest, has_id, directory_or_empty}
use context_swarm_memory.Store.Keeps.{Keeps, Keeps-pure, Keeps-gets, Keeps-bind, Keeps-if}
use context_swarm_memory.Store.Disk.{World, ◌>>=◌}
use context_swarm_memory.Commit.{
  EventInput, Provenance, ShardInput, append_event_and_snapshot, create_shard,
}
use context_swarm_memory.Commit.Consistent.{IsUnused, IsShard}
use context_swarm_memory.Commit.Freeze.{freeze-run, any_of_find}
use context_swarm_memory.Commit.Outcomes.{
  refusal, refusal-none, tracked, append-refusal, append-after_append, create-after_create,
}
use context_swarm_memory.Commit.Preserved.{after_freeze-IsConsistent}
use context_swarm_memory.Commit.Decision.{
  DryRun, freeze_shard, apply_on, apply_target, apply_after, dry_run_target, dry_run_commit,
  apply_commit_decision,
}
use context_swarm_memory.Commit.Sound.{IsSound}
use context_swarm_memory.Commit.Calm.{Operates, here, create, append, apply}
use context_swarm_memory.Commit.Remembered.{
  Remembered, ShardMemory, Reaches, Grows, remembered, append-Step, create-Step, freeze-Step,
  Step-Grows, Grows-refl, here, after,
}

ruleset keeps_rules = (Keeps-pure, Keeps-gets, Keeps-bind, Keeps-if)

-- A sound store whose memory is reached from a given one.
record Follows (k : Remembered) (w : World) : Type 0 where
  sound : IsSound w
  reached : Reaches k (remembered w)

module _ (k : Remembered) where
  create_shard-Follows : (s : ShardInput) → Keeps (Follows k) (create_shard s)
  create_shard-Follows s = record {
    at = λ w h. elim (create-after_create s w h.sound.consistent h.sound.unlit) [
      | inl (e, r, c) ↦
          let u : IsUnused w s.id =
            subst (λ o. IsShard w s.id o) e (h.sound.consistent.shard s.id) in
          rw r (record {
            sound = record { consistent = c; unlit = h.sound.unlit };
            reached = Reaches.after h.reached (create-Step s w u e);
          })
      | inr r ↦ rw r h
    ];
  }

  append_event_and_snapshot-Follows :
      (shard_id : Text) (event : EventInput) (p : Provenance)
      → Keeps (Follows k) (append_event_and_snapshot shard_id event p)
  append_event_and_snapshot-Follows shard_id event p = record {
    at = λ w h. elim (Option-cases (refusal shard_id (w.manifests shard_id))) [
      | inr (e, refusing) ↦ rw (append-refusal shard_id event p w e refusing) h
      | inl granted ↦
          let (m, found, live) = refusal-none shard_id _ granted in
          let (prev, stored, run, kept) =
            append-after_append shard_id event p w m h.sound.consistent h.sound.unlit found live in
          rw run (record {
            sound = record { consistent = kept; unlit = h.sound.unlit };
            reached = Reaches.after h.reached (
                append-Step shard_id event p w m (tracked shard_id m h.sound.consistent found) found
                  prev stored live);
          })
    ];
  }

  freeze_found-Follows :
      (target description : Text)
      → Keeps (Follows k) (load_manifest target >>= freeze_shard target description)
  unfolding ◌>>=◌ load_manifest
  freeze_found-Follows target description = record {
    at = λ w h. elim (Option-cases (w.manifests target)) [
      | inl absent ↦ rw absent (unfold freeze_shard in h)
      | inr (m, found) ↦
          let t = tracked target m h.sound.consistent found in
          rw
            (
              found,
              freeze-run target m w description h.sound.unlit
                  (any_of_find (has_id target) (directory_or_empty w.directory).entries t.listed),
            )
            (record {
              sound = record {
                consistent = after_freeze-IsConsistent target w m t h.sound.consistent;
                unlit = h.sound.unlit;
              };
              reached = Reaches.after h.reached (freeze-Step target w m t found);
            })
    ];
  }

  apply_on-Follows :
      (d : CommitDecision) (dry : DryRun) (target : Text) (a : CommitAction)
      → Keeps (Follows k) (apply_on d dry target a)
  unfolding apply_on
  apply_on-Follows d dry target write = search (keeps_rules, append_event_and_snapshot-Follows)
  apply_on-Follows d dry target update = search (keeps_rules, append_event_and_snapshot-Follows)
  apply_on-Follows d dry target freeze = freeze_found-Follows target dry.description
  apply_on-Follows d dry target _ = search keeps_rules

  apply_target-Follows :
      (d : CommitDecision) (dry : DryRun) (target : Option Text)
      → Keeps (Follows k) (apply_target d dry target)
  apply_target-Follows d dry none = search keeps_rules
  apply_target-Follows d dry (some target) = search apply_on-Follows

  dry_run_target-Follows :
      (d : CommitDecision) (target : Option Text) → Keeps (Follows k) (dry_run_target d target)
  unfolding load_manifest
  dry_run_target-Follows d none = search keeps_rules
  dry_run_target-Follows d (some target) = search keeps_rules

  apply_commit_decision-Follows :
      (d : CommitDecision) (confirmed : Bool)
      → Keeps (Follows k) (apply_commit_decision d confirmed)
  unfolding apply_commit_decision apply_after dry_run_commit
  apply_commit_decision-Follows d confirmed =
      search (keeps_rules, apply_target-Follows, dry_run_target-Follows) depth 10

  Operates-Follows : {w u : World} → Operates w u → Follows k w → Follows k u
  Operates-Follows here h = h
  Operates-Follows (create {v} l s) h = (create_shard-Follows s).at v (Operates-Follows l h)
  Operates-Follows (append {v} l id e p) h =
      (append_event_and_snapshot-Follows id e p).at v (Operates-Follows l h)
  Operates-Follows (apply {v} l d c) h =
      (apply_commit_decision-Follows d c).at v (Operates-Follows l h)

-- Seen from outside, the operations implement a memory of shards with a status and a history: from a
-- consistent store, as long as no process dies, whatever operations run, successful or refused, what
-- the store remembers goes through steps in which a shard is born empty and active, an active shard
-- learns one event, or a shard is frozen.
pub Operates-Reaches :
    (w u : World) → IsSound w → Operates w u → Reaches (remembered w) (remembered u)
Operates-Reaches w u h l =
    (Operates-Follows (remembered w) l (record { sound = h; reached = Reaches.here })).reached

was_active : {s t : ShardMemory} → Grows s t → t.status ≡ active → s.status ≡ active
was_active g live = elim g.standing [ inl e ↦ sym e ∙ live | inr ended ↦ cc (ended, live) ]

Grows-trans : {s t u : ShardMemory} → Grows s t → Grows t u → Grows s u
Grows-trans {s} {t} {u} g h = record {
  added = g.added ++ h.added;
  history = h.history ∙ ap (λ l. l ++ h.added) g.history ∙ append_assoc s.history g.added h.added;
  untouched = elim g.untouched [
    | inr live ↦ inr live
    | inl same ↦ elim h.untouched [
      | inl still ↦ inl (rw (same, still) refl)
      | inr live ↦ inr (was_active g live)
    ]
  ];
  standing = elim h.standing [
    | inr ended ↦ inr ended
    | inl same ↦ elim g.standing [ inl e ↦ inl (same ∙ e) | inr ended ↦ inr (same ∙ ended) ]
  ];
}

Reaches-Grows :
    {k l : Remembered}
    → Reaches k l
    → (i : Text) (s : ShardMemory) → k i ≡ some s
    → (t : ShardMemory) × (l i ≡ some t) × Grows s t
Reaches-Grows here i s h = (s, h, Grows-refl s)
Reaches-Grows (after r x) i s h =
    let (t, e, g) = Reaches-Grows r i s h in
    let (u, d, f) = Step-Grows x i t e in (u, d, Grows-trans g f)

-- From a consistent store, as long as no process dies, the memory of a shard only grows: after
-- whatever operations, the history of a shard that was remembered is its old history with new events
-- behind it, and with none if the shard was not active; its status is the old one or frozen.
pub Operates-Grows :
    (w u : World)
    → IsSound w
    → Operates w u
    → (i : Text) (s : ShardMemory) → remembered w i ≡ some s
    → (t : ShardMemory) × (remembered u i ≡ some t) × Grows s t
Operates-Grows w u h l = Reaches-Grows (Operates-Reaches w u h l)
