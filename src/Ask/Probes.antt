-- ===== src/Ask/Probes.antt =====
-- The probes of a run speak of the snapshots that were loaded for their candidates, in one call each
-- or over a shared one.
use context_swarm_memory.Prelude.{
  ◌≡◌, refl, sym, ◌∙◌, ap, ap₂, Option, none, some, some_inj, subst, Option-cases, List, [], ◌∷◌,
  map, Memᴰ, Memᴰ-map, All, All-Memᴰ, All-map, Bool-cases, inl, inr, Text, ◌==◌, ==_iff, list_eq,
  nat_eq_inst, find,
}
use context_swarm_memory.Memory.{MemoryShardSnapshot}
use context_swarm_memory.Probe.{
  ProbeResult, Verdict, reconcile, result_for, padded, from_verdict, is_for, index_from,
}
use context_swarm_memory.Selection.{Score}
use context_swarm_memory.Selection.Dedupe.{IsDistinct}
use context_swarm_memory.Ask.{AskSettings, AskOutside, Reply, View, shard_of, present}
use context_swarm_memory.Ask.Probing.{
  Probed, Probing, solo_result, probe_shard, output_for, probe_job, probe_shards_batched,
  view_output, over_batch, probe_batched, probe_each, use_batched_probe,
}
use context_swarm_memory.Ask.Run.{probe_all}
use context_swarm_memory.Ask.Loaded.{IsLoaded}
use context_swarm_memory.Ask.Jobs.{
  bind-some, map-run_jobs, run_jobs-All, present-Memᴰ, find-Memᴰ, distinct-same,
}

-- The result of a view names the shard and the snapshot of its candidate, which has one.
abbrev pub Names : View → Option (Reply ProbeResult) → Type 0
Names v none = Unit
Names v (some o) =
    (snap : MemoryShardSnapshot) × (v.snapshot ≡ some snap)
    × (o.result.shard_id ≡ shard_of v)
    × (o.result.snapshot_id ≡ v.candidate.entry.snapshot_id)

result_for-names :
    (snap : MemoryShardSnapshot) (o : Option Verdict)
    → ((result_for snap o).shard_id ≡ snap.shard_id)
      × ((result_for snap o).snapshot_id ≡ snap.snapshot_id)
unfolding padded from_verdict
result_for-names snap none = (refl, refl)
result_for-names snap (some v) = (refl, refl)

abbrev pub probed_shard : Probed → Text
probed_shard p = shard_of p.view

module _ {S : Type 0} ⦃sc : Score S⦄ (outside : AskOutside S)
    (named : (i s : Text) (snap : MemoryShardSnapshot)
      → outside.load_snapshot i s ≡ some (some snap)
      → (snap.shard_id ≡ i) × (snap.snapshot_id ≡ s)) where
  abbrev pub IsFaithful : Probed → Type 0
  IsFaithful p = IsLoaded outside p.view × Names p.view p.output

  names :
      (v : View) (snap : MemoryShardSnapshot)
      → IsLoaded outside v
      → v.snapshot ≡ some snap
      → (snap.shard_id ≡ shard_of v) × (snap.snapshot_id ≡ v.candidate.entry.snapshot_id)
  names v snap l e = named _ _ snap (l ∙ ap some e)

  output_for-Names :
      (v : View) (s : Option MemoryShardSnapshot) {o : Option (Reply ProbeResult)}
      → IsLoaded outside v
      → v.snapshot ≡ s
      → output_for outside s ≡ some o
      → Names v o
  unfolding probe_shard solo_result
  output_for-Names v none l e h = subst (Names v) (some_inj h) tt
  output_for-Names v (some snap) l e h =
      let (r, p, q) = bind-some _ _ h in
      let (verdict, a, b) = bind-some _ _ p in
      let (shard, snapshot) = names v snap l e in
      subst (Names v) (some_inj q) (
        subst (λ (w : Reply ProbeResult). Names v (some w)) (some_inj b) (snap, e, shard, snapshot))

  probe_job-view : (v : View) (p : Probed) → probe_job outside v ≡ some p → p.view ≡ v
  unfolding probe_job
  probe_job-view v p h =
      let (o, e, k) = bind-some _ _ h in subst (λ (x : Probed). x.view ≡ v) (some_inj k) refl

  probe_job-IsFaithful :
      (v : View) (p : Probed) → IsLoaded outside v → probe_job outside v ≡ some p → IsFaithful p
  unfolding probe_job
  probe_job-IsFaithful v p l h =
      let (o, e, k) = bind-some _ _ h in
      subst IsFaithful (some_inj k) (l, output_for-Names v v.snapshot l refl e)

  -- The snapshot that a result of a shared call speaks of is that of a view.
  batch-snapshot :
      (verdicts : List Verdict) (vs : List View) (p : ProbeResult)
      → All (IsLoaded outside) vs
      → Memᴰ p (reconcile verdicts (present (map (λ (w : View). w.snapshot) vs)))
      → (w : View) × Memᴰ w vs
        × (p.shard_id ≡ shard_of w)
        × (p.snapshot_id ≡ w.candidate.entry.snapshot_id)
  unfolding reconcile
  batch-snapshot verdicts vs p l m =
      let (snap, k, e) = Memᴰ-map _ (present (map (λ (w : View). w.snapshot) vs)) m in
      let (w, n, d) = Memᴰ-map (λ (w : View). w.snapshot) vs (present-Memᴰ _ k) in
      let (a, b) = result_for-names snap (find (is_for snap.shard_id) (index_from [] verdicts)) in
      let (shard, snapshot) = names w snap (All-Memᴰ (IsLoaded outside) l n) (sym d) in
      (
        w,
        n,
        ap (λ (r : ProbeResult). r.shard_id) e ∙ a ∙ shard,
        ap (λ (r : ProbeResult). r.snapshot_id) e ∙ b ∙ snapshot,
      )

  view_output-Names :
      (verdicts : List Verdict) (vs : List View) (v : View)
      → All (IsLoaded outside) vs
      → IsDistinct (map shard_of vs)
      → Memᴰ v vs
      → (s : Option MemoryShardSnapshot) → v.snapshot ≡ s
      → Names v (
          view_output outside
            (reconcile verdicts (present (map (λ (w : View). w.snapshot) vs)))
            v
            s)
  view_output-Names verdicts vs v l d m none e = tt
  view_output-Names verdicts vs v l d m (some snap) e =
      let results = reconcile verdicts (present (map (λ (w : View). w.snapshot) vs)) in
      elim (Option-cases (find (λ (r : ProbeResult). r.shard_id == shard_of v) results)) [
        | inl f ↦ rw f tt
        | inr (p, f) ↦
            let (k, q) = find-Memᴰ _ results f in
            let same = (==_iff p.shard_id (shard_of v)).0 q in
            let (w, n, a, b) = batch-snapshot verdicts vs p l k in
            let agree = distinct-same shard_of vs d n m (sym a ∙ same) in
            rw f (snap, e, same, b ∙ ap (λ (u : View). u.candidate.entry.snapshot_id) agree)
      ]

  over_batch-IsFaithful :
      (verdicts : List Verdict) (vs : List View)
      → All (IsLoaded outside) vs
      → IsDistinct (map shard_of vs)
      → All IsFaithful (
          map
            (over_batch outside (reconcile verdicts (present (map (λ (w : View). w.snapshot) vs))))
            vs)
  unfolding over_batch
  over_batch-IsFaithful verdicts vs l d = All-map _ IsFaithful vs (λ v m.
      (All-Memᴰ (IsLoaded outside) l m, view_output-Names verdicts vs v l d m v.snapshot refl))

  map-over_batch :
      (results : List ProbeResult) (vs : List View)
      → map probed_shard (map (over_batch outside results) vs) ≡ map shard_of vs
  unfolding over_batch
  map-over_batch results [] = refl
  map-over_batch results (v ∷ vs) = ap (λ r. shard_of v ∷ r) (map-over_batch results vs)

  -- What is known of the probes of some views.
  pub record IsProbing (views : List View) (probing : Probing) : Type 0 where
    pub faithful : All IsFaithful probing.probed
    pub same : map probed_shard probing.probed ≡ map shard_of views

  -- The results of the shared call, for the snapshots that there are.
  batched_results :
      (snaps : List MemoryShardSnapshot) {r : Reply (List ProbeResult)}
      → probe_shards_batched outside snaps ≡ some r
      → (verdicts : List Verdict) × (r.result ≡ reconcile verdicts snaps)
  unfolding probe_shards_batched reconcile
  batched_results [] h = ([], sym (ap (λ (r : Reply (List ProbeResult)). r.result) (some_inj h)))
  batched_results (s ∷ ss) h =
      let (r, e, k) = bind-some _ _ h in
      (r.result, sym (ap (λ (r : Reply (List ProbeResult)). r.result) (some_inj k)))

  probe_each-IsProbing :
      (views : List View) {probing : Probing}
      → All (IsLoaded outside) views
      → probe_each outside views ≡ some probing
      → IsProbing views probing
  unfolding probe_each
  probe_each-IsProbing views l h =
      let (probed, e, k) = bind-some _ _ h in
      subst (IsProbing views) (some_inj k) (record {
        faithful =
            run_jobs-All (probe_job outside) (IsLoaded outside) IsFaithful probe_job-IsFaithful
              views l e;
        same =
            map-run_jobs (probe_job outside) shard_of probed_shard
              (λ v p q. ap shard_of (probe_job-view v p q)) views e;
      })

  probe_batched-IsProbing :
      (views : List View) {probing : Probing}
      → All (IsLoaded outside) views
      → IsDistinct (map shard_of views)
      → probe_batched outside views ≡ some probing
      → IsProbing views probing
  unfolding probe_batched
  probe_batched-IsProbing [] l d h =
      subst (IsProbing []) (some_inj h) (record { faithful = tt; same = refl })
  probe_batched-IsProbing (v ∷ vs) l d h =
      let (solo, e, k) = bind-some _ _ h in
      let (batch, f, j) = bind-some _ _ k in
      let (verdicts, g) = batched_results _ f in
      subst (IsProbing (v ∷ vs)) (some_inj j) (record {
        faithful = (
          probe_job-IsFaithful v solo l.0 e,
          subst (λ results. All IsFaithful (map (over_batch outside results) vs)) (sym g)
              (over_batch-IsFaithful verdicts vs l.1 d.1),
        );
        same =
            ap₂ (λ x xs. x ∷ xs) (ap shard_of (probe_job-view v solo e))
              (map-over_batch batch.result vs);
      })

  pub probe_all-IsProbing :
      (opts : AskSettings) (views : List View) {probing : Probing}
      → All (IsLoaded outside) views
      → IsDistinct (map shard_of views)
      → probe_all opts outside views ≡ some probing
      → IsProbing views probing
  unfolding probe_all
  probe_all-IsProbing opts views l d h = elim (Bool-cases (use_batched_probe opts views)) [
    | inl e ↦ probe_batched-IsProbing views l d (rw e at h)
    | inr e ↦ probe_each-IsProbing views l (rw e at h)
  ]
