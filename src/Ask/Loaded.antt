-- ===== src/Ask/Loaded.antt =====
-- The views that are probed: each has what the storage holds for its candidate, and no shard stands
-- twice.
use context_swarm_memory.Prelude.{
  ◌≡◌, refl, ap, Option, none, some, some_inj, subst, list_eq, nat_eq_inst, List, [], ◌∷◌, map, ltb,
  length, ◌&&◌, All, Bool-cases, inl, inr, Text,
}
use context_swarm_memory.Memory.{CandidateScore}
use context_swarm_memory.Selection.{Score}
use context_swarm_memory.Selection.Dedupe.{IsDistinct}
use context_swarm_memory.Ask.{RouterCut, AskSettings, AskOutside, ShardDigest, View, shard_of}
use context_swarm_memory.Ask.Gate.{
  gated, pass_gate, pass_with, load_view, probe_budget, probed_views,
}
use context_swarm_memory.Ask.Jobs.{
  bind-some, map-run_jobs, run_jobs-All, IsDistinct-take, IsDistinct-keep_at, All-keep_at,
}

abbrev pub candidate_shard : CandidateScore → Text
candidate_shard c = c.entry.id

All-true : {A : Type 0} (xs : List A) → All {0, 0} (λ a. Unit) xs
All-true [] = tt
All-true (x ∷ xs) = (tt, All-true xs)

module _ {S : Type 0} ⦃sc : Score S⦄ (outside : AskOutside S) where
  abbrev pub IsLoaded : View → Type 0
  IsLoaded v =
      outside.load_snapshot v.candidate.entry.id v.candidate.entry.snapshot_id ≡ some v.snapshot

  load_view-candidate :
      (c : CandidateScore) (v : View) → load_view outside c ≡ some v → v.candidate ≡ c
  load_view-candidate c v h =
      let (s, e, k) = bind-some _ _ h in subst (λ (w : View). w.candidate ≡ c) (some_inj k) refl

  load_view-IsLoaded : (c : CandidateScore) (v : View) → load_view outside c ≡ some v → IsLoaded v
  load_view-IsLoaded c v h = let (s, e, k) = bind-some _ _ h in subst IsLoaded (some_inj k) e

  module _ (opts : AskSettings) where
    module _ (P : List View → Type 0) (views : List View) (all : P views)
        (keeps : (scores : List S) → P (gated opts.local_keep scores views)) where
      pass_with-keeps :
          (gate : Option (List ShardDigest → Option (List S))) {kept : List View}
          → pass_with opts.local_keep outside gate views ≡ some kept
          → P kept
      unfolding pass_with
      pass_with-keeps none h = subst P (some_inj h) all
      pass_with-keeps (some gate) h =
          let (scores, e, k) = bind-some _ _ h in subst P (some_inj k) (keeps scores)

      pass_gate-keeps : {kept : List View} → pass_gate opts outside views ≡ some kept → P kept
      unfolding pass_gate
      pass_gate-keeps h =
          elim (Bool-cases (ltb 0 opts.local_keep && ltb opts.local_keep (length views))) [
            | inl e ↦ pass_with-keeps outside.local_probe_gate (rw e at h)
            | inr e ↦ subst P (some_inj (rw e at h)) all
          ]

    pub probed_views-IsLoaded :
        (cut : RouterCut) {views : List View}
        → probed_views opts outside cut ≡ some views
        → All IsLoaded views
    unfolding probed_views
    probed_views-IsLoaded cut h =
        let (loaded, e, k) = bind-some _ _ h in
        let all =
          run_jobs-All (load_view outside) (λ c. Unit) IsLoaded (λ c v u. load_view-IsLoaded c v) _
            (All-true _) e in
        pass_gate-keeps (λ l. All IsLoaded l) loaded all
          (λ scores. unfold gated in All-keep_at IsLoaded _ 0 loaded all) k

    pub probed_views-IsDistinct :
        (cut : RouterCut) {views : List View}
        → IsDistinct (map candidate_shard cut.candidates)
        → probed_views opts outside cut ≡ some views
        → IsDistinct (map shard_of views)
    unfolding probed_views
    probed_views-IsDistinct cut d h =
        let (loaded, e, k) = bind-some _ _ h in
        let same =
          map-run_jobs (load_view outside) candidate_shard shard_of
            (λ c v q. ap candidate_shard (load_view-candidate c v q)) _ e in
        let all : IsDistinct (map shard_of loaded) =
          rw same (IsDistinct-take candidate_shard (probe_budget opts cut) cut.candidates d) in
        pass_gate-keeps (λ l. IsDistinct (map shard_of l)) loaded all
          (λ scores. unfold gated in IsDistinct-keep_at shard_of _ 0 loaded all) k
