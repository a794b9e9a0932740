-- ===== src/Ask/Cited.antt =====
-- What the recalls of a run cite is stored.
use context_swarm_memory.Prelude.{
  ◌≡◌, sym, ◌∙◌, ap, ap₂, subst, true, Option, none, some, some_inj, Option-cases, List, [], ◌∷◌,
  map, Bool-cases, inl, inr, Text, list_eq, nat_eq_inst, length, nat_eq, All,
}
use context_swarm_memory.Memory.{MemoryShardSnapshot}
use context_swarm_memory.Probe.{ProbeResult}
use context_swarm_memory.Recall.{RecallResult, RecallClaim, known, recall_result}
use context_swarm_memory.Recall.Grounded.{recall_result-IsGrounded}
use context_swarm_memory.Selection.{Score}
use context_swarm_memory.Selection.Dedupe.{IsDistinct}
use context_swarm_memory.Ask.{RouterCut, AskSettings, AskOutside, Reply}
use context_swarm_memory.Ask.Eager.{Placed, recall_shard}
use context_swarm_memory.Ask.Run.{
  AskRunResult, Target, results, fresh, load_target, recall_job, recall_all, finish_with, ask,
}
use context_swarm_memory.Ask.Loaded.{candidate_shard}
use context_swarm_memory.Ask.Jobs.{bind-some, run_jobs-All}
use context_swarm_memory.Ask.Settled.{answer, patient, ask-patient}

module _ {S : Type 0} ⦃sc : Score S⦄ (opts : AskSettings) (outside : AskOutside S)
    (named : (i s : Text) (snap : MemoryShardSnapshot)
      → outside.load_snapshot i s ≡ some (some snap)
      → (snap.shard_id ≡ i) × (snap.snapshot_id ≡ s)) where
  -- A recall that names a stored snapshot, and cites only events of it.
  abbrev pub IsCited : RecallResult → Type 0
  IsCited q =
      (snap : MemoryShardSnapshot) × (outside.load_snapshot q.shard_id q.snapshot_id
        ≡ some (some snap))
      × All (λ (c : RecallClaim). All (λ i. known snap i ≡ true) c.support) q.claims

  abbrev CitedReply : Option (Reply RecallResult) → Type 0
  CitedReply none = Unit
  CitedReply (some r) = IsCited r.result

  abbrev IsStored : Target → Type 0
  IsStored t = outside.load_snapshot t.probe.shard_id t.probe.snapshot_id ≡ some t.snapshot

  recall_result-IsCited :
      (p : ProbeResult) (snap : MemoryShardSnapshot) (echoed : RecallResult)
      → outside.load_snapshot p.shard_id p.snapshot_id ≡ some (some snap)
      → IsCited (recall_result snap echoed)
  recall_result-IsCited p snap echoed l =
      let g = recall_result-IsGrounded snap echoed in
      let (shard, snapshot) = named _ _ snap l in
      (snap, ap₂ outside.load_snapshot (g.shard ∙ shard) (g.named ∙ snapshot) ∙ l, g.cited)

  fresh-cited :
      (p : ProbeResult) (s : Option MemoryShardSnapshot) {o : Option (Reply RecallResult)}
      → outside.load_snapshot p.shard_id p.snapshot_id ≡ some s
      → fresh opts outside p s ≡ some o
      → CitedReply o
  unfolding recall_shard
  fresh-cited p none l h = subst CitedReply (some_inj h) tt
  fresh-cited p (some snap) l h =
      let (r, e, k) = bind-some _ _ h in
      let (q, f, j) = bind-some _ _ e in
      subst CitedReply (some_inj k) (
        subst (λ (x : Reply RecallResult). IsCited x.result) (some_inj j)
          (recall_result-IsCited p snap q.result l))

  load_target-IsStored :
      (p : ProbeResult) (t : Target) → load_target opts outside p ≡ some t → IsStored t
  load_target-IsStored p t h = let (s, e, k) = bind-some _ _ h in subst IsStored (some_inj k) e

  All-unit : (ps : List ProbeResult) → All {0, 0} (λ p. Unit) ps
  All-unit [] = tt
  All-unit (p ∷ ps) = (tt, All-unit ps)

  recall_all-cited :
      (targets : List ProbeResult) {outputs : List (Option (Reply RecallResult))}
      → recall_all opts outside [] targets ≡ some outputs
      → All CitedReply outputs
  unfolding recall_all recall_job
  recall_all-cited targets h =
      let (loaded, e, k) = bind-some _ _ h in
      let stored =
        run_jobs-All (load_target opts outside) (λ p. Unit) IsStored
          (λ p t u. load_target-IsStored p t) targets (All-unit targets) e in
      run_jobs-All _ IsStored CitedReply (λ t o l q. fresh-cited t.probe t.snapshot l q) loaded
        stored k

  results-IsCited :
      (outputs : List (Option (Reply RecallResult)))
      → All CitedReply outputs
      → All IsCited (results outputs)
  results-IsCited [] h = tt
  results-IsCited (none ∷ os) h = results-IsCited os h.1
  results-IsCited (some r ∷ os) h = (h.0, results-IsCited os h.1)

  module _ (cut : RouterCut) (distinct : IsDistinct (map candidate_shard cut.candidates)) where
    abbrev AllCited : AskRunResult → Type 0
    AllCited r = All IsCited r.recalls

    patient-cited :
        (r : AskRunResult) → patient outside named cut distinct opts ≡ some r → AllCited r
    unfolding finish_with
    patient-cited r h = elim (Bool-cases (nat_eq (length cut.candidates) 0)) [
      | inl e ↦ subst AllCited (some_inj (rw e at h)) tt
      | inr e ↦
          let (views, v, k) = bind-some _ _ (rw e at h) in
          let (probing, p, l) = bind-some _ _ k in
          let (outputs, o, q) = bind-some _ _ l in
          let (packet, s, f) = bind-some _ _ q in
          subst AllCited (some_inj f) (results-IsCited outputs (recall_all-cited _ o))
    ]

    -- For a storage whose snapshots carry the names under which they are loaded, and candidates of
    -- different shards: in whatever order the probes complete, every recall of a run that gives a
    -- result names a snapshot that is stored under its names, and each claim of the recall cites only
    -- events of that snapshot, whatever the model answered.
    pub ask-IsCited :
        (order : List Placed → List Placed) (r : AskRunResult)
        → ask opts outside cut order ≡ some r
        → All IsCited r.recalls
    ask-IsCited order r h =
        let settled = sym (ap answer h) ∙ ask-patient outside named cut distinct opts order in
        elim (Option-cases (patient outside named cut distinct opts)) [
          | inl n ↦ cc (settled ∙ ap answer n)
          | inr (s, e) ↦
              let same = some_inj (settled ∙ ap answer e) in
              subst (λ l. All IsCited l) (ap (λ (x : AskRunResult). x.recalls) (sym same))
                (patient-cited s e)
        ]
