-- ===== src/Ask/Total.antt =====
-- A run gives a result when everything that it asks is answered.
use context_swarm_memory.Prelude.{
  ℕ, ◌≡◌, refl, ◌&&◌, Option, none, some, List, [], ◌∷◌, map, Bool-cases, inl, inr, Text, list_eq,
  nat_eq_inst, length, nat_eq, ltb,
}
use context_swarm_memory.Memory.{CandidateScore, MemoryShardSnapshot}
use context_swarm_memory.Probe.{ProbeResult}
use context_swarm_memory.Recall.{RecallResult}
use context_swarm_memory.Selection.{Score}
use context_swarm_memory.Selection.Dedupe.{IsDistinct}
use context_swarm_memory.Ask.{
  RouterCut, AskSettings, AskOutside, View, ShardDigest, ◌>>=◌, run_jobs,
}
use context_swarm_memory.Ask.Gate.{load_view, pass_with, pass_gate, probed_views}
use context_swarm_memory.Ask.Probing.{
  output_for, probe_shard, probe_job, probe_shards_batched, probe_batched, probe_each,
  use_batched_probe,
}
use context_swarm_memory.Ask.Eager.{Placed, recall_shard}
use context_swarm_memory.Ask.Run.{
  AskRunResult, results, fresh, recall_job, recall_all, synthesize_packet, finish_with, ask,
  probe_all,
}
use context_swarm_memory.Ask.Loaded.{candidate_shard}
use context_swarm_memory.Ask.Settled.{answer, patient, ask-patient}

-- There is a value.
abbrev pub Answers : {A : Type 0} → Option A → Type 0
Answers {A} o = (a : A) × (o ≡ some a)

bind-Answers :
    {A B : Type 0} (o : Option A) (f : A → Option B)
    → Answers o
    → ((a : A) → Answers (f a))
    → Answers (o >>= f)
unfolding ◌>>=◌
bind-Answers o f (a, e) h = rw e (h a)

run_jobs-Answers :
    {A B : Type 0} (job : A → Option B) (xs : List A)
    → ((x : A) → Answers (job x))
    → Answers (run_jobs job xs)
unfolding run_jobs
run_jobs-Answers job [] h = ([], refl)
run_jobs-Answers job (x ∷ xs) h =
    let rest = run_jobs-Answers job xs h in
    bind-Answers (job x) _ (h x) (λ y. bind-Answers (run_jobs job xs) _ rest (λ ys. (y ∷ ys, refl)))

abbrev GateAnswers : {S : Type 0} → Option (List ShardDigest → Option (List S)) → Type 0
GateAnswers none = Unit
GateAnswers (some g) = (ds : List ShardDigest) → Answers (g ds)

-- Surroundings that answer everything that they are asked.
pub record IsAnswering {S : Type 0} (outside : AskOutside S) : Type 0 where
  pub load_snapshot : (i s : Text) → Answers (outside.load_snapshot i s)
  pub answer_probe : (snap : MemoryShardSnapshot) → Answers (outside.answer_probe snap)
  pub answer_batch : (snaps : List MemoryShardSnapshot) → Answers (outside.answer_batch snaps)
  pub answer_recall :
      (snap : MemoryShardSnapshot) (hint : List Text) → Answers (outside.answer_recall snap hint)
  pub answer_synthesis : (rs : List RecallResult) → Answers (outside.answer_synthesis rs)
  pub gate : GateAnswers outside.local_probe_gate

module _ {S : Type 0} ⦃sc : Score S⦄ (opts : AskSettings) (outside : AskOutside S)
    (h : IsAnswering outside) where
  load_view-Answers : (c : CandidateScore) → Answers (load_view outside c)
  load_view-Answers c = bind-Answers _ _ (h.load_snapshot _ _) (λ s. (_, refl))

  pass_with-Answers :
      (keep : ℕ) (g : Option (List ShardDigest → Option (List S))) (views : List View)
      → GateAnswers g
      → Answers (pass_with keep outside g views)
  unfolding pass_with
  pass_with-Answers keep none views e = (views, refl)
  pass_with-Answers keep (some g) views e = bind-Answers _ _ (e _) (λ scores. (_, refl))

  pass_gate-Answers : (views : List View) → Answers (pass_gate opts outside views)
  unfolding pass_gate
  pass_gate-Answers views =
      elim (Bool-cases (ltb 0 opts.local_keep && ltb opts.local_keep (length views))) [
        | inl e ↦ rw e (pass_with-Answers opts.local_keep outside.local_probe_gate views h.gate)
        | inr e ↦ rw e (views, refl)
      ]

  probed_views-Answers : (cut : RouterCut) → Answers (probed_views opts outside cut)
  unfolding probed_views
  probed_views-Answers cut =
      bind-Answers _ _ (run_jobs-Answers _ _ load_view-Answers) pass_gate-Answers

  probe_shard-Answers : (snap : MemoryShardSnapshot) → Answers (probe_shard outside snap)
  unfolding probe_shard
  probe_shard-Answers snap = bind-Answers _ _ (h.answer_probe snap) (λ r. (_, refl))

  output_for-Answers : (s : Option MemoryShardSnapshot) → Answers (output_for outside s)
  output_for-Answers none = (none, refl)
  output_for-Answers (some snap) = bind-Answers _ _ (probe_shard-Answers snap) (λ r. (_, refl))

  probe_job-Answers : (v : View) → Answers (probe_job outside v)
  unfolding probe_job
  probe_job-Answers v = bind-Answers _ _ (output_for-Answers v.snapshot) (λ o. (_, refl))

  batched-Answers :
      (snaps : List MemoryShardSnapshot) → Answers (probe_shards_batched outside snaps)
  unfolding probe_shards_batched
  batched-Answers [] = (_, refl)
  batched-Answers (s ∷ ss) = bind-Answers _ _ (h.answer_batch (s ∷ ss)) (λ r. (_, refl))

  probe_batched-Answers : (views : List View) → Answers (probe_batched outside views)
  unfolding probe_batched
  probe_batched-Answers [] = (_, refl)
  probe_batched-Answers (v ∷ vs) =
      bind-Answers _ _ (probe_job-Answers v)
        (λ solo. bind-Answers _ _ (batched-Answers _) (λ batch. (_, refl)))

  probe_all-Answers : (views : List View) → Answers (probe_all opts outside views)
  unfolding probe_all probe_each
  probe_all-Answers views = elim (Bool-cases (use_batched_probe opts views)) [
    | inl e ↦ rw e (probe_batched-Answers views)
    | inr e ↦
        rw e (bind-Answers _ _ (run_jobs-Answers _ views probe_job-Answers) (λ probed. (_, refl)))
  ]

  recall_shard-Answers :
      (snap : MemoryShardSnapshot) (hint : List Text)
      → Answers (recall_shard opts outside snap hint)
  unfolding recall_shard
  recall_shard-Answers snap hint = bind-Answers _ _ (h.answer_recall snap hint) (λ r. (_, refl))

  fresh-Answers :
      (p : ProbeResult) (s : Option MemoryShardSnapshot) → Answers (fresh opts outside p s)
  fresh-Answers p none = (none, refl)
  fresh-Answers p (some snap) = bind-Answers _ _ (recall_shard-Answers snap _) (λ r. (_, refl))

  recall_all-Answers : (targets : List ProbeResult) → Answers (recall_all opts outside [] targets)
  unfolding recall_all recall_job
  recall_all-Answers targets =
      bind-Answers _ _
        (run_jobs-Answers _ targets
          (λ p. bind-Answers _ _ (h.load_snapshot p.shard_id p.snapshot_id) (λ s. (_, refl))))
        (λ loaded. run_jobs-Answers _ loaded (λ t. fresh-Answers t.probe t.snapshot))

  synthesize_packet-Answers : (rs : List RecallResult) → Answers (synthesize_packet opts outside rs)
  unfolding synthesize_packet
  synthesize_packet-Answers [] = (_, refl)
  synthesize_packet-Answers (r ∷ []) = (_, refl)
  synthesize_packet-Answers (r ∷ s ∷ rs) =
      bind-Answers _ _ (h.answer_synthesis (r ∷ s ∷ rs)) (λ synth. (_, refl))

  patient-Answers :
      (named : (i s : Text) (snap : MemoryShardSnapshot)
        → outside.load_snapshot i s ≡ some (some snap)
        → (snap.shard_id ≡ i) × (snap.snapshot_id ≡ s))
      (cut : RouterCut) (distinct : IsDistinct (map candidate_shard cut.candidates))
      → Answers (patient outside named cut distinct opts)
  unfolding finish_with
  patient-Answers named cut distinct = elim (Bool-cases (nat_eq (length cut.candidates) 0)) [
    | inl e ↦ rw e (_, refl)
    | inr e ↦ rw e (
        bind-Answers _ _ (probed_views-Answers cut) (λ views.
          bind-Answers _ _ (probe_all-Answers views) (λ probing.
            bind-Answers _ _ (recall_all-Answers _) (λ outputs.
              bind-Answers _ _ (synthesize_packet-Answers (results outputs))
                (λ packet. (_, refl))))))
  ]

answered_run : (o p : Option AskRunResult) → answer o ≡ answer p → Answers p → Answers o
answered_run none none e (a, h) = cc
answered_run none (some r) e h = cc
answered_run (some r) p e h = (r, refl)

-- For a storage whose snapshots carry the names under which they are loaded, and candidates of
-- different shards: if the storage, the model and the gate answer whatever they are asked, then the run
-- gives a result, in whatever order its probes complete.
pub ask-Answers :
    {S : Type 0} ⦃sc : Score S⦄ (opts : AskSettings) (outside : AskOutside S)
    → IsAnswering outside
    → (named : (i s : Text) (snap : MemoryShardSnapshot)
        → outside.load_snapshot i s ≡ some (some snap)
        → (snap.shard_id ≡ i) × (snap.snapshot_id ≡ s))
    → (cut : RouterCut) → IsDistinct (map candidate_shard cut.candidates)
    → (order : List Placed → List Placed) → Answers (ask opts outside cut order)
ask-Answers opts outside h named cut distinct order =
    answered_run _ _ (ask-patient outside named cut distinct opts order)
      (patient-Answers opts outside h named cut distinct)
