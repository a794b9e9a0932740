-- ===== src/Ask/Settled.antt =====
-- The answer of a run does not depend on its schedule.
use context_swarm_memory.Prelude.{
  ◌≡◌, refl, sym, ◌∙◌, ap, Bool, ◌&&◌, ◌||◌, Option, none, some, Option-cases, List, [], map, Memᴰ,
  if◌then◌else◌, All, All_mono, Bool-cases, inl, inr, Text, list_eq, nat_eq_inst, ltb, nat_eq,
  length,
}
use context_swarm_memory.Memory.{MemoryShardSnapshot}
use context_swarm_memory.Probe.{ProbeResult}
use context_swarm_memory.Selection.{Score}
use context_swarm_memory.Selection.Dedupe.{IsDistinct}
use context_swarm_memory.Ask.{RouterCut, AskSettings, AskOutside, View, shard_of, ◌>>=◌}
use context_swarm_memory.Ask.Gate.{probed_views, probe_budget, pass_gate}
use context_swarm_memory.Ask.Probing.{Probed, Probing, use_batched_probe}
use context_swarm_memory.Ask.Eager.{Placed, place, eager_entries, recall_shard}
use context_swarm_memory.Ask.Targets.{recall_targets, recall_selection, recall_options}
use context_swarm_memory.Ask.Run.{
  AskRunResult, no_cost, results, recall_all, recall_job, eager_at, finish, finish_with, ask,
  unanswered, probe_all, synthesize_packet, discarded,
}
use context_swarm_memory.Ask.Loaded.{
  candidate_shard, probed_views-IsLoaded, probed_views-IsDistinct,
}
use context_swarm_memory.Ask.Probes.{IsProbing, probe_all-IsProbing}
use context_swarm_memory.Ask.Schedule.{recall_all-fresh}
use context_swarm_memory.Ask.Trust.{recall_targets-AreTargets}

-- A run without what it cost.
abbrev pub answer : Option AskRunResult → Option AskRunResult
answer none = none
answer (some r) = some (record r { cost = no_cost; discarded_recalls = 0 })

answer_bind :
    {A : Type 0} (o p : Option A) (f g : A → Option AskRunResult)
    → o ≡ p
    → ((a : A) → p ≡ some a → answer (f a) ≡ answer (g a))
    → answer (o >>= f) ≡ answer (p >>= g)
unfolding ◌>>=◌
answer_bind o p f g e h =
    rw e (elim (Option-cases p) [ inl n ↦ rw n refl | inr (a, s) ↦ rw s (h a s) ])

module _ {S : Type 0} ⦃sc : Score S⦄ (outside : AskOutside S)
    (named : (i s : Text) (snap : MemoryShardSnapshot)
      → outside.load_snapshot i s ≡ some (some snap)
      → (snap.shard_id ≡ i) × (snap.snapshot_id ≡ s))
    (cut : RouterCut) (distinct : IsDistinct (map candidate_shard cut.candidates)) where
  module _ (opts : AskSettings) where
    entries-fresh :
        (order : List Placed → List Placed) (views : List View) (probing : Probing)
        (targets : List ProbeResult)
        → IsProbing outside named views probing
        → IsDistinct (map shard_of views)
        → All (λ p. Memᴰ p (results (map (λ (r : Probed). r.output) probing.probed))) targets
        → recall_all opts outside
            (eager_at opts outside probing.probed views (order (place 0 probing.probed)))
            targets
          ≡ recall_all opts outside [] targets
    unfolding eager_entries
    entries-fresh order views probing targets k d m =
        elim (Bool-cases (
          (opts.parallel_probes || use_batched_probe opts views) && ltb 0 opts.max_recall_shards)) [
            | inl e ↦ rw e (
                recall_all-fresh opts outside named probing.probed k.faithful (rw k.same d) _
                  targets m)
            | inr e ↦ rw e refl
          ]

    finish_plain :
        (order : List Placed → List Placed) (views : List View) (probing : Probing)
        → IsProbing outside named views probing
        → IsDistinct (map shard_of views)
        → answer (finish opts outside cut order views probing)
          ≡ answer (finish_with opts outside [] cut views probing)
    unfolding finish finish_with
    finish_plain order views probing k d =
        let probes = results (map (λ (r : Probed). r.output) probing.probed) in
        answer_bind _ _ _ _
          (entries-fresh order views probing (recall_targets opts cut.candidates probes) k d (
            All_mono _ _ _ (λ p h. h.0)
              (recall_targets-AreTargets opts probes cut.candidates).earned))
          (λ outputs e. answer_bind _ _ _ _ refl (λ packet f. refl))

    -- The run in which every recall waits for all probes.
    abbrev pub patient : Option AskRunResult
    patient =
        if nat_eq (length cut.candidates) 0
        then some (unanswered opts outside cut)
        else (probed_views opts outside cut >>= λ views. probe_all opts outside views >>= λ probing.
            finish_with opts outside [] cut views probing)

    pub ask-patient :
        (order : List Placed → List Placed) → answer (ask opts outside cut order) ≡ answer patient
    unfolding ask
    ask-patient order = elim (Bool-cases (nat_eq (length cut.candidates) 0)) [
      | inl e ↦ rw e refl
      | inr e ↦ rw e (
          answer_bind _ _ _ _ refl (λ views v.
            let apart = probed_views-IsDistinct outside opts cut distinct v in
            answer_bind _ _ _ _ refl (λ probing p.
              finish_plain order views probing
                (probe_all-IsProbing outside named opts views
                  (probed_views-IsLoaded outside opts cut v) apart p)
                apart)))
    ]

  -- Early and parallel starts are the only things that the two settings govern.
  patient-same :
      (opts : AskSettings) (eager parallel : Bool)
      → patient opts ≡ patient (record opts { eager_recalls = eager; parallel_probes = parallel })
  unfolding ask probed_views probe_budget pass_gate probe_all finish_with recall_all recall_job
      recall_shard recall_targets recall_selection recall_options synthesize_packet discarded
  patient-same opts eager parallel = refl

  -- For a storage whose snapshots carry the names under which they are loaded, and candidates of
  -- different shards: two runs that differ only in the order in which the probes complete, in whether
  -- other recalls than the first may start early, and in whether the jobs run in parallel, both fail or
  -- give the same result but for the cost and the number of discarded recalls.
  pub ask-settled :
      (opts : AskSettings) (order other : List Placed → List Placed) (eager parallel : Bool)
      → answer (ask opts outside cut order)
        ≡ answer (
            ask
              (record opts { eager_recalls = eager; parallel_probes = parallel })
              outside
              cut
              other)
  ask-settled opts order other eager parallel =
      ask-patient opts order
      ∙ ap answer (patient-same opts eager parallel)
      ∙ sym (ask-patient (record opts { eager_recalls = eager; parallel_probes = parallel }) other)
