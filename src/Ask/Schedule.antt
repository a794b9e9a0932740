-- ===== src/Ask/Schedule.antt =====
-- Whatever starts early, and in whatever order the probes complete, the recalls of a run are the same.
use context_swarm_memory.Prelude.{
  ℕ, suc, ◌≡◌, refl, sym, ◌∙◌, ap, ap₂, not, ◌&&◌, ◌||◌, Option, none, some, some_inj, subst,
  Option-cases, List, [], ◌∷◌, map, Memᴰ, Memᴰ-map, any, All, All_mono, All-Memᴰ, Bool-cases, inl,
  inr, ◌⊎◌, Text, ◌==◌, ==_iff, list_eq, nat_eq_inst, nat_eq,
}
use context_swarm_memory.Memory.{MemoryShardSnapshot}
use context_swarm_memory.Probe.{ProbeResult}
use context_swarm_memory.Selection.{Score}
use context_swarm_memory.Selection.Dedupe.{IsDistinct}
use context_swarm_memory.Ask.{AskSettings, AskOutside, Reply, shard_of, ◌>>=◌, run_jobs, present}
use context_swarm_memory.Ask.Probing.{Probed}
use context_swarm_memory.Ask.Eager.{
  EagerEntry, EagerOutcome, Placed, place, set_entry, entry_of, recall_shard, handled, outcome_of,
  registered, set_registered, register,
}
use context_swarm_memory.Ask.Run.{
  Target, results, fresh, after_eager, load_target, recall_job, recall_all,
}
use context_swarm_memory.Ask.Jobs.{
  bind-some, run_jobs-All, run_jobs-eq, present-Memᴰ, find-Memᴰ, distinct-same,
}
use context_swarm_memory.Ask.Probes.{IsFaithful, Names, probed_shard}

Memᴰ-uncons : {A : Type 0} {a x : A} {xs : List A} → Memᴰ a (x ∷ xs) → (a ≡ x) ⊎ Memᴰ a xs
Memᴰ-uncons (Memᴰ.head e) = inl e
Memᴰ-uncons (Memᴰ.tail m) = inr m

set_entry-Memᴰ :
    (e : EagerEntry) (ms : List EagerEntry) {x : EagerEntry}
    → Memᴰ x (set_entry e ms)
    → (x ≡ e) ⊎ Memᴰ x ms
unfolding set_entry
set_entry-Memᴰ e [] k = elim (Memᴰ-uncons k) [ inl p ↦ inl p | inr n ↦ elim n [ ] ]
set_entry-Memᴰ e (m ∷ ms) k = elim (Bool-cases (m.shard_id == e.shard_id)) [
  | inl q ↦ elim (Memᴰ-uncons (rw q at k)) [ inl p ↦ inl p | inr n ↦ inr (Memᴰ.tail n) ]
  | inr q ↦ elim (Memᴰ-uncons (rw q at k)) [
    | inl p ↦ inr (Memᴰ.head p)
    | inr n ↦ elim (set_entry-Memᴰ e ms n) [ inl p ↦ inl p | inr h ↦ inr (Memᴰ.tail h) ]
  ]
]

place-Memᴰ : (ix : ℕ) (ps : List Probed) {q : Placed} → Memᴰ q (place ix ps) → Memᴰ q.probed ps
unfolding place
place-Memᴰ ix [] m = elim m [ ]
place-Memᴰ ix (p ∷ ps) (Memᴰ.head e) = Memᴰ.head (ap (λ (q : Placed). q.probed) e)
place-Memᴰ ix (p ∷ ps) (Memᴰ.tail m) = Memᴰ.tail (place-Memᴰ (suc ix) ps m)

module _ {S : Type 0} ⦃sc : Score S⦄ (opts : AskSettings) (outside : AskOutside S) where
  -- Where an entry comes from.
  abbrev Comes : List ℕ → List Placed → EagerEntry → Type 0
  Comes started ps e =
      (q : Placed) × Memᴰ q ps × (registered opts outside started q q.probed.view.snapshot ≡ some e)

  Comes-tail :
      (started : List ℕ) (p : Placed) (ps : List Placed) {e : EagerEntry}
      → Comes started ps e
      → Comes started (p ∷ ps) e
  Comes-tail started p ps (q, m, r) = (q, Memᴰ.tail m, r)

  set_registered-Memᴰ :
      (o : Option EagerEntry) (entries : List EagerEntry) {e : EagerEntry}
      → Memᴰ e (set_registered opts outside o entries)
      → (o ≡ some e) ⊎ Memᴰ e entries
  set_registered-Memᴰ none entries m = inr m
  set_registered-Memᴰ (some x) entries m = elim (set_entry-Memᴰ x entries m) [
    | inl p ↦ inl (ap some (sym p))
    | inr k ↦ inr k
  ]

  register-Memᴰ :
      (started : List ℕ) (ps : List Placed) (entries : List EagerEntry) {e : EagerEntry}
      → Memᴰ e (register opts outside started entries ps)
      → Memᴰ e entries ⊎ Comes started ps e
  unfolding register
  register-Memᴰ started [] entries m = inl m
  register-Memᴰ started (p ∷ ps) entries m = elim (register-Memᴰ started ps _ m) [
    | inr c ↦ inr (Comes-tail started p ps c)
    | inl k ↦ elim (set_registered-Memᴰ _ entries k) [
      | inl r ↦ inr (p, Memᴰ.head refl, r)
      | inr n ↦ inl n
    ]
  ]

  -- An entry of a view with a snapshot: its shard, and what its handler did.
  registered-some :
      (started : List ℕ) (q : Placed) (s : Option MemoryShardSnapshot) {e : EagerEntry}
      → registered opts outside started q s ≡ some e
      → (snap : MemoryShardSnapshot) × (s ≡ some snap)
        × (e.shard_id ≡ shard_of q.probed.view)
        × (e.outcome ≡ handled opts outside started q snap q.probed.output)
  registered-some started q none h = cc
  registered-some started q (some snap) h =
      elim (Bool-cases (not (nat_eq q.ix 0) && not opts.eager_recalls)) [
        | inl n ↦ cc (rw n at h)
        | inr n ↦
            let k = sym (some_inj (rw n at h)) in
            (
              snap,
              refl,
              ap (λ (e : EagerEntry). e.shard_id) k,
              ap (λ (e : EagerEntry). e.outcome) k,
            )
      ]

  -- A reply that came early is the one that a fresh call gives.
  outcome_of-fresh :
      (p : ProbeResult) (snap : MemoryShardSnapshot)
      → after_eager opts outside p
          (some snap)
          (outcome_of opts outside (recall_shard opts outside snap p.relevant_event_ids))
        ≡ fresh opts outside p (some snap)
  unfolding ◌>>=◌
  outcome_of-fresh p snap =
      elim (Option-cases (recall_shard opts outside snap p.relevant_event_ids)) [
        | inl e ↦ rw e refl
        | inr (r, e) ↦ rw e refl
      ]

  handled-fresh :
      (started : List ℕ) (q : Placed) (snap : MemoryShardSnapshot) (o : Reply ProbeResult)
      → after_eager opts outside o.result (some snap) (handled opts outside started q snap (some o))
        ≡ fresh opts outside o.result (some snap)
  handled-fresh started q snap o = elim (Bool-cases (nat_eq q.ix 0 || any (nat_eq q.ix) started)) [
    | inl e ↦ rw e (outcome_of-fresh o.result snap)
    | inr e ↦ rw e refl
  ]

  settled :
      (started : List ℕ) (q : Placed) (snap : MemoryShardSnapshot) (o : Reply ProbeResult)
      (p : ProbeResult) (s : Option MemoryShardSnapshot) (outcome : EagerOutcome)
      → s ≡ some snap
      → o.result ≡ p
      → outcome ≡ handled opts outside started q snap (some o)
      → after_eager opts outside p s outcome ≡ fresh opts outside p s
  settled started q snap o p s outcome h k l = rw (h, ← k, l) (handled-fresh started q snap o)

  -- An entry that is found under a shard comes from the view of that shard.
  entry_of-Comes :
      (started : List ℕ) (probed : List Probed) (shard : Text) {e : EagerEntry}
      → entry_of shard (register opts outside started [] (place 0 probed)) ≡ some e
      → Comes started (place 0 probed) e × (e.shard_id ≡ shard)
  entry_of-Comes started probed shard {e = e} h =
      let (m, q) = find-Memᴰ _ _ h in
      elim (register-Memᴰ started (place 0 probed) [] m) [
        | inl k ↦ elim k [ ]
        | inr c ↦ (c, (==_iff e.shard_id shard).0 q)
      ]

  module _
      (named : (i s : Text) (snap : MemoryShardSnapshot)
        → outside.load_snapshot i s ≡ some (some snap)
        → (snap.shard_id ≡ i) × (snap.snapshot_id ≡ s))
      (probed : List Probed) (faithful : All (IsFaithful outside named) probed)
      (distinct : IsDistinct (map probed_shard probed)) where
    -- A target, and the probe that it is the result of.
    record IsProbed (t : Target) : Type 0 where
      probe_of : Probed
      member : Memᴰ probe_of probed
      reply : Reply ProbeResult
      output : probe_of.output ≡ some reply
      result : reply.result ≡ t.probe
      shard : t.probe.shard_id ≡ probed_shard probe_of
      snapshot : t.snapshot ≡ probe_of.view.snapshot

    found-fresh :
        (started : List ℕ) (t : Target) (k : IsProbed t) (e : EagerEntry)
        → entry_of t.probe.shard_id (register opts outside started [] (place 0 probed)) ≡ some e
        → after_eager opts outside t.probe t.snapshot e.outcome
          ≡ fresh opts outside t.probe t.snapshot
    found-fresh started t k e f =
        let ((q, m, r), shard) = entry_of-Comes started probed t.probe.shard_id f in
        let (snap, has, mine, did) = registered-some started q _ r in
        let same =
          distinct-same probed_shard probed distinct (place-Memᴰ 0 probed m) k.member
            (sym mine ∙ shard ∙ k.shard) in
        settled started q snap k.reply t.probe t.snapshot e.outcome
          (k.snapshot ∙ ap (λ (p : Probed). p.view.snapshot) (sym same) ∙ has) k.result
          (did
            ∙ ap (handled opts outside started q snap)
                (ap (λ (p : Probed). p.output) same ∙ k.output))

    recall_job-fresh :
        (started : List ℕ) (t : Target)
        → IsProbed t
        → recall_job opts outside (register opts outside started [] (place 0 probed)) t
          ≡ recall_job opts outside [] t
    unfolding recall_job
    recall_job-fresh started t k =
        let entries = register opts outside started [] (place 0 probed) in
        elim (Option-cases (entry_of t.probe.shard_id entries)) [
          | inl e ↦ rw e refl
          | inr (e, f) ↦ rw f (found-fresh started t k e f)
        ]

    -- A result of the probes, with the snapshot that the storage holds under its name.
    load_target-IsProbed :
        (p : ProbeResult) (t : Target)
        → Memᴰ p (results (map (λ (r : Probed). r.output) probed))
        → load_target opts outside p ≡ some t
        → IsProbed t
    load_target-IsProbed p t m h =
        let (s, e, k) = bind-some _ _ h in
        let (reply, n, q) =
          Memᴰ-map (λ r. r.result) (present (map (λ (r : Probed). r.output) probed)) m in
        let (r, member, output) =
          Memᴰ-map (λ (r : Probed). r.output) probed
            (present-Memᴰ (map (λ (r : Probed). r.output) probed) n) in
        let (loaded, about) = All-Memᴰ (IsFaithful outside named) faithful member in
        let (snap, has, shard, snapshot) = subst (Names r.view) (sym output) about in
        let of_shard = ap (λ (p : ProbeResult). p.shard_id) q ∙ shard in
        let of_snapshot = ap (λ (p : ProbeResult). p.snapshot_id) q ∙ snapshot in
        subst IsProbed (some_inj k) (record {
          probe_of = r;
          member = member;
          reply = reply;
          output = sym output;
          result = sym q;
          shard = of_shard;
          snapshot = some_inj (sym e ∙ ap₂ outside.load_snapshot of_shard of_snapshot ∙ loaded);
        })

    -- The recalls of targets do not depend on what started early.
    pub recall_all-fresh :
        (started : List ℕ) (targets : List ProbeResult)
        → All (λ p. Memᴰ p (results (map (λ (r : Probed). r.output) probed))) targets
        → recall_all opts outside (register opts outside started [] (place 0 probed)) targets
          ≡ recall_all opts outside [] targets
    unfolding recall_all ◌>>=◌
    recall_all-fresh started targets m =
        elim (Option-cases (run_jobs (load_target opts outside) targets)) [
          | inl e ↦ rw e refl
          | inr (loaded, e) ↦
              let all =
                run_jobs-All (load_target opts outside) _ IsProbed (λ p t. load_target-IsProbed p t)
                  targets m e in
              rw e
                (run_jobs-eq _ _ loaded (All_mono IsProbed _ loaded (recall_job-fresh started) all))
        ]
