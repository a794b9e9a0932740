-- ===== src/Ask/Starts.antt =====
-- Which recalls start early.
use context_swarm_memory.Prelude.{
  Bool, false, not, ◌&&◌, ◌||◌, Option, none, some, if◌then◌else◌, any, nat_eq, Text, ◌==◌, ==_iff,
  sym, ◌∙◌, ◌++◌, append-nil, append_assoc, subst, ltb, All, All_mono, All-append, list_eq,
  nat_eq_inst, ℕ, suc, ◌≤◌, ◌≡◌, refl, ap, List, [], ◌∷◌, map, filter, take, arith, Option-cases,
  Bool-cases, inl, inr, length, length-map, length-take,
}
use context_swarm_memory.Memory.{MemoryShardSnapshot}
use context_swarm_memory.Recall.{RecallResult}
use context_swarm_memory.Selection.{Score}
use context_swarm_memory.Selection.Dedupe.{IsDistinct, contains}
use context_swarm_memory.Ask.{AskSettings, AskOutside, Reply, View}
use context_swarm_memory.Ask.Probing.{Probed, use_batched_probe}
use context_swarm_memory.Ask.Probes.{probed_shard}
use context_swarm_memory.Ask.Eager.{
  EagerEntry, Placed, place, starts, set_entry, outcome_of, registered, set_registered, register,
  recall_shard, eager_entries,
}
use context_swarm_memory.Ask.Run.{eager_at}
use context_swarm_memory.Ask.Places.{filter_mono, filter-any, place_at}
use context_swarm_memory.Ask.Early.{
  slots, place_of, is_other, early_others, is_early, shard_at, is_called, called,
  started-early_others,
}

module _ {S : Type 0} (opts : AskSettings) (outside : AskOutside S) where
  abbrev listed : Option EagerEntry → List EagerEntry
  listed none = []
  listed (some e) = e ∷ []

  outcome_of-called :
      (shard : Text) (o : Option (Reply RecallResult))
      → called (record { shard_id = shard; outcome = outcome_of opts outside o } ∷ []) ≡ shard ∷ []
  outcome_of-called shard none = refl
  outcome_of-called shard (some r) = refl

  registered-called :
      (order : List Placed) (p : Placed)
      → called (
          listed
            (registered opts outside (early_others opts outside order) p p.probed.view.snapshot))
        ≡ (if is_early opts outside order p then shard_at p ∷ [] else [])
  unfolding recall_shard
  registered-called order p = elim (Option-cases p.probed.view.snapshot) [
    | inl e ↦ rw e refl
    | inr (snap, e) ↦ elim (Option-cases p.probed.output) [
      | inl f ↦ elim (Bool-cases (not (nat_eq p.ix 0) && not opts.eager_recalls)) [
        | inl g ↦ rw (e, f, g) refl
        | inr g ↦ rw (e, f, g) refl
      ]
      | inr (o, f) ↦ elim (Bool-cases (nat_eq p.ix 0)) [
        | inl z ↦
            rw (e, f, z)
              (outcome_of-called (shard_at p)
                (recall_shard opts outside snap o.result.relevant_event_ids))
        | inr z ↦ elim (Bool-cases opts.eager_recalls) [
          | inr g ↦ rw (e, f, z, g) refl
          | inl g ↦
              elim (Bool-cases (
                any (nat_eq p.ix) (
                  map (place_of opts outside)
                    (take (slots opts outside) (filter (is_other opts outside) order))))) [
                      | inl h ↦
                          rw (e, f, z, g, h)
                            (outcome_of-called (shard_at p)
                              (recall_shard opts outside snap o.result.relevant_event_ids))
                      | inr h ↦ rw (e, f, z, g, h) refl
                    ]
        ]
      ]
    ]
  ]

  called-append : (es fs : List EagerEntry) → called (es ++ fs) ≡ called es ++ called fs
  called-append [] fs = refl
  called-append (e ∷ es) fs = elim (Bool-cases (is_called e)) [
    | inl h ↦ rw (h, called-append es fs) refl
    | inr h ↦ rw (h, called-append es fs) refl
  ]

  -- An entry of a new shard goes to the end.
  set_entry-new :
      (e : EagerEntry) (ms : List EagerEntry)
      → All (λ (m : EagerEntry). (m.shard_id == e.shard_id) ≡ false) ms
      → set_entry e ms ≡ ms ++ e ∷ []
  unfolding set_entry
  set_entry-new e [] h = refl
  set_entry-new e (m ∷ ms) h = rw (h.0, set_entry-new e ms h.1) refl

  registered-shard :
      (started : List ℕ) (p : Placed) (o : Option MemoryShardSnapshot)
      → All
          (λ (e : EagerEntry). e.shard_id ≡ shard_at p)
          (listed (registered opts outside started p o))
  registered-shard started p none = tt
  registered-shard started p (some snap) =
      elim (Bool-cases (not (nat_eq p.ix 0) && not opts.eager_recalls)) [
        | inl e ↦ rw e tt
        | inr e ↦ rw e (refl, tt)
      ]

  -- None of the entries is of a shard in the list.
  abbrev AreApart : List Text → List EagerEntry → Type 0
  AreApart shards = All (λ (e : EagerEntry). contains shards e.shard_id ≡ false)

  set_registered-new :
      (shard : Text) (shards : List Text) (o : Option EagerEntry) (entries : List EagerEntry)
      → All (λ (e : EagerEntry). e.shard_id ≡ shard) (listed o)
      → AreApart (shard ∷ shards) entries
      → set_registered opts outside o entries ≡ entries ++ listed o
  set_registered-new shard shards none entries h k = sym (append-nil entries)
  set_registered-new shard shards (some e) entries h k = set_entry-new e entries (
      All_mono _ _ entries
        (λ m apart.
          rw h.0 (ground (arith, apart, ==_iff shard m.shard_id, ==_iff m.shard_id shard)))
        k)

  register-called :
      (order ps : List Placed) (entries : List EagerEntry)
      → IsDistinct (map shard_at ps)
      → AreApart (map shard_at ps) entries
      → called (register opts outside (early_others opts outside order) entries ps)
        ≡ called entries ++ map shard_at (filter (is_early opts outside order) ps)
  unfolding register
  register-called order [] entries d k = sym (append-nil (called entries))
  register-called order (p ∷ ps) entries d k =
      let o = registered opts outside (early_others opts outside order) p p.probed.view.snapshot in
      let mine = registered-shard (early_others opts outside order) p p.probed.view.snapshot in
      let placed : set_registered opts outside o entries ≡ entries ++ listed o =
        set_registered-new (shard_at p) (map shard_at ps) o entries mine k in
      let apart : AreApart (map shard_at ps) (entries ++ listed o) =
        All-append _ entries (listed o) (All_mono _ _ entries (λ m h. ground (arith, h)) k)
          (All_mono _ _ (listed o) (λ e h. rw h d.0) mine) in
      ap (λ es. called (register opts outside (early_others opts outside order) es ps)) placed
      ∙ register-called order ps (entries ++ listed o) d.1 apart
      ∙ rw
          (
            called-append entries (listed o),
            registered-called order p,
            append_assoc (called entries)
                (if is_early opts outside order p then shard_at p ∷ [] else [])
                (map shard_at (filter (is_early opts outside order) ps)),
          )
          (elim (Bool-cases (is_early opts outside order p)) [
            | inl e ↦ rw e refl
            | inr e ↦ rw e refl
          ])

  place-shards : (ix : ℕ) (ps : List Probed) → map shard_at (place ix ps) ≡ map probed_shard ps
  unfolding place
  place-shards ix [] = refl
  place-shards ix (p ∷ ps) = ap (λ l. probed_shard p ∷ l) (place-shards (suc ix) ps)

  early-le :
      (order : List Placed) (probed : List Probed)
      → 1 ≤ opts.max_recall_shards
      → length (filter (is_early opts outside order) (place 0 probed)) ≤ opts.max_recall_shards
  early-le order probed h =
      let others = take (slots opts outside) (filter (is_other opts outside) order) in
      let some_others : length (early_others opts outside order) ≤ (slots opts outside) =
        elim (Bool-cases opts.eager_recalls) [
          | inl e ↦ rw e (
              omega (
                arith,
                length-map (place_of opts outside) others,
                length-take (slots opts outside) (filter (is_other opts outside) order),
              ))
          | inr e ↦ rw e (omega arith)
        ] in
      omega (
        arith,
        h,
        some_others,
        filter_mono (is_early opts outside order)
            (λ p. any (nat_eq p.ix) (0 ∷ early_others opts outside order))
            (λ p e. ground (arith, e)) (place 0 probed),
        filter-any (0 ∷ early_others opts outside order) (place 0 probed)
            (λ l. place_at 0 l probed),
      )

  -- Whether recalls may start without waiting for all probes.
  abbrev pub may_be_early : List View → Bool
  may_be_early views =
      (opts.parallel_probes || use_batched_probe opts views) && ltb 0 opts.max_recall_shards

  module _ ⦃sc : Score S⦄ where
    -- For candidates of different shards, whose probes complete in the given order: the shards whose
    -- recalls are called as soon as their own probes answer, without waiting for the others, are none if
    -- the probes neither run in parallel nor are asked for in one call, or if no recall is allowed.
    -- Otherwise they are those with a snapshot and an answered probe that are the first candidate or, if
    -- early recalls are on, among the first to complete of the others whose probes qualify for recall,
    -- one fewer than the recalls that are allowed. They are never more than the recalls that are allowed.
    pub eager_at_lem :
        (probed : List Probed) (views : List View) (order : List Placed)
        → IsDistinct (map probed_shard probed)
        → (called (eager_at opts outside probed views order) ≡ (
            if may_be_early views
            then map shard_at (filter (is_early opts outside order) (place 0 probed))
            else []))
          × (length (called (eager_at opts outside probed views order)) ≤ opts.max_recall_shards)
    unfolding eager_entries
    eager_at_lem probed views order d = elim (Bool-cases (may_be_early views)) [
      | inr e ↦ rw e (refl, omega arith)
      | inl e ↦
          let apart = subst IsDistinct (sym (place-shards 0 probed)) d in
          let some_allowed : 1 ≤ opts.max_recall_shards = ground (arith, e) in
          let all : called (
                register opts outside
                  (if opts.eager_recalls then starts opts outside 0 order else []) []
                  (place 0 probed))
              ≡ map shard_at (filter (is_early opts outside order) (place 0 probed)) =
            ap (λ l. called (register opts outside l [] (place 0 probed)))
              (started-early_others opts outside order)
            ∙ register-called order (place 0 probed) [] apart tt in
          rw (e, all)
            (
              refl,
              omega (
                arith,
                length-map shard_at (filter (is_early opts outside order) (place 0 probed)),
                early-le order probed some_allowed,
              ),
            )
    ]
