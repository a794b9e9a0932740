-- ===== src/Ask/Trust.antt =====
-- Which probes are recalled.
use context_swarm_memory.Prelude.{
  ℕ, zero, suc, ◌≤◌, ◌≡◌, refl, true, false, Bool, ◌&&◌, Option, none, some, Option-cases, List, [],
  ◌∷◌, Memᴰ, any, All, All_mono, All-Memᴰ, Bool-cases, inl, inr, ◌⊎◌, Text, list_eq, nat_eq_inst,
  list_ord, nat_ord, find, take, length, length-take, ltb, arith,
}
use context_swarm_memory.Memory.{CandidateScore}
use context_swarm_memory.Probe.{ProbeResult, probe_qualifies_for_recall}
use context_swarm_memory.Selection.{nat_score}
use context_swarm_memory.Selection.Ranking.{select-best}
use context_swarm_memory.Selection.Members.{All-select, filter-All-Memᴰ}
use context_swarm_memory.Ask.{AskSettings}
use context_swarm_memory.Ask.Jobs.{find-Memᴰ, any-Memᴰ, any-some, find_nothing}
use context_swarm_memory.Ask.Targets.{
  recall_options, qualifying, recall_selection, is_of, top_shard, with_probe, with_top,
  recall_targets,
}

-- Whether a probe is one of the router's first candidate.
abbrev pub is_top : Option Text → ProbeResult → Bool
is_top none p = false
is_top (some top) p = is_of top p

-- Why a probe is recalled: it is one of the run, and it qualifies or is of the first candidate.
abbrev pub Earns : AskSettings → Option Text → List ProbeResult → ProbeResult → Type 0
Earns opts top probes p =
    Memᴰ p probes
    × ((probe_qualifies_for_recall p opts.recall_confidence_min ≡ true) ⊎ (is_top top p ≡ true))

-- The targets of recall: there are at most as many as allowed, each one earns it, and the first
-- candidate of the router is among them if it was probed and any target is allowed.
pub record AreTargets (opts : AskSettings) (top : Option Text) (probes targets : List ProbeResult)
    : Type 0 where
  pub few : length targets ≤ opts.max_recall_shards
  pub earned : All (Earns opts top probes) targets
  pub trusted : any (is_top top) targets ≡ (ltb 0 opts.max_recall_shards && any (is_top top) probes)

All-take : (P : ProbeResult → Type 0) (n : ℕ) (xs : List ProbeResult) → All P xs → All P (take n xs)
All-take P zero xs h = tt
All-take P (suc n) [] h = tt
All-take P (suc n) (x ∷ xs) h = (h.0, All-take P n xs h.1)

any-none : (xs : List ProbeResult) → any (is_top none) xs ≡ false
any-none [] = refl
any-none (x ∷ xs) = any-none xs

module _ (opts : AskSettings) (probes : List ProbeResult) where
  selection-few : length (recall_selection opts probes).selected ≤ opts.max_recall_shards
  unfolding recall_selection recall_options
  selection-few = omega (arith, (select-best (qualifying opts probes) (recall_options opts)).size)

  selection-earned :
      (top : Option Text) → All (Earns opts top probes) (recall_selection opts probes).selected
  unfolding recall_selection
  selection-earned top =
      All-select (Earns opts top probes) (qualifying opts probes) (recall_options opts)
        (All_mono _ (Earns opts top probes) _ (λ p h. (h.0, inl h.1)) (filter-All-Memᴰ _ probes))

  module _ (targets : List ProbeResult) (few : length targets ≤ opts.max_recall_shards) where
    Memᴰ-length : {p : ProbeResult} → Memᴰ p targets → ltb 0 (length targets) ≡ true
    Memᴰ-length m = occupied targets m
      where
        occupied : (l : List ProbeResult) {p : ProbeResult} → Memᴰ p l → ltb 0 (length l) ≡ true
        occupied [] k = elim k [ ]
        occupied (x ∷ l) k = ground arith

    -- Targets that have one of the first candidate.
    chosen-AreTargets :
        (top : Text)
        → All (Earns opts (some top) probes) targets
        → any (is_of top) targets ≡ true
        → AreTargets opts (some top) probes targets
    chosen-AreTargets top earned h =
        let (p, m, k) = any-some (is_of top) targets h in
        let member =
          any-Memᴰ (is_of top) probes (All-Memᴰ (Earns opts (some top) probes) earned m).0 k in
        record {
          few = few;
          earned = earned;
          trusted = ground (arith, h, member, few, Memᴰ-length m);
        }

    with_probe-AreTargets :
        (top : Text) (o : Option ProbeResult)
        → All (Earns opts (some top) probes) targets
        → any (is_of top) targets ≡ false
        → find (is_of top) probes ≡ o
        → AreTargets opts (some top) probes (with_probe opts.max_recall_shards targets o)
    with_probe-AreTargets top none earned h e = record {
      few = few;
      earned = earned;
      trusted = ground (arith, h, find_nothing (is_of top) probes e);
    }
    with_probe-AreTargets top (some p) earned h e =
        let (m, k) = find-Memᴰ (is_of top) probes e in
        record {
          few = omega (arith, length-take opts.max_recall_shards (p ∷ targets));
          earned =
              All-take (Earns opts (some top) probes) opts.max_recall_shards (p ∷ targets)
                ((m, inr k), earned);
          trusted = lead opts.max_recall_shards k (any-Memᴰ (is_of top) probes m k);
        }
      where
        lead :
            (n : ℕ)
            → is_of top p ≡ true
            → any (is_of top) probes ≡ true
            → any (is_of top) (take n (p ∷ targets)) ≡ (ltb 0 n && any (is_of top) probes)
        lead zero a b = refl
        lead (suc n) a b = ground (arith, a, b)

  -- The recall targets are at most as many as allowed; each is a probe of the run that qualifies for
  -- recall or is of the router's first candidate; and the first candidate is among them exactly if it
  -- was probed and a target is allowed.
  pub recall_targets-AreTargets :
      (candidates : List CandidateScore)
      → AreTargets opts (top_shard candidates) probes (recall_targets opts candidates probes)
  unfolding recall_targets with_top
  recall_targets-AreTargets candidates =
      let targets = (recall_selection opts probes).selected in
      elim (Option-cases (top_shard candidates)) [
        | inl e ↦ rw e (record {
          few = selection-few;
          earned = selection-earned none;
          trusted = ground (arith, any-none targets, any-none probes);
        })
        | inr (top, e) ↦ rw e (elim (Bool-cases (any (is_of top) targets)) [
          | inl h ↦
              rw h (chosen-AreTargets targets selection-few top (selection-earned (some top)) h)
          | inr h ↦ rw h (
              with_probe-AreTargets targets selection-few top (find (is_of top) probes)
                (selection-earned (some top)) h refl)
        ])
      ]
