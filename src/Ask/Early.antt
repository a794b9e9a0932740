-- ===== src/Ask/Early.antt =====
-- What it is for a recall to start early, and which other recalls than the first are started.
use context_swarm_memory.Prelude.{
  Bool, true, false, not, ◌&&◌, ◌||◌, Option, none, some, if◌then◌else◌, any, nat_eq, Text, list_eq,
  nat_eq_inst, ℕ, suc, ◌+◌, ◌-◌, ◌≤◌, ◌≡◌, refl, ap, List, [], ◌∷◌, map, filter, leb, take, arith,
  Option-cases, Bool-cases, inl, inr, leb→le, le→leb,
}
use context_swarm_memory.Memory.{MemoryShardSnapshot}
use context_swarm_memory.Probe.{ProbeResult, probe_qualifies_for_recall}
use context_swarm_memory.Ask.{AskSettings, AskOutside, Reply, shard_of}
use context_swarm_memory.Ask.Eager.{
  EagerEntry, EagerOutcome, not_called, answered, failed, Placed, may_start, starts,
}
use context_swarm_memory.Ask.Places.{take_nothing, filter_same}

-- A candidate that has a snapshot, and whose probe gave an answer which is good enough.
abbrev pub is_ready : (ProbeResult → Bool) → Placed → Bool
is_ready good p = tested p.probed.view.snapshot p.probed.output
  where
    tested : Option MemoryShardSnapshot → Option (Reply ProbeResult) → Bool
    tested none o = false
    tested (some snap) none = false
    tested (some snap) (some o) = good o.result

abbrev pub shard_at : Placed → Text
shard_at p = shard_of p.probed.view

abbrev pub is_called : EagerEntry → Bool
is_called e = tested e.outcome
  where
    tested : EagerOutcome → Bool
    tested not_called = false
    tested (answered r) = true
    tested failed = true

-- The shards whose recalls were called.
abbrev pub called : List EagerEntry → List Text
called entries = map (λ (e : EagerEntry). e.shard_id) (filter is_called entries)

module _ {S : Type 0} (opts : AskSettings) (outside : AskOutside S) where
  abbrev pub slots : ℕ
  slots = opts.max_recall_shards - 1

  abbrev pub place_of : Placed → ℕ
  place_of p = p.ix

  full :
      (started : ℕ) (order : List Placed) → slots ≤ started → starts opts outside started order ≡ []
  unfolding starts
  full started [] h = refl
  full started (p ∷ order) h = rw (le→leb slots started h) (ground (arith, full started order h))

  starts-from :
      (started : ℕ) (order : List Placed)
      → starts opts outside started order
        ≡ map place_of (take (slots - started) (filter (may_start opts outside) order))
  unfolding starts
  starts-from started [] = rw (take_nothing (slots - started)) refl
  starts-from started (p ∷ order) = elim (Bool-cases (may_start opts outside p)) [
    | inr e ↦ rw e (starts-from started order)
    | inl e ↦ elim (Bool-cases (leb slots started)) [
      | inl f ↦
          let h = leb→le slots started f in
          let none_left : slots - started ≡ 0 = omega (arith, h) in
          rw (e, f, none_left, full started order h) refl
      | inr f ↦
          let one_left : slots - started ≡ suc (slots - (started + 1)) = ground (arith, f) in
          rw (e, f, one_left) (ap (λ l. p.ix ∷ l) (starts-from (started + 1) order))
    ]
  ]

  starts_lem :
      (order : List Placed)
      → starts opts outside 0 order
        ≡ map place_of (take slots (filter (may_start opts outside) order))
  starts_lem order =
      let all_left : slots - 0 ≡ slots = omega arith in rw all_left at (starts-from 0 order)

  -- Another candidate than the first, whose probe qualifies for recall.
  abbrev pub is_other : Placed → Bool
  is_other p =
      not (nat_eq p.ix 0)
      && is_ready (λ r. probe_qualifies_for_recall r opts.recall_confidence_min) p

  -- The places of the others that start early: the first ones to complete, one fewer than the recalls
  -- that are allowed, and none if early recalls are off.
  abbrev pub early_others : List Placed → List ℕ
  early_others order =
      if opts.eager_recalls then map place_of (take slots (filter is_other order)) else []

  -- Whether the recall of a candidate starts early.
  abbrev pub is_early : List Placed → Placed → Bool
  is_early order p =
      is_ready (λ r. true) p && (nat_eq p.ix 0 || any (nat_eq p.ix) (early_others order))

  may_start-is_other : (p : Placed) → may_start opts outside p ≡ is_other p
  may_start-is_other p = elim (Option-cases p.probed.view.snapshot) [
    | inl e ↦ rw e (ground arith)
    | inr (snap, e) ↦ elim (Option-cases p.probed.output) [
      | inl f ↦ rw (e, f) (ground arith)
      | inr (o, f) ↦ rw (e, f) refl
    ]
  ]

  pub started-early_others :
      (order : List Placed)
      → (if opts.eager_recalls then starts opts outside 0 order else []) ≡ early_others order
  started-early_others order =
      rw (starts_lem order, filter_same (may_start opts outside) is_other may_start-is_other order)
        refl
