-- ===== src/RetrievalUnit/Tiling.antt =====
-- The units of a shard cover its events without gap or overlap.
use context_swarm_memory.Prelude.{
  ℕ, zero, suc, ◌+◌, ◌-◌, ◌≤◌, ◌<◌, ◌≡◌, refl, sym, ap, Bool, true, false, ◌||◌, Option, none, some,
  List, [], ◌∷◌, ◌++◌, leb, arith, All, All-append, nat_eq, nat_eq_iff, subst, Text, Bool-cases,
  inl, inr, ==_iff, list_eq, nat_eq_inst,
}
use context_swarm_memory.Selection.{or_else}
use context_swarm_memory.RetrievalUnit.{
  RetrievalUnit, PartitionOptions, Cutting, same_key, key_at, boundary_changed, unit_size, push,
  cut_at, cut_all, partition_into_units, at_least_one,
}

-- The spans follow one another from `from` to `to`.
abbrev pub Tiles : ℕ → ℕ → List RetrievalUnit → Type 0
Tiles from to [] = from ≡ to
Tiles from to (u ∷ us) = (u.start ≡ from) × Tiles u.end to us

Tiles-push :
    (from to : ℕ) (us : List RetrievalUnit) (u : RetrievalUnit)
    → Tiles from u.start us
    → u.end ≡ to
    → Tiles from to (us ++ u ∷ [])
Tiles-push from to [] u h e = (sym h, e)
Tiles-push from to (x ∷ us) u h e = (h.0, Tiles-push x.end to us u h.1 e)

-- The events of a span have one boundary key.
pub IsUniform : PartitionOptions → ℕ → ℕ → Type 0
IsUniform opts from to =
    (j : ℕ) → from ≤ j → j + 1 < to → key_at opts.boundary_key j ≡ key_at opts.boundary_key (j + 1)

-- A unit of the shard: not empty, no longer than the target, and inside one session.
pub record IsUnit (shard_id : Text) (opts : PartitionOptions) (u : RetrievalUnit) : Type 0 where
  pub shard : u.shard_id ≡ shard_id
  pub filled : u.start < u.end
  pub short : u.end ≤ u.start + unit_size opts
  pub uniform :
      (j : ℕ)
      → u.start ≤ j
      → j + 1 < u.end
      → key_at opts.boundary_key j ≡ key_at opts.boundary_key (j + 1)

one_le_unit_size : (n : ℕ) → 1 ≤ at_least_one n
one_le_unit_size zero = omega arith
one_le_unit_size (suc n) = omega arith

same_key→ : (a b : Option Text) → same_key a b ≡ true → a ≡ b
same_key→ none none h = refl
same_key→ none (some b) h = cc
same_key→ (some a) none h = cc
same_key→ (some a) (some b) h = ap some ((==_iff a b).0 h)

unchanged→ :
    (f : Option (ℕ → Option Text)) (i j : ℕ)
    → boundary_changed f (key_at f i) (key_at f j) ≡ false
    → key_at f j ≡ key_at f i
unchanged→ none i j h = refl
unchanged→ (some f) i j h = sym (same_key→ (f i) (f j) (ground arith))

or_false : (a b : Bool) → (a || b) ≡ false → (a ≡ false) × (b ≡ false)
or_false a b h = ground arith

module _ (shard_id : Text) (opts : PartitionOptions) where
  -- The state before the iteration of event `i + 1`.
  record IsCutting (i : ℕ) (c : Cutting) : Type 0 where
    tiles : Tiles 0 c.start c.units
    units : All (IsUnit shard_id opts) c.units
    before : c.start ≤ i
    short : i < c.start + unit_size opts
    key : c.prev_key ≡ key_at opts.boundary_key i
    uniform :
        (j : ℕ)
        → c.start ≤ j
        → j + 1 < i + 1
        → key_at opts.boundary_key j ≡ key_at opts.boundary_key (j + 1)

  further :
      (i : ℕ) (c : Cutting)
      → IsCutting i c
      → key_at opts.boundary_key i ≡ key_at opts.boundary_key (i + 1)
      → (j : ℕ) → c.start ≤ j
      → j + 1 < i + 1 + 1
      → key_at opts.boundary_key j ≡ key_at opts.boundary_key (j + 1)
  further i c h e j l k = elim (Bool-cases (nat_eq j i)) [
    | inl same ↦
        subst (λ x. key_at opts.boundary_key x ≡ key_at opts.boundary_key (x + 1))
          (sym ((nat_eq_iff j i).0 same)) e
    | inr other ↦ h.uniform j l (ground arith)
  ]

  push-IsUnit :
      (i : ℕ) (c : Cutting)
      → IsCutting i c
      → Tiles 0 (i + 1) (push shard_id c.start (i + 1) c.units)
        × All (IsUnit shard_id opts) (push shard_id c.start (i + 1) c.units)
  push-IsUnit i c h = (
    Tiles-push 0 (i + 1) c.units _ h.tiles refl,
    All-append _ c.units _ h.units (
      record {
        shard = refl;
        filled = omega (arith, h.before);
        short = omega (arith, h.short);
        uniform = h.uniform;
      },
      tt,
    ),
  )

  cut_at-IsCutting :
      (i : ℕ) (c : Cutting) → IsCutting i c → IsCutting (i + 1) (cut_at shard_id opts (i + 1) c)
  unfolding cut_at
  cut_at-IsCutting i c h =
      elim (Bool-cases (
        boundary_changed opts.boundary_key (key_at opts.boundary_key (i + 1)) c.prev_key
        || leb (unit_size opts) (i + 1 - c.start))) [
          | inl e ↦
              let (tiles, units) = push-IsUnit i c h in
              rw e (record {
                tiles = tiles;
                units = units;
                before = omega arith;
                short = omega (arith, one_le_unit_size (or_else opts.target_size 6));
                key = refl;
                uniform = λ j l k. absurd (omega (arith, l, k));
              })
          | inr e ↦
              let (same, room) =
                or_false
                  (boundary_changed opts.boundary_key (key_at opts.boundary_key (i + 1)) c.prev_key)
                  (leb (unit_size opts) (i + 1 - c.start)) e in
              rw e (record {
                tiles = h.tiles;
                units = h.units;
                before = omega (arith, h.before);
                short = ground (arith, room, h.before, h.short);
                key = refl;
                uniform = λ j l k.
                    further i c h (unchanged→ opts.boundary_key (i + 1) i (rw h.key at same)) j l k;
              })
        ]

  cut_all-IsCutting :
      (left i : ℕ) (c : Cutting)
      → IsCutting i c
      → IsCutting (left + i) (cut_all shard_id opts (i + 1) left c)
  unfolding cut_all
  cut_all-IsCutting zero i c h = subst (λ k. IsCutting k c) (omega arith) h
  cut_all-IsCutting (suc left) i c h =
      subst
        (λ k. IsCutting k (cut_all shard_id opts (i + 1 + 1) left (cut_at shard_id opts (i + 1) c)))
        (omega arith)
        (cut_all-IsCutting left (i + 1) (cut_at shard_id opts (i + 1) c) (cut_at-IsCutting i c h))

-- The units of a shard with `n` events follow one another from 0 to `n` without gap or overlap. Each
-- is of that shard, holds at least one event and at most the target number (6 if none is given, and
-- at least 1), and no boundary between sessions falls inside it.
pub partition_into_units-Tiles :
    (shard_id : Text) (n : ℕ) (opts : PartitionOptions)
    → Tiles 0 n (partition_into_units shard_id n opts)
      × All (IsUnit shard_id opts) (partition_into_units shard_id n opts)
unfolding partition_into_units
partition_into_units-Tiles shard_id zero opts = (refl, tt)
partition_into_units-Tiles shard_id (suc n) opts =
    let first : Cutting = record { units = []; start = 0; prev_key = key_at opts.boundary_key 0 } in
    let c = cut_all shard_id opts 1 n first in
    subst
      (λ k.
        Tiles 0 k (push shard_id c.start k c.units)
        × All (IsUnit shard_id opts) (push shard_id c.start k c.units))
      (omega arith)
      (push-IsUnit shard_id opts n c (
        subst (λ k. IsCutting shard_id opts k (cut_all shard_id opts 1 n first)) (omega arith)
          (cut_all-IsCutting shard_id opts n 0 first (record {
            tiles = refl;
            units = tt;
            before = omega arith;
            short = omega (arith, one_le_unit_size (or_else opts.target_size 6));
            key = refl;
            uniform = λ j l k. absurd (omega (arith, l, k));
          }))))
