-- ===== src/Recall/Grounded.antt =====
-- The citations of a recall are real, and no correction of them is silent.
use context_swarm_memory.Prelude.{
  ℕ, ◌-◌, ◌≤◌, ◌≡◌, refl, ap, ap₂, Bool, true, false, List, [], ◌∷◌, ◌++◌, if◌then◌else◌, filter,
  length, map, nat_eq, nat_eq_iff, ltb, arith, All, subst, Text, Bool-cases, inl, inr, ◌⊎◌, ==_iff,
  list_eq, nat_eq_inst,
}
use context_swarm_memory.Memory.{MemoryShardSnapshot}
use context_swarm_memory.Recall.{
  RecallClaim, RecallResult, known, keep_known, fabricated, echoed_wrongly, citation_conflicts,
  recall_result,
}

pub filter-All : (p : Text → Bool) (xs : List Text) → All (λ x. p x ≡ true) (filter p xs)
filter-All p [] = tt
filter-All p (x ∷ xs) = elim (Bool-cases (p x)) [
  | inl e ↦ rw e (e, filter-All p xs)
  | inr e ↦ rw e (filter-All p xs)
]

length-filter : (p : Text → Bool) (xs : List Text) → length (filter p xs) ≤ length xs
length-filter p [] = omega arith
length-filter p (x ∷ xs) = ground (arith, length-filter p xs)

filter_whole :
    (p : Text → Bool) (xs : List Text) → length (filter p xs) ≡ length xs → filter p xs ≡ xs
filter_whole p [] h = refl
filter_whole p (x ∷ xs) h = elim (Bool-cases (p x)) [
  | inl e ↦ rw e (ap (λ ys. x ∷ ys) (filter_whole p xs (omega (arith, rw e at h))))
  | inr e ↦ absurd (omega (arith, rw e at h, length-filter p xs))
]

module _ (snapshot : MemoryShardSnapshot) where
  keep_known-All :
      (c : RecallClaim) → All (λ i. known snapshot i ≡ true) (keep_known snapshot c).support
  unfolding keep_known
  keep_known-All c =
      elim (Bool-cases (nat_eq (length (filter (known snapshot) c.support)) (length c.support))) [
        | inl e ↦ rw e (
            subst (λ xs. All (λ i. known snapshot i ≡ true) xs)
              (filter_whole (known snapshot) c.support ((nat_eq_iff _ _).0 e))
              (filter-All (known snapshot) c.support))
        | inr e ↦ rw e (filter-All (known snapshot) c.support)
      ]

  keep_known-claim : (c : RecallClaim) → (keep_known snapshot c).claim ≡ c.claim
  unfolding keep_known
  keep_known-claim c = ground arith

  keep_known-same :
      (c : RecallClaim)
      → length c.support - length (filter (known snapshot) c.support) ≡ 0
      → keep_known snapshot c ≡ c
  unfolding keep_known
  keep_known-same c h = rw (
      (nat_eq_iff (length (filter (known snapshot) c.support)) (length c.support)).1
        (omega (arith, h, length-filter (known snapshot) c.support)))

  unchanged :
      (cs : List RecallClaim) → fabricated snapshot cs ≡ 0 → map (keep_known snapshot) cs ≡ cs
  unfolding fabricated
  unchanged [] h = refl
  unchanged (c ∷ cs) h =
      ap₂ (λ x xs. x ∷ xs) (keep_known-same c (omega (arith, h))) (unchanged cs (omega (arith, h)))

  claims-All :
      (cs : List RecallClaim)
      → All
          (λ (c : RecallClaim). All (λ i. known snapshot i ≡ true) c.support)
          (map (keep_known snapshot) cs)
  claims-All [] = tt
  claims-All (c ∷ cs) = (keep_known-All c, claims-All cs)

  claims-same :
      (cs : List RecallClaim)
      → map (λ (c : RecallClaim). c.claim) (map (keep_known snapshot) cs)
        ≡ map (λ (c : RecallClaim). c.claim) cs
  claims-same [] = refl
  claims-same (c ∷ cs) = ap₂ (λ x xs. x ∷ xs) (keep_known-claim c) (claims-same cs)

  silent :
      (wrong : Bool) (n : ℕ) (a b : Text)
      → (if wrong then a ∷ [] else []) ++ (if ltb 0 n then b ∷ [] else []) ≡ []
      → (wrong ≡ false) × (n ≡ 0)
  silent true n a b h = cc
  silent false n a b h = elim (Bool-cases (ltb 0 n)) [
    | inl e ↦ cc (rw e at h)
    | inr e ↦ (refl, ground arith)
  ]

-- When a result is grounded: it names the shard and the snapshot of the call; every event that a claim
-- cites is an event of that snapshot; the claims' words and their order are the model's; the conflicts
-- start with the model's; and either the claims with all their citations and the two names are the
-- model's, or a conflict is added.
pub record IsGrounded (snapshot : MemoryShardSnapshot) (echoed result : RecallResult) : Type 0 where
  pub shard : result.shard_id ≡ snapshot.shard_id
  pub named : result.snapshot_id ≡ snapshot.snapshot_id
  pub cited : All (λ (c : RecallClaim). All (λ i. known snapshot i ≡ true) c.support) result.claims
  pub words :
      map (λ (c : RecallClaim). c.claim) result.claims
      ≡ map (λ (c : RecallClaim). c.claim) echoed.claims
  pub added : List Text
  pub conflicts : result.conflicts ≡ echoed.conflicts ++ added
  pub honest :
      ((result.claims ≡ echoed.claims)
        × (echoed.shard_id ≡ snapshot.shard_id)
        × (echoed.snapshot_id ≡ snapshot.snapshot_id))
      ⊎ ((x : Text) × (xs : List Text) × (added ≡ x ∷ xs))

List-cases : (xs : List Text) → (xs ≡ []) ⊎ ((y : Text) × (ys : List Text) × (xs ≡ y ∷ ys))
List-cases [] = inl refl
List-cases (x ∷ xs) = inr (x, xs, refl)

agreed_of :
    (snapshot : MemoryShardSnapshot) (echoed : RecallResult)
    → echoed_wrongly snapshot echoed ≡ false
    → (echoed.shard_id ≡ snapshot.shard_id) × (echoed.snapshot_id ≡ snapshot.snapshot_id)
agreed_of snapshot echoed h = (
  (==_iff echoed.shard_id snapshot.shard_id).0 (ground arith),
  (==_iff echoed.snapshot_id snapshot.snapshot_id).0 (ground arith),
)

-- The result of a recall is grounded in the snapshot that the call was made against, whatever the
-- model answered: it names that snapshot, cites only its events, keeps the words of the claims, and
-- corrects nothing without adding a conflict.
pub recall_result-IsGrounded :
    (snapshot : MemoryShardSnapshot) (echoed : RecallResult)
    → IsGrounded snapshot echoed (recall_result snapshot echoed)
unfolding recall_result citation_conflicts
recall_result-IsGrounded snapshot echoed = record {
  shard = refl;
  named = refl;
  cited = claims-All snapshot echoed.claims;
  words = claims-same snapshot echoed.claims;
  added = citation_conflicts snapshot echoed;
  conflicts = refl;
  honest = elim (List-cases (citation_conflicts snapshot echoed)) [
    | inr more ↦ inr more
    | inl none_added ↦
        let (right, nothing) =
          silent snapshot (echoed_wrongly snapshot echoed) (fabricated snapshot echoed.claims) _ _
            none_added in
        let (shard, named) = agreed_of snapshot echoed right in
        inl (unchanged snapshot echoed.claims nothing, shard, named)
  ];
}
