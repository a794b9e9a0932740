-- ===== src/Probe/Reconciled.antt =====
-- The results of a batched probe are those of the requested shards.
use context_swarm_memory.Prelude.{
  ◌≡◌, sym, ap, ◌∙◌, true, false, none, some, List, [], ◌∷◌, ◌++◌, append_assoc, append-nil, any,
  find, All, subst, some_inj, Text, Bool-cases, Option-cases, inl, inr, ==_iff, list_eq,
  nat_eq_inst,
}
use context_swarm_memory.Memory.{MemoryShardSnapshot}
use context_swarm_memory.Recall.{known}
use context_swarm_memory.Recall.Grounded.{filter-All}
use context_swarm_memory.Probe.{
  Verdict, ProbeResult, is_for, index_from, padded, from_verdict, result_for, reconcile,
}

find_other :
    (id : Text) (v : Verdict) (seen vs : List Verdict)
    → is_for id v ≡ false
    → find (is_for id) (seen ++ v ∷ vs) ≡ find (is_for id) (seen ++ vs)
find_other id v [] vs h = rw h
find_other id v (s ∷ seen) vs h = elim (Bool-cases (is_for id s)) [
  | inl e ↦ rw e
  | inr e ↦ rw e (find_other id v seen vs h)
]

find_early :
    (id : Text) (seen vs ws : List Verdict)
    → any (is_for id) seen ≡ true
    → find (is_for id) (seen ++ vs) ≡ find (is_for id) (seen ++ ws)
find_early id [] vs ws h = cc
find_early id (s ∷ seen) vs ws h = elim (Bool-cases (is_for id s)) [
  | inl e ↦ rw e
  | inr e ↦ rw e (find_early id seen vs ws (rw e at h))
]

-- A verdict for a shard that is set already is never found.
find_set :
    (id : Text) (v : Verdict) (seen vs : List Verdict)
    → any (is_for v.shard_id) seen ≡ true
    → find (is_for id) (seen ++ v ∷ vs) ≡ find (is_for id) (seen ++ vs)
find_set id v seen vs h = elim (Bool-cases (is_for id v)) [
  | inl e ↦
      find_early id seen (v ∷ vs) vs
        (subst (λ i. any (is_for i) seen ≡ true) ((==_iff v.shard_id id).0 e) h)
  | inr e ↦ find_other id v seen vs e
]

find-index_from :
    (id : Text) (seen vs : List Verdict)
    → find (is_for id) (index_from seen vs) ≡ find (is_for id) (seen ++ vs)
unfolding index_from
find-index_from id seen [] = ap (λ xs. find (is_for id) xs) (sym (append-nil seen))
find-index_from id seen (v ∷ vs) = elim (Bool-cases (any (is_for v.shard_id) seen)) [
  | inl e ↦ rw e (find-index_from id seen vs ∙ sym (find_set id v seen vs e))
  | inr e ↦ rw e (
      find-index_from id (seen ++ v ∷ []) vs
      ∙ ap (λ xs. find (is_for id) xs) (append_assoc seen (v ∷ []) vs))
]

-- The result for a shard: from the first verdict that names it, with the events of the shard alone;
-- or, when no verdict names it, the rejection that is padded in.
pub data IsResult (verdicts : List Verdict) (snap : MemoryShardSnapshot)
    : ProbeResult → Type 0 where
  answered :
      (before : List Verdict) (v : Verdict) (after : List Verdict)
      → verdicts ≡ before ++ v ∷ after
      → v.shard_id ≡ snap.shard_id
      → All (λ x. is_for snap.shard_id x ≡ false) before
      → All (λ i. known snap i ≡ true) (from_verdict snap v).relevant_event_ids
      → IsResult verdicts snap (from_verdict snap v)
  missing :
      All (λ x. is_for snap.shard_id x ≡ false) verdicts → IsResult verdicts snap (padded snap)

-- One result for each requested shard, in the order of the request.
abbrev pub AreResults : List Verdict → List MemoryShardSnapshot → List ProbeResult → Type 0
AreResults verdicts [] [] = Unit
AreResults verdicts [] (r ∷ rs) = ⊥
AreResults verdicts (s ∷ ss) [] = ⊥
AreResults verdicts (s ∷ ss) (r ∷ rs) = IsResult verdicts s r × AreResults verdicts ss rs

find-none :
    (id : Text) (vs : List Verdict) → find (is_for id) vs ≡ none → All (λ x. is_for id x ≡ false) vs
find-none id [] h = tt
find-none id (v ∷ vs) h = elim (Bool-cases (is_for id v)) [
  | inl e ↦ cc (rw e at h)
  | inr e ↦ (e, find-none id vs (rw e at h))
]

find-some :
    (id : Text) (vs : List Verdict) (v : Verdict)
    → find (is_for id) vs ≡ some v
    → (before : List Verdict) × (after : List Verdict) × (vs ≡ before ++ v ∷ after)
      × (is_for id v ≡ true)
      × All (λ x. is_for id x ≡ false) before
find-some id [] v h = cc
find-some id (x ∷ vs) v h = elim (Bool-cases (is_for id x)) [
  | inl e ↦
      let same : x ≡ v = some_inj (rw e at h) in
      ([], vs, ap (λ y. y ∷ vs) same, subst (λ y. is_for id y ≡ true) same e, tt)
  | inr e ↦
      let (before, after, split, it, others) = find-some id vs v (rw e at h) in
      (x ∷ before, after, ap (λ ys. x ∷ ys) split, it, (e, others))
]

result_for-IsResult :
    (verdicts : List Verdict) (snap : MemoryShardSnapshot)
    → IsResult verdicts snap
        (result_for snap (find (is_for snap.shard_id) (index_from [] verdicts)))
unfolding from_verdict
result_for-IsResult verdicts snap =
    let first = find-index_from snap.shard_id [] verdicts in
    elim (Option-cases (find (is_for snap.shard_id) verdicts)) [
      | inl e ↦ rw (first, e) (missing (find-none snap.shard_id verdicts e))
      | inr (v, e) ↦
          let (before, after, split, it, others) = find-some snap.shard_id verdicts v e in
          rw (first, e)
            (answered before v after split ((==_iff v.shard_id snap.shard_id).0 it) others
              (filter-All (known snap) v.relevant_event_ids))
    ]

-- Whatever list of verdicts the model gives, a batched probe has one result for each requested shard,
-- in the order of the request: from the first verdict that names the shard, with none but events of
-- that shard, or the padded rejection when no verdict names it.
pub reconcile-AreResults :
    (verdicts : List Verdict) (snapshots : List MemoryShardSnapshot)
    → AreResults verdicts snapshots (reconcile verdicts snapshots)
unfolding reconcile
reconcile-AreResults verdicts [] = tt
reconcile-AreResults verdicts (s ∷ ss) =
    (result_for-IsResult verdicts s, reconcile-AreResults verdicts ss)
