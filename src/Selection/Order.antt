-- ===== src/Selection/Order.antt =====
-- The comparator of `select` is a strict weak order under every tie policy.
use context_swarm_memory.Prelude.{◌≡◌, true, false, arith, Ord, lt_asym, lt_neg_trans}
use context_swarm_memory.Prelude.Sort.{IsWeakOrder}
use context_swarm_memory.Selection.{
  TieBreak, stable, key_asc, key_desc, Score, Scored, tie_before, ranks_before,
}

module _ {T S K : Type 0} ⦃sc : Score S⦄ ⦃ko : Ord K⦄ where
  tie_before-asym :
      (tie : TieBreak) (a b : Scored T S K) → tie_before tie a b ≡ true → tie_before tie b a ≡ false
  unfolding tie_before
  tie_before-asym stable a b h = ground arith
  tie_before-asym key_asc a b h = lt_asym a.k b.k h
  tie_before-asym key_desc a b h = lt_asym b.k a.k h

  tie_before-neg_trans :
      (tie : TieBreak) (a b c : Scored T S K)
      → tie_before tie b a ≡ false
      → tie_before tie c b ≡ false
      → tie_before tie c a ≡ false
  unfolding tie_before
  tie_before-neg_trans stable a b c h k = ground arith
  tie_before-neg_trans key_asc a b c h k = lt_neg_trans a.k b.k c.k h k
  tie_before-neg_trans key_desc a b c h k = lt_neg_trans c.k b.k a.k k h

  ranks_before-asym :
      (tie : TieBreak) (a b : Scored T S K)
      → ranks_before tie a b ≡ true
      → ranks_before tie b a ≡ false
  unfolding ranks_before
  ranks_before-asym tie a b h =
      ground
        (arith, lt_asym ⦃o = sc.ord⦄ a.s b.s, lt_asym ⦃o = sc.ord⦄ b.s a.s, tie_before-asym tie a b)

  ranks_before-neg_trans :
      (tie : TieBreak) (a b c : Scored T S K)
      → ranks_before tie b a ≡ false
      → ranks_before tie c b ≡ false
      → ranks_before tie c a ≡ false
  unfolding ranks_before
  ranks_before-neg_trans tie a b c h k = ground (
    arith,
    lt_neg_trans ⦃o = sc.ord⦄ a.s b.s c.s,
    lt_neg_trans ⦃o = sc.ord⦄ c.s b.s a.s,
    lt_asym ⦃o = sc.ord⦄ a.s b.s,
    lt_asym ⦃o = sc.ord⦄ b.s a.s,
    lt_asym ⦃o = sc.ord⦄ b.s c.s,
    lt_asym ⦃o = sc.ord⦄ a.s c.s,
    sc.ord.lt_trans a.s b.s c.s,
    sc.ord.lt_trans c.s b.s a.s,
    sc.ord.lt_connex a.s b.s,
    sc.ord.lt_connex b.s c.s,
    sc.ord.lt_connex a.s c.s,
    tie_before-neg_trans tie a b c,
  )

  pub ranks_before-IsWeakOrder :
      (tie : TieBreak) → IsWeakOrder (ranks_before {T = T} {S = S} {K = K} tie)
  ranks_before-IsWeakOrder tie = record {
    asym = ranks_before-asym tie;
    neg_trans = ranks_before-neg_trans tie;
  }
