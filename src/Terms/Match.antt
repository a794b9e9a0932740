-- ===== src/Terms/Match.antt =====
-- Matching of terms: what it means, and that tokens are terms.
use context_swarm_memory.Prelude.{
  ◌≤◌, ◌≡◌, refl, ap₂, true, [], ◌∷◌, ◌++◌, length, ltb, nat_eq_iff, Text, arith, ◌⊎◌, Bool-cases,
  inl, inr, ◌==◌, ==_iff, list_eq, nat_eq_inst,
}
use context_swarm_memory.Terms.{starts_with, prefix_match}

starts_with-split : (s p : Text) → starts_with s p ≡ true → (rest : Text) × (s ≡ p ++ rest)
unfolding starts_with
starts_with-split s [] h = (s, refl)
starts_with-split [] (c ∷ p) h = cc
starts_with-split (d ∷ s) (c ∷ p) h =
    let (rest, e) = starts_with-split s p (ground arith) in
    (rest, ap₂ (λ x xs. x ∷ xs) ((nat_eq_iff d c).0 (ground arith)) e)

-- Terms that match are equal, or one of them has at least four units and begins the other.
pub prefix_match-split :
    (a b : Text)
    → prefix_match a b ≡ true
    → (a ≡ b)
      ⊎ (((rest : Text) × (b ≡ a ++ rest) × (4 ≤ length a))
          ⊎ ((rest : Text) × (a ≡ b ++ rest) × (4 ≤ length b)))
unfolding prefix_match
prefix_match-split a b h = elim (Bool-cases (a == b)) [
  | inl e ↦ inl ((==_iff a b).0 e)
  | inr e ↦ elim (Bool-cases (ltb (length a) (length b))) [
    | inl l ↦ elim (Bool-cases (ltb (length a) 4)) [
      | inl short ↦ cc (rw (e, l, short) at h)
      | inr long ↦
          let (rest, split) = starts_with-split b a (rw (e, l, long) at h) in
          inr (inl (rest, split, ground arith))
    ]
    | inr l ↦ elim (Bool-cases (ltb (length b) 4)) [
      | inl short ↦ cc (rw (e, l, short) at h)
      | inr long ↦
          let (rest, split) = starts_with-split a b (rw (e, l, long) at h) in
          inr (inr (rest, split, ground arith))
    ]
  ]
]
