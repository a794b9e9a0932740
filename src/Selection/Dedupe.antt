-- ===== src/Selection/Dedupe.antt =====
-- `dedupeInOrder` keeps the first occurrence of each item, in order.
use context_swarm_memory.Prelude.{
  ◌≡◌, refl, inl, inr, Bool, true, false, List, [], ◌∷◌, ◌++◌, append_assoc, append-nil, arith,
  if◌then◌else◌, any, Eq, ◌==◌, Bool-cases, Memᴰ, sym, ==_iff, ==_refl, ◌||◌,
}
use context_swarm_memory.Selection.{dedupe_from, dedupe_in_order}

module _ {T : Type 0} ⦃e : Eq T⦄ where
  -- `Set.prototype.has`
  abbrev pub contains : List T → T → Bool
  contains seen item = any (λ x. x == item) seen

  pub contains-Memᴰ : (xs : List T) (a : T) → contains xs a ≡ true → Memᴰ a xs
  contains-Memᴰ [] a h = cc
  contains-Memᴰ (x ∷ xs) a h = elim (Bool-cases (x == a)) [
    | inl q ↦ Memᴰ.head (sym ((==_iff x a).0 q))
    | inr q ↦ Memᴰ.tail (contains-Memᴰ xs a (rw q at h))
  ]

  pub Memᴰ-contains : (xs : List T) (a : T) → Memᴰ a xs → contains xs a ≡ true
  Memᴰ-contains [] a m = elim m [ ]
  Memᴰ-contains (x ∷ xs) a (Memᴰ.head p) = ground (arith, (==_iff x a).1 (sym p))
  Memᴰ-contains (x ∷ xs) a (Memᴰ.tail m) = ground (arith, Memᴰ-contains xs a m)

  -- The items that are not in `seen`, each at its first place.
  abbrev pub firsts : List T → List T → List T
  firsts seen [] = []
  firsts seen (x ∷ xs) = if contains seen x then firsts seen xs else x ∷ firsts (seen ++ x ∷ []) xs

  dedupe_from-eq-firsts :
      (seen out items : List T) → dedupe_from seen out items ≡ out ++ firsts seen items
  unfolding dedupe_from
  dedupe_from-eq-firsts seen out [] = sym (append-nil out)
  dedupe_from-eq-firsts seen out (x ∷ items) = elim (Bool-cases (contains seen x)) [
    | inl q ↦ rw q (dedupe_from-eq-firsts seen out items)
    | inr q ↦
        rw q (rw append_assoc at (dedupe_from-eq-firsts (seen ++ x ∷ []) (out ++ x ∷ []) items))
  ]

  -- No item stands twice.
  abbrev pub IsDistinct : List T → Type 0
  IsDistinct [] = Unit
  IsDistinct (x ∷ xs) = (contains xs x ≡ false) × IsDistinct xs

  contains-append :
      (xs ys : List T) (a : T)
      → contains (xs ++ ys) a ≡ (if contains xs a then true else contains ys a)
  contains-append [] ys a = refl
  contains-append (x ∷ xs) ys a = ground (arith, contains-append xs ys a)

  contains-firsts :
      (seen xs : List T) (a : T)
      → contains (firsts seen xs) a ≡ (if contains seen a then false else contains xs a)
  contains-firsts seen [] a = ground arith
  contains-firsts seen (x ∷ xs) a = elim (Bool-cases (contains seen x)) [
    | inl q ↦ rw q (ground (arith, contains-firsts seen xs a, ==_iff x a))
    | inr q ↦ rw q (
        ground (
          arith,
          contains-firsts (seen ++ x ∷ []) xs a,
          contains-append seen (x ∷ []) a,
          ==_iff x a,
        ))
  ]

  firsts-IsDistinct : (seen xs : List T) → IsDistinct (firsts seen xs)
  firsts-IsDistinct seen [] = tt
  firsts-IsDistinct seen (x ∷ xs) = elim (Bool-cases (contains seen x)) [
    | inl q ↦ rw q (firsts-IsDistinct seen xs)
    | inr q ↦ rw q (
      ground (
        arith,
        contains-firsts (seen ++ x ∷ []) xs x,
        contains-append seen (x ∷ []) x,
        ==_refl x,
      ),
      firsts-IsDistinct (seen ++ x ∷ []) xs,
    )
  ]

  firsts-concat :
      (seen xs : List T) (y : T)
      → firsts seen (xs ++ y ∷ [])
        ≡ (if contains seen y || contains xs y then firsts seen xs else firsts seen xs ++ y ∷ [])
  firsts-concat seen [] y = ground arith
  firsts-concat seen (x ∷ xs) y = elim (Bool-cases (contains seen x)) [
    | inl q ↦ rw q (ground (arith, firsts-concat seen xs y, ==_iff x y))
    | inr q ↦
        rw q (ground (arith, firsts-concat (seen ++ x ∷ []) xs y, contains-append seen (x ∷ []) y))
  ]

  dedupe_in_order-eq-firsts : (xs : List T) → dedupe_in_order xs ≡ firsts [] xs
  unfolding dedupe_in_order
  dedupe_in_order-eq-firsts xs = dedupe_from-eq-firsts [] [] xs

  -- The result holds each item of the list once, and no other; an item that is added at the end
  -- changes the result only if it is new, and then stands at its end.
  pub dedupe_in_order_lem :
      (xs : List T) (y : T)
      → IsDistinct (dedupe_in_order xs)
        × (contains (dedupe_in_order xs) y ≡ contains xs y)
        × (dedupe_in_order (xs ++ y ∷ [])
            ≡ (if contains xs y then dedupe_in_order xs else dedupe_in_order xs ++ y ∷ []))
  dedupe_in_order_lem xs y =
      rw (dedupe_in_order-eq-firsts xs, dedupe_in_order-eq-firsts (xs ++ y ∷ []))
        (firsts-IsDistinct [] xs, contains-firsts [] xs y, firsts-concat [] xs y)
