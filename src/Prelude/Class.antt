-- ===== src/Prelude/Class.antt =====
-- The interfaces that the generic code takes as instances: equality (`===`) and a strict total
-- order (`<`), with their instances at numbers and lists.
use Prim.Native.Nat.{ℕ}
use mathlib.Core.Path.{◌≡◌, refl, ap₂, ap}
use mathlib.Core.Logic.{◌↔◌}
use mathlib.Core.Bool.{Bool, true, false, ◌&&◌}
use mathlib.Core.List.{List, [], ◌∷◌}
use native.Mathlib.Omega.{arith}
use context_swarm_memory.Prelude.Tests.{ltb, nat_eq, nat_eq_iff, if◌then◌else◌}

pub record Eq {ℓ} (A : Type ℓ) : Type ℓ where
  pub test : A → A → Bool
  pub test_iff : (x y : A) → (test x y ≡ true) ↔ (x ≡ y)

module _ {ℓ} {A : Type ℓ} ⦃e : Eq A⦄ where
  infix 50 ◌==◌
  abbrev pub ◌==◌ : (x y : A) → Bool
  ◌==◌ = e.test

  pub ==_iff : (a b : A) → ((a == b) ≡ true) ↔ (a ≡ b)
  ==_iff = e.test_iff

  pub ==_refl : (a : A) → (a == a) ≡ true
  ==_refl a = (e.test_iff a a).1 refl

instance abbrev pub nat_eq_inst : Eq ℕ
nat_eq_inst = record { test = nat_eq; test_iff = nat_eq_iff }

module _ {ℓ} {A : Type ℓ} ⦃e : Eq A⦄ where
  unfoldable pub list_beq : List A → List A → Bool
  list_beq [] [] = true
  list_beq [] (y ∷ ys) = false
  list_beq (x ∷ xs) [] = false
  list_beq (x ∷ xs) (y ∷ ys) = e.test x y && list_beq xs ys

  list_beq_refl : (xs : List A) → list_beq xs xs ≡ true
  unfolding list_beq
  list_beq_refl [] = refl
  list_beq_refl (x ∷ xs) = ground (arith, (e.test_iff x x).1 refl, list_beq_refl xs)

  list_beq_sound : (xs ys : List A) → list_beq xs ys ≡ true → xs ≡ ys
  unfolding list_beq
  list_beq_sound [] [] h = refl
  list_beq_sound [] (y ∷ ys) h = cc
  list_beq_sound (x ∷ xs) [] h = cc
  list_beq_sound (x ∷ xs) (y ∷ ys) h =
      ap₂ (λ a r. a ∷ r) ((e.test_iff x y).0 (ground arith)) (list_beq_sound xs ys (ground arith))

  pub list_beq_iff : (xs ys : List A) → (list_beq xs ys ≡ true) ↔ (xs ≡ ys)
  list_beq_iff xs ys = (list_beq_sound xs ys, λ p. rw p (list_beq_refl ys))

instance abbrev pub list_eq {ℓ} : {A : Type ℓ} ⦃e : Eq A⦄ → Eq (List A)
list_eq = record { test = list_beq; test_iff = list_beq_iff }

module _ {ℓ κ} {A : Type ℓ} {B : Type κ} ⦃e : Eq A⦄ ⦃f : Eq B⦄ where
  abbrev pair_beq : A × B → A × B → Bool
  pair_beq p q = e.test p.0 q.0 && f.test p.1 q.1

  pub pair_beq_iff : (p q : A × B) → (pair_beq p q ≡ true) ↔ (p ≡ q)
  pair_beq_iff (a, b) (c, d) = (
    λ h.
        ap₂ (λ x y. (x, y)) ((e.test_iff a c).0 (ground arith)) ((f.test_iff b d).0 (ground arith)),
    λ h. ground (
      arith,
      (e.test_iff a c).1 (ap (λ (p : A × B). p.0) h),
      (f.test_iff b d).1 (ap (λ (p : A × B). p.1) h),
    ),
  )

-- A strict total order, given by its Boolean test.
pub record Ord {ℓ} (A : Type ℓ) : Type ℓ where
  pub lt : A → A → Bool
  pub lt_irrefl : (a : A) → lt a a ≡ false
  pub lt_trans : (a b c : A) → lt a b ≡ true → lt b c ≡ true → lt a c ≡ true
  pub lt_connex : (a b : A) → lt a b ≡ false → lt b a ≡ false → a ≡ b

pub ltb_irrefl : (a : ℕ) → ltb a a ≡ false
ltb_irrefl a = ground arith

pub ltb_trans : (a b c : ℕ) → ltb a b ≡ true → ltb b c ≡ true → ltb a c ≡ true
ltb_trans a b c h k = ground arith

pub ltb_connex : (a b : ℕ) → ltb a b ≡ false → ltb b a ≡ false → a ≡ b
ltb_connex a b h k = ground arith

instance abbrev pub nat_ord : Ord ℕ
nat_ord = record { lt = ltb; lt_irrefl = ltb_irrefl; lt_trans = ltb_trans; lt_connex = ltb_connex }

-- The lexicographic order of lists, which is the order of texts by code units.
module _ {ℓ} {A : Type ℓ} ⦃o : Ord A⦄ where
  unfoldable pub list_lt : List A → List A → Bool
  list_lt [] [] = false
  list_lt [] (y ∷ ys) = true
  list_lt (x ∷ xs) [] = false
  list_lt (x ∷ xs) (y ∷ ys) = if o.lt x y then true else if o.lt y x then false else list_lt xs ys

  pub list_lt_irrefl : (xs : List A) → list_lt xs xs ≡ false
  unfolding list_lt
  list_lt_irrefl [] = refl
  list_lt_irrefl (x ∷ xs) = ground (arith, o.lt_irrefl x, list_lt_irrefl xs)

  pub list_lt_connex : (xs ys : List A) → list_lt xs ys ≡ false → list_lt ys xs ≡ false → xs ≡ ys
  unfolding list_lt
  list_lt_connex [] [] h k = refl
  list_lt_connex [] (y ∷ ys) h k = cc
  list_lt_connex (x ∷ xs) [] h k = cc
  list_lt_connex (x ∷ xs) (y ∷ ys) h k =
      ap₂ (λ a r. a ∷ r) (o.lt_connex x y (ground arith) (ground arith))
        (list_lt_connex xs ys (ground arith) (ground arith))

  pub list_lt_trans :
      (xs ys zs : List A) → list_lt xs ys ≡ true → list_lt ys zs ≡ true → list_lt xs zs ≡ true
  unfolding list_lt
  list_lt_trans [] [] zs h k = cc
  list_lt_trans [] (y ∷ ys) [] h k = cc
  list_lt_trans [] (y ∷ ys) (z ∷ zs) h k = refl
  list_lt_trans (x ∷ xs) [] zs h k = cc
  list_lt_trans (x ∷ xs) (y ∷ ys) [] h k = cc
  list_lt_trans (x ∷ xs) (y ∷ ys) (z ∷ zs) h k = ground (
    arith,
    o.lt_trans x y z,
    o.lt_trans z x y,
    o.lt_trans y z x,
    o.lt_irrefl x,
    o.lt_connex x y,
    o.lt_connex y z,
    list_lt_trans xs ys zs,
  )

instance abbrev pub list_ord {ℓ} : {A : Type ℓ} ⦃o : Ord A⦄ → Ord (List A)
list_ord = record {
  lt = list_lt;
  lt_irrefl = list_lt_irrefl;
  lt_trans = list_lt_trans;
  lt_connex = list_lt_connex;
}

module _ {ℓ} {A : Type ℓ} ⦃o : Ord A⦄ where
  pub lt_asym : (a b : A) → o.lt a b ≡ true → o.lt b a ≡ false
  lt_asym a b h = ground (arith, o.lt_trans a b a, o.lt_irrefl a)

  pub lt_neg_trans : (a b c : A) → o.lt b a ≡ false → o.lt c b ≡ false → o.lt c a ≡ false
  lt_neg_trans a b c h k = ground (arith, o.lt_trans c a b, o.lt_connex a b)

  pub lt_of_lt_of_le : (a b c : A) → o.lt a b ≡ true → o.lt c b ≡ false → o.lt a c ≡ true
  lt_of_lt_of_le a b c h k = ground (arith, o.lt_trans c a b, o.lt_connex a c)

  pub lt_of_le_of_lt : (a b c : A) → o.lt b a ≡ false → o.lt b c ≡ true → o.lt a c ≡ true
  lt_of_le_of_lt a b c h k = ground (arith, o.lt_trans b c a, o.lt_connex a c)
