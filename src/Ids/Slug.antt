-- ===== src/Ids/Slug.antt =====
-- What stands in a slug.
use context_swarm_memory.Prelude.{
  ℕ, zero, suc, ◌≤◌, ◌≡◌, refl, sym, Bool, true, false, ◌||◌, [], ◌∷◌, length, take, length-take,
  All, All-append, subst, Text, nat_eq, arith, Bool-cases, inl, inr, to_lower,
}
use context_swarm_memory.Ids.{is_slug_unit, dash_runs, drop_dashes, strip_dashes, slugify}
use mathlib.Core.List.{reverse, reverse-cons}

-- A small letter, a digit or a dash.
abbrev pub IsSlugUnit : ℕ → Type 0
IsSlugUnit c = (is_slug_unit c || nat_eq c b'-') ≡ true

dash_runs-All : (in_run : Bool) (s : Text) → All IsSlugUnit (dash_runs in_run s)
unfolding dash_runs
dash_runs-All in_run [] = tt
dash_runs-All in_run (c ∷ s) = elim (Bool-cases (is_slug_unit c)) [
  | inl e ↦ rw e (rw e, dash_runs-All false s)
  | inr e ↦ elim (Bool-cases in_run) [
    | inl f ↦ rw (e, f) (dash_runs-All true s)
    | inr f ↦ rw (e, f) (refl, dash_runs-All true s)
  ]
]

drop_dashes-All : (s : Text) → All IsSlugUnit s → All IsSlugUnit (drop_dashes s)
unfolding drop_dashes
drop_dashes-All [] h = tt
drop_dashes-All (c ∷ s) h = elim (Bool-cases (nat_eq c b'-')) [
  | inl e ↦ rw e (drop_dashes-All s h.1)
  | inr e ↦ rw e h
]

reverse-All : (s : Text) → All IsSlugUnit s → All IsSlugUnit (reverse s)
reverse-All [] h = tt
reverse-All (c ∷ s) h =
    subst (All IsSlugUnit) (sym (reverse-cons c s))
      (All-append IsSlugUnit (reverse s) (c ∷ []) (reverse-All s h.1) (h.0, tt))

take-All : (n : ℕ) (s : Text) → All IsSlugUnit s → All IsSlugUnit (take n s)
take-All zero s h = tt
take-All (suc n) [] h = tt
take-All (suc n) (c ∷ s) h = (h.0, take-All n s h.1)

-- A slug holds small letters, digits and dashes only, and at most 60 of them.
pub slugify_lem : (input : Text) → All IsSlugUnit (slugify input) × (length (slugify input) ≤ 60)
unfolding slugify strip_dashes
slugify_lem input =
    let runs = dash_runs false (to_lower input) in
    (
      take-All 60 _ (
          reverse-All _ (
            drop_dashes-All _
              (reverse-All _ (drop_dashes-All runs (dash_runs-All false (to_lower input)))))),
      omega (arith, length-take 60 (reverse (drop_dashes (reverse (drop_dashes runs))))),
    )
