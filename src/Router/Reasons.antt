-- ===== src/Router/Reasons.antt =====
-- What the reasons of a score say, and lists of parts that are what their reasons say.
use context_swarm_memory.Prelude.{
  ℕ, ◌+◌, ◌-◌, ◌*◌, ◌/◌, ◌≤◌, ◌≡◌, refl, sym, Bool, true, false, List, [], ◌∷◌, ◌++◌, filter,
  if◌then◌else◌, ltb, leb, arith, Bool-cases, inl, inr,
}
use context_swarm_memory.Memory.{active, frozen, archived, deleted, current, possibly_stale, stale}
use context_swarm_memory.Router.{
  zero_score, Part, RouteReason, tag_overlap, desc_match, name_match, summary_match, recency_boost,
  staleness_penalty, fullness_penalty, status_penalty, all_reasons, total,
}

-- Ninety days in milliseconds, the unit 1.0 of scores.
abbrev pub ninety_days : ℕ
ninety_days = 90 * 24 * 60 * 60 * 1000

-- What a reason adds to the score, and what it takes away, by what it says.
abbrev pub credit : RouteReason → ℕ
credit (tag_overlap n) = n * (2 * ninety_days)
credit (desc_match n) = n * ninety_days
credit (name_match n) = n * (6 * ninety_days / 4)
credit (summary_match n) = n * (3 * ninety_days / 4)
credit (recency_boost r) = r
credit _ = 0

abbrev pub debit : RouteReason → ℕ
debit (staleness_penalty possibly_stale) = ninety_days / 2
debit (staleness_penalty stale) = ninety_days
debit (fullness_penalty pct) = if leb 8500 pct then ninety_days else ninety_days / 2
debit (status_penalty frozen) = ninety_days / 4
debit (status_penalty archived) = 5 * ninety_days
debit (status_penalty deleted) = 5 * ninety_days
debit _ = 0

abbrev pub sum_of : (RouteReason → ℕ) → List RouteReason → ℕ
sum_of f [] = 0
sum_of f (r ∷ rs) = f r + sum_of f rs

-- Whether there is something to say.
abbrev pub is_said : RouteReason → Bool
is_said (tag_overlap n) = ltb 0 n
is_said (desc_match n) = ltb 0 n
is_said (name_match n) = ltb 0 n
is_said (summary_match n) = ltb 0 n
is_said (recency_boost r) = ltb 0 r
is_said (staleness_penalty current) = false
is_said (staleness_penalty _) = true
is_said (fullness_penalty pct) = leb 7500 pct
is_said (status_penalty active) = false
is_said (status_penalty _) = true

-- A part of the score that is a reason, if there is something to say.
pub record Says (worth other : RouteReason → ℕ) (p : Part) (r : RouteReason) : Type 0 where
  pub reasons : p.reasons ≡ (if is_said r then r ∷ [] else [])
  pub amount : p.amount ≡ (if is_said r then worth r else 0)
  pub nothing_else : other r ≡ 0

module _ (worth other : RouteReason → ℕ) where
  abbrev pub SayAll : List Part → List RouteReason → Type 0
  SayAll [] [] = Unit
  SayAll [] (r ∷ rs) = ⊥
  SayAll (p ∷ ps) [] = ⊥
  SayAll (p ∷ ps) (r ∷ rs) = Says worth other p r × SayAll ps rs

  all_reasons-filter :
      (ps : List Part) (rs : List RouteReason) → SayAll ps rs → all_reasons ps ≡ filter is_said rs
  all_reasons-filter [] [] h = refl
  all_reasons-filter [] (r ∷ rs) h = absurd h
  all_reasons-filter (p ∷ ps) [] h = absurd h
  all_reasons-filter (p ∷ ps) (r ∷ rs) h =
      rw (h.0.reasons, all_reasons-filter ps rs h.1)
        (elim (Bool-cases (is_said r)) [ inl e ↦ rw e refl | inr e ↦ rw e refl ])

  total-sum_of :
      (ps : List Part) (rs : List RouteReason)
      → SayAll ps rs
      → (total ps ≡ sum_of worth (filter is_said rs)) × (sum_of other (filter is_said rs) ≡ 0)
  total-sum_of [] [] h = (refl, refl)
  total-sum_of [] (r ∷ rs) h = absurd h
  total-sum_of (p ∷ ps) [] h = absurd h
  total-sum_of (p ∷ ps) (r ∷ rs) h =
      let (worths, others) = total-sum_of ps rs h.1 in
      let none_left = h.0.nothing_else in
      rw h.0.amount (elim (Bool-cases (is_said r)) [
        | inl e ↦ rw e (omega (arith, worths), omega (arith, others, none_left))
        | inr e ↦ rw e (omega (arith, worths), others)
      ])

sum_of-append :
    (f : RouteReason → ℕ) (rs ss : List RouteReason)
    → sum_of f (rs ++ ss) ≡ sum_of f rs + sum_of f ss
sum_of-append f [] ss = omega arith
sum_of-append f (r ∷ rs) ss = omega (arith, sum_of-append f rs ss)

filter-append :
    (rs ss : List RouteReason) → filter is_said (rs ++ ss) ≡ filter is_said rs ++ filter is_said ss
filter-append [] ss = refl
filter-append (r ∷ rs) ss = elim (Bool-cases (is_said r)) [
  | inl e ↦ rw (e, filter-append rs ss) refl
  | inr e ↦ rw (e, filter-append rs ss) refl
]

pub accounted :
    (gs ls : List Part) (ms fs : List RouteReason)
    → SayAll credit debit gs ms
    → SayAll debit credit ls fs
    → total ls ≤ zero_score
    → let said = all_reasons gs ++ all_reasons ls in
      (said ≡ filter is_said (ms ++ fs))
      × (((zero_score + total gs) - total ls) + sum_of debit said
          ≡ 7 * ninety_days + sum_of credit said)
accounted gs ls ms fs good bad below =
    let (gained, unharmed) = total-sum_of credit debit gs ms good in
    let (lost, unhelped) = total-sum_of debit credit ls fs bad in
    rw (all_reasons-filter credit debit gs ms good, all_reasons-filter debit credit ls fs bad)
      (
        sym (filter-append ms fs),
        omega (
          arith,
          below,
          gained,
          unharmed,
          lost,
          unhelped,
          sum_of-append debit (filter is_said ms) (filter is_said fs),
          sum_of-append credit (filter is_said ms) (filter is_said fs),
        ),
      )
