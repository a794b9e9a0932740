-- ===== src/Router/Exact.antt =====
-- The score of an entry is what its reasons say.
use context_swarm_memory.Prelude.{
  ℕ, ◌+◌, ◌-◌, ◌*◌, ◌≤◌, ◌≡◌, refl, true, Option, none, some, Text, List, [], ◌∷◌, ◌++◌, map,
  filter, length, ltb, leb, to_lower, arith, Bool-cases, inl, inr,
}
use context_swarm_memory.Memory.{
  MemoryDirectoryEntry, ShardStatus, Staleness, active, frozen, archived, deleted, current,
  possibly_stale, stale,
}
use context_swarm_memory.Terms.{term_matches_any_tag, term_set}
use context_swarm_memory.Router.{
  one, zero_score, RouteReason, tag_overlap, desc_match, name_match, summary_match, recency_boost,
  staleness_penalty, fullness_penalty, status_penalty, count_matches, recency, match_part,
  recency_part, total, gains, losses, staleness_part, fullness_part, status_part,
  score_entry_lexical,
}
use context_swarm_memory.Router.Reasons.{
  ninety_days, credit, debit, sum_of, is_said, Says, SayAll, accounted,
}

staleness_part-le : (s : Staleness) → (staleness_part s).amount ≤ one
unfolding staleness_part
staleness_part-le current = omega arith
staleness_part-le possibly_stale = omega arith
staleness_part-le stale = omega arith

fullness_part-le : (pct : ℕ) → (fullness_part pct).amount ≤ one
unfolding fullness_part
fullness_part-le pct = ground arith

status_part-le : (s : ShardStatus) → (status_part s).amount ≤ 5 * one
unfolding status_part
status_part-le active = omega arith
status_part-le frozen = omega arith
status_part-le archived = omega arith
status_part-le deleted = omega arith

-- How many of the terms of the query match one of the given terms.
abbrev pub matched : List Text → List Text → ℕ
matched query_terms terms = length (filter (λ q. term_matches_any_tag q terms) query_terms)

count_matches-matched :
    (query_terms terms : List Text) → count_matches query_terms terms ≡ matched query_terms terms
unfolding count_matches
count_matches-matched [] terms = refl
count_matches-matched (q ∷ qs) terms = elim (Bool-cases (term_matches_any_tag q terms)) [
  | inl e ↦ rw e (omega (arith, count_matches-matched qs terms))
  | inr e ↦ rw e (omega (arith, count_matches-matched qs terms))
]

-- The milliseconds that are left of the ninety days behind an update.
abbrev pub days_left : Option ℕ → ℕ → ℕ
days_left none ref = 0
days_left (some updated) ref = (updated + ninety_days) - ref

recency-days_left : (updated : Option ℕ) (ref : ℕ) → recency updated ref ≡ days_left updated ref
unfolding recency
recency-days_left none ref = refl
recency-days_left (some updated) ref = omega arith

staleness_part-Says : (s : Staleness) → Says debit credit (staleness_part s) (staleness_penalty s)
unfolding staleness_part
staleness_part-Says current = record { reasons = refl; amount = refl; nothing_else = refl }
staleness_part-Says possibly_stale = record { reasons = refl; amount = refl; nothing_else = refl }
staleness_part-Says stale = record { reasons = refl; amount = refl; nothing_else = refl }

status_part-Says : (s : ShardStatus) → Says debit credit (status_part s) (status_penalty s)
unfolding status_part
status_part-Says active = record { reasons = refl; amount = refl; nothing_else = refl }
status_part-Says frozen = record { reasons = refl; amount = refl; nothing_else = refl }
status_part-Says archived = record { reasons = refl; amount = refl; nothing_else = refl }
status_part-Says deleted = record { reasons = refl; amount = refl; nothing_else = refl }

fullness_part-Says : (pct : ℕ) → Says debit credit (fullness_part pct) (fullness_penalty pct)
unfolding fullness_part
fullness_part-Says pct = elim (Bool-cases (leb 8500 pct)) [
  | inl e ↦
      let also : leb 7500 pct ≡ true = ground (arith, e) in
      record { reasons = rw (e, also) refl; amount = rw (e, also) refl; nothing_else = refl }
  | inr e ↦ elim (Bool-cases (leb 7500 pct)) [
    | inl f ↦ record { reasons = rw (e, f) refl; amount = rw (e, f) refl; nothing_else = refl }
    | inr f ↦ record { reasons = rw (e, f) refl; amount = rw (e, f) refl; nothing_else = refl }
  ]
]

counted-Says :
    (why : ℕ → RouteReason) (weight n : ℕ)
    → is_said (why n) ≡ ltb 0 n
    → credit (why n) ≡ n * weight
    → debit (why n) ≡ 0
    → Says credit debit (match_part why weight n) (why n)
counted-Says why weight n said worth free = elim (Bool-cases (ltb 0 n)) [
  | inl e ↦ record {
    reasons = rw (said, e) refl;
    amount = rw (said, e, worth) refl;
    nothing_else = free;
  }
  | inr e ↦ record { reasons = rw (said, e) refl; amount = rw (said, e) refl; nothing_else = free }
]

recency_part-Says : (r : ℕ) → Says credit debit (recency_part r) (recency_boost r)
recency_part-Says r = elim (Bool-cases (ltb 0 r)) [
  | inl e ↦ record { reasons = rw e refl; amount = rw e refl; nothing_else = refl }
  | inr e ↦ record { reasons = rw e refl; amount = rw e refl; nothing_else = refl }
]

module _ (date_parse : Text → Option ℕ) (query_terms : List Text) (entry : MemoryDirectoryEntry)
    (ref : ℕ) where
  -- What can be said for the entry, and what against it.
  abbrev pub merits : List RouteReason
  merits =
      tag_overlap (matched query_terms (map to_lower entry.tags))
      ∷ desc_match (matched query_terms (term_set entry.description))
      ∷ name_match (matched query_terms (term_set entry.name))
      ∷ summary_match (matched query_terms (term_set entry.summary_short))
      ∷ recency_boost (days_left (date_parse entry.updated_at) ref)
      ∷ []

  abbrev pub faults : List RouteReason
  faults =
      staleness_penalty entry.staleness
      ∷ fullness_penalty entry.fullness_pct
      ∷ status_penalty entry.status
      ∷ []

  gains-SayAll : SayAll credit debit (gains date_parse query_terms entry ref) merits
  unfolding gains
  gains-SayAll =
      rw
        (
          ← count_matches-matched query_terms (map to_lower entry.tags),
          ← count_matches-matched query_terms (term_set entry.description),
          ← count_matches-matched query_terms (term_set entry.name),
          ← count_matches-matched query_terms (term_set entry.summary_short),
          ← recency-days_left (date_parse entry.updated_at) ref,
        )
        (
          counted-Says tag_overlap _ _ refl refl refl,
          (
            counted-Says desc_match _ _ refl refl refl,
            (
              counted-Says name_match _ _ refl refl refl,
              (counted-Says summary_match _ _ refl refl refl, (recency_part-Says _, tt)),
            ),
          ),
        )

  losses-SayAll : SayAll debit credit (losses date_parse query_terms entry ref) faults
  unfolding losses
  losses-SayAll = (
    staleness_part-Says entry.staleness,
    (fullness_part-Says entry.fullness_pct, (status_part-Says entry.status, tt)),
  )

  losses-le : total (losses date_parse query_terms entry ref) ≤ zero_score
  unfolding losses
  losses-le = omega (
    arith,
    staleness_part-le entry.staleness,
    fullness_part-le entry.fullness_pct,
    status_part-le entry.status,
  )

  -- The reasons of a score are those of the eight, in their order, that have something to say: how many
  -- terms of the query match one of the tags, and of the terms of the description, of the name and of
  -- the summary; what is left of ninety days since the update; a staleness, a fullness of 75 percent or
  -- more, and a status that is not active. And they account for the whole score, which is counted from
  -- -7.0 on: each matching term adds 2.0, 1.0, 1.5 or 0.75, ninety days add 1.0; possibly stale takes
  -- away 0.5 and stale 1.0, the fullness 0.5, or 1.0 from 85 percent on, frozen 0.25, and archived and
  -- deleted 5.0.
  pub score_entry_lexical_lem :
      let r = score_entry_lexical date_parse query_terms entry ref in
      (r.reasons ≡ filter is_said (merits ++ faults))
      × (r.amount + sum_of debit r.reasons ≡ 7 * ninety_days + sum_of credit r.reasons)
  unfolding score_entry_lexical
  score_entry_lexical_lem =
      accounted (gains date_parse query_terms entry ref) (losses date_parse query_terms entry ref)
        merits faults gains-SayAll losses-SayAll losses-le
