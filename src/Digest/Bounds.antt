-- ===== src/Digest/Bounds.antt =====
-- The part of an event's content that a digest shows stays within its cap.
use context_swarm_memory.Prelude.{
  ℕ, ◌≤◌, ◌≡◌, refl, ◌↔◌, Bool, true, false, none, List, [], if◌then◌else◌, Bool-cases, inl, inr,
  Text, length, leb, leb→le, Option-cases, nat_eq, ◌||◌,
}
use context_swarm_memory.Prelude.Sort.{sort_by}
use context_swarm_memory.Selection.{or_else}
use context_swarm_memory.Truncate.{truncate, truncate_lem}
use context_swarm_memory.Digest.Salience.{
  Fragment, fragments, score_fragments, keep_fragments, scores_before, joined,
  salient_within_budget,
}
use context_swarm_memory.Digest.{
  DigestEvent, SelectEventDigestOptions, body_of, select_event_digest, digest_with,
}

-- One text if it is short enough, and else a text that is.
capped-le : (s t : Text) (n : ℕ) → length t ≤ n → length (if leb (length s) n then s else t) ≤ n
capped-le s t n h = elim (Bool-cases (leb (length s) n)) [
  | inl e ↦ rw e (leb→le (length s) n e)
  | inr e ↦ rw e h
]

either-le :
    (b : Bool) (s t : Text) (n : ℕ) → length s ≤ n → length t ≤ n → length (if b then s else t) ≤ n
either-le true s t n h k = h
either-le false s t n h k = k

module _ (max_chars : ℕ) (h : 1 ≤ max_chars) where
  joined-le :
      (keep : List ℕ) (scored : List Fragment) → length (joined max_chars keep scored) ≤ max_chars
  unfolding joined
  joined-le keep scored = capped-le _ _ max_chars (truncate_lem _ max_chars h).0

  salient_within_budget-le :
      (content : Text) (q_terms : List Text)
      → length (salient_within_budget content max_chars q_terms) ≤ max_chars
  unfolding salient_within_budget
  salient_within_budget-le content q_terms =
      let frags = fragments content in
      let scored = score_fragments q_terms 0 frags in
      let keep = keep_fragments max_chars [] 0 (sort_by scores_before scored) in
      let cut = (truncate_lem content max_chars h).0 in
      capped-le content _ max_chars (
        either-le (leb (length frags) 1) (truncate content max_chars)
          (if nat_eq (length keep) 0
            then truncate content max_chars
            else joined max_chars keep scored)
          max_chars cut
          (either-le (nat_eq (length keep) 0) (truncate content max_chars)
            (joined max_chars keep scored) max_chars cut (joined-le keep scored)))

-- With a cap of at least one unit, what a digest shows of an event's content is within the cap, with
-- and without salient truncation; the cap is 480 units if none is given.
pub body_of-le :
    (opts : SelectEventDigestOptions) (q_terms : List Text) (e : DigestEvent)
    → 1 ≤ or_else opts.per_event_chars 480
    → length (body_of opts q_terms e) ≤ or_else opts.per_event_chars 480
unfolding body_of
body_of-le opts q_terms e h =
    either-le opts.salient_truncation _ _ (or_else opts.per_event_chars 480)
      (salient_within_budget-le (or_else opts.per_event_chars 480) h e.content q_terms)
      (truncate_lem e.content (or_else opts.per_event_chars 480) h).0

-- No digest is made exactly if a salience lever is set and no query is given.
select_event_digest-none :
    (events : List DigestEvent) (opts : SelectEventDigestOptions)
    → (select_event_digest events opts ≡ none)
      ↔ (((opts.reorder_by_salience || opts.salient_truncation) ≡ true) × (opts.query ≡ none))
unfolding select_event_digest digest_with
select_event_digest-none events opts =
    elim (Bool-cases (opts.reorder_by_salience || opts.salient_truncation)) [
      | inl e ↦ rw e (elim (Option-cases opts.query) [
        | inl n ↦ rw n (λ h. (refl, refl), λ h. refl)
        | inr (q, n) ↦ rw n (λ h. cc, λ h. cc (h.1))
      ])
      | inr e ↦ rw e (λ h. cc, λ h. cc (h.0))
    ]
