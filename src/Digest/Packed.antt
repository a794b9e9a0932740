-- ===== src/Digest/Packed.antt =====
-- A digest is the packing of the events' lines into the budget, hinted events first.
use mathlib.Core.List.{Perm, perm_middle}
use mathlib.Core.List.Perm
use context_swarm_memory.Prelude.{
  ℕ, suc, ◌+◌, ◌-◌, ◌≡◌, refl, ap, subst, Bool, true, false, not, ◌||◌, Option, none, some,
  some_inj, List, [], ◌∷◌, ◌++◌, append-nil, map, map-append, if◌then◌else◌, filter, length,
  length-append, length-map, length-perm, ltb, nat_eq, arith, Bool-cases, inl, inr, Text, list_eq,
  nat_eq_inst, list_ord, nat_ord, Perm-of_eq, All, All_mono,
}
use context_swarm_memory.Selection.{pack_from, pack_to_budget, nat_score}
use context_swarm_memory.Selection.Packing.{IsPacking, pack_to_budget-IsPacking}
use context_swarm_memory.Selection.Ranking.{select-best}
use context_swarm_memory.Selection.Members.{filter-All-Memᴰ}
use context_swarm_memory.Terms.{term_set}
use context_swarm_memory.Digest.{
  DigestEvent, SelectEventDigestOptions, EventDigestSelection, Salient, score_events,
  salience_options, by_salience, is_hinted, hinted_first, order_candidates, line_of, line_tokens,
  marker, done, digest_from, select_event_digest, digest_with,
}

-- The line that tells how many events are missing, if any is.
abbrev pub marks : ℕ → List Text
marks n = if nat_eq n 0 then [] else marker n ∷ []

abbrev id_of : DigestEvent → Text
id_of e = e.event_id

module _ (opts : SelectEventDigestOptions) (q_terms : List Text) where
  -- The digest of the events that are packed, of so many.
  abbrev pub packed_digest : ℕ → List DigestEvent → ℕ → EventDigestSelection
  packed_digest total packed used =
      done (map (line_of opts q_terms) packed ++ marks (total - length packed)) (map id_of packed)
        used (total - length packed)

  abbrev packed_from : List DigestEvent → ℕ → List DigestEvent → List DigestEvent × ℕ
  packed_from = pack_from (line_tokens opts q_terms) opts.max_tokens

  digest_from-packed :
      (total : ℕ) (packed : List DigestEvent) (used : ℕ) (es : List DigestEvent)
      → total ≡ length packed + length es
      → digest_from opts q_terms total
          (map (line_of opts q_terms) packed)
          (map id_of packed)
          used
          es
        ≡ packed_digest total (packed_from packed used es).0 (packed_from packed used es).1
  unfolding digest_from pack_from
  digest_from-packed total packed used [] h =
      let nothing : total - length packed ≡ 0 = omega (arith, h) in
      rw (nothing, append-nil (map (line_of opts q_terms) packed)) refl
  digest_from-packed total packed used (e ∷ es) h =
      let fits = ltb opts.max_tokens (used + line_tokens opts q_terms e) in
      elim (Bool-cases fits) [
        | inl q ↦
            let some_left : nat_eq (total - length packed) 0 ≡ false = ground (arith, h) in
            rw (q, length-map (line_of opts q_terms) packed, some_left) refl
        | inr q ↦
            rw
              (
                q,
                ← map-append (line_of opts q_terms) packed (e ∷ []),
                ← map-append id_of packed (e ∷ []),
              )
              (digest_from-packed total (packed ++ e ∷ []) (used + line_tokens opts q_terms e) es
                (omega (arith, h, length-append packed (e ∷ []))))
      ]

-- Under a hint, the events that it names stand in front of the others.
abbrev pub HintLeads : Option (List Text) → List DigestEvent → Type 0
HintLeads none events = Unit
HintLeads (some hint) events =
    (front : List DigestEvent) × (back : List DigestEvent) × (events ≡ front ++ back)
    × All (λ e. is_hinted hint e ≡ true) front
    × All (λ e. is_hinted hint e ≡ false) back

filter-split :
    {A : Type 0} (p : A → Bool) (xs : List A) → Perm (filter p xs ++ filter (λ x. not (p x)) xs) xs
filter-split p [] = Perm.refl []
filter-split p (x ∷ xs) = elim (Bool-cases (p x)) [
  | inl e ↦ rw e (Perm.cons x (filter-split p xs))
  | inr e ↦ rw e (
      Perm.trans (perm_middle (filter p xs) (filter (λ y. not (p y)) xs))
        (Perm.cons x (filter-split p xs)))
]

unhinted :
    (hint : List Text) (xs : List DigestEvent)
    → All (λ e. is_hinted hint e ≡ false) (filter (λ e. not (is_hinted hint e)) xs)
unhinted hint xs =
    All_mono _ _ _ (λ e h. ground (arith, h.1)) (filter-All-Memᴰ (λ e. not (is_hinted hint e)) xs)

all_unhinted : (xs : List DigestEvent) → All (λ e. is_hinted [] e ≡ false) xs
all_unhinted [] = tt
all_unhinted (x ∷ xs) = (refl, all_unhinted xs)

hinted_first-perm :
    (hint : Option (List Text)) (xs : List DigestEvent) → Perm (hinted_first hint xs) xs
hinted_first-perm none xs = Perm.refl xs
hinted_first-perm (some []) xs = Perm.refl xs
hinted_first-perm (some (h ∷ hint)) xs = filter-split (is_hinted (h ∷ hint)) xs

hinted_first-leads :
    (hint : Option (List Text)) (xs : List DigestEvent) → HintLeads hint (hinted_first hint xs)
hinted_first-leads none xs = tt
hinted_first-leads (some []) xs = ([], xs, refl, tt, all_unhinted xs)
hinted_first-leads (some (h ∷ hint)) xs = (
  filter (is_hinted (h ∷ hint)) xs,
  filter (λ e. not (is_hinted (h ∷ hint) e)) xs,
  refl,
  All_mono _ _ _ (λ e k. k.1) (filter-All-Memᴰ (is_hinted (h ∷ hint)) xs),
  unhinted (h ∷ hint) xs,
)

map-score_events :
    (q_terms : List Text) (i : ℕ) (es : List DigestEvent)
    → map (λ (x : Salient). x.event) (score_events q_terms i es) ≡ es
unfolding score_events
map-score_events q_terms i [] = refl
map-score_events q_terms i (e ∷ es) = ap (λ l. e ∷ l) (map-score_events q_terms (suc i) es)

-- A list that is as long as its extension has nothing behind it.
no_rest :
    {A : Type 0} (xs rest ys : List A) → Perm (xs ++ rest) ys → length xs ≡ length ys → Perm xs ys
no_rest xs [] ys p h = subst (λ l. Perm l ys) (append-nil xs) p
no_rest xs (r ∷ rest) ys p h = absurd (omega (arith, length-perm p, length-append xs (r ∷ rest), h))

by_salience-perm : (es : List DigestEvent) (q_terms : List Text) → Perm (by_salience es q_terms) es
unfolding by_salience salience_options
by_salience-perm es q_terms =
    let items = score_events q_terms 0 es in
    let c = select-best items (salience_options (length es)) in
    let same = ap length (map-score_events q_terms 0 es) in
    Perm.trans
      (Perm.map (λ (x : Salient). x.event)
        (no_rest _ c.rest items c.split
          (omega (arith, c.size, same, length-map (λ (x : Salient). x.event) items))))
      (Perm-of_eq (map-score_events q_terms 0 es))

order_candidates-perm :
    (events : List DigestEvent) (opts : SelectEventDigestOptions) (q_terms : List Text)
    → Perm (order_candidates events opts q_terms) events
unfolding order_candidates
order_candidates-perm events opts q_terms = elim (Bool-cases opts.reorder_by_salience) [
  | inl e ↦ rw e (
      Perm.trans (hinted_first-perm opts.hint (by_salience events q_terms))
        (by_salience-perm events q_terms))
  | inr e ↦ rw e (hinted_first-perm opts.hint events)
]

-- A digest: its candidates are the events in some order, those of the hint first; what it packs is the
-- longest run of them from the first whose lines fit the budget; and its text, its ids and its counts
-- are those of what is packed.
pub record IsDigest (events : List DigestEvent) (opts : SelectEventDigestOptions)
    (s : EventDigestSelection) : Type 0 where
  pub q_terms : List Text
  pub candidates : List DigestEvent
  pub same : Perm candidates events
  pub hint_leads : HintLeads opts.hint candidates
  pub packed : List DigestEvent
  pub packing : IsPacking (line_tokens opts q_terms) opts.max_tokens candidates packed s.used_tokens
  pub content : s ≡ packed_digest opts q_terms (length candidates) packed s.used_tokens

module _ (events : List DigestEvent) (opts : SelectEventDigestOptions) where
  made-IsDigest :
      (q_terms : List Text)
      → let candidates = order_candidates events opts q_terms in
        IsDigest events opts (digest_from opts q_terms (length candidates) [] [] 0 candidates)
  unfolding order_candidates pack_to_budget
  made-IsDigest q_terms =
      let candidates = order_candidates events opts q_terms in
      let e = digest_from-packed opts q_terms (length candidates) [] 0 candidates (omega arith) in
      let (packing, counts, whole) =
        pack_to_budget-IsPacking (line_tokens opts q_terms) opts.max_tokens candidates in
      rw e (record {
        q_terms = q_terms;
        candidates = candidates;
        same = order_candidates-perm events opts q_terms;
        hint_leads = hinted_first-leads opts.hint _;
        packed = (packed_from opts q_terms [] 0 candidates).0;
        packing = packing;
        content = refl;
      })

  with_query-IsDigest :
      (o : Option Text) {s : EventDigestSelection}
      → digest_with events opts o ≡ some s
      → IsDigest events opts s
  unfolding digest_with
  with_query-IsDigest none h = cc
  with_query-IsDigest (some query) h =
      subst (IsDigest events opts) (some_inj h) (made-IsDigest (term_set query))

  -- Every digest that is made packs the lines of the events, those of the hint first, as far as the
  -- budget goes: a longest prefix of them, whose tokens it counts, with a last line that tells how many
  -- events are missing exactly if any is.
  pub select_event_digest-IsDigest :
      (s : EventDigestSelection) → select_event_digest events opts ≡ some s → IsDigest events opts s
  unfolding select_event_digest digest_with
  select_event_digest-IsDigest s h =
      elim (Bool-cases (opts.reorder_by_salience || opts.salient_truncation)) [
        | inl e ↦ with_query-IsDigest opts.query (rw e at h)
        | inr e ↦ subst (IsDigest events opts) (some_inj (rw e at h)) (made-IsDigest [])
      ]
