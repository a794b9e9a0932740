-- ===== src/Selection.antt =====
-- src/core/selection.ts: choosing the best of a list, packing into a budget, removing duplicates.
-- A score is any type with a strict total order and a zero (the program's finite numbers), a key any
-- type with a strict total order (the program's texts).
mod Order
pub mod Ranking
pub mod Members
pub mod Packing
pub mod Dedupe
mod Tests
use context_swarm_memory.Prelude.{
  ℕ, zero, suc, ◌+◌, ◌-◌, min, Bool, true, false, not, Option, none, some, List, [], ◌∷◌, ◌++◌, map,
  ltb, nat_eq, if◌then◌else◌, length, take, ◌&&◌, ◌||◌, filter, any, Eq, ◌==◌, Ord, nat_ord,
}
use context_swarm_memory.Prelude.Sort.{sort_by}

pub data TieBreak : Type 0 where
  stable key_asc key_desc : TieBreak

pub data DegenerateReason : Type 0 where
  no_candidates no_signal ties_at_cut : DegenerateReason

-- Numbers that scores are compared as.
pub record Score (S : Type 0) : Type 0 where
  pub ord : Ord S
  pub open ord use *
  pub nought : S

-- Scores that are counts.
instance abbrev pub nat_score : Score ℕ
nat_score = record { ord = nat_ord; nought = 0 }

pub record SelectOptions (T S K : Type 0) : Type 0 where
  pub score : T → S
  pub key : T → K
  pub limit : ℕ
  pub signal_floor : Option S
  pub tie_break : Option TieBreak

-- A quotient of two counts, kept as its two parts.
pub record Ratio : Type 0 where
  pub part : ℕ
  pub whole : ℕ

pub record SelectionResult (T : Type 0) : Type 0 where
  pub selected : List T
  pub discriminated : Bool
  pub degenerate_reason : Option DegenerateReason
  pub signal_ratio : Ratio
  pub total_candidates : ℕ
  pub dropped : ℕ

-- `x ?? y`
abbrev pub or_else {ℓ} : {A : Type ℓ} → Option A → A → A
or_else none d = d
or_else (some a) d = a

pub record Scored (T S K : Type 0) : Type 0 where
  pub item : T
  pub index : ℕ
  pub s : S
  pub k : K

module _ {T S K : Type 0} where
  unfoldable pub score_items : (T → S) → (T → K) → ℕ → List T → List (Scored T S K)
  score_items score key i [] = []
  score_items score key i (x ∷ xs) =
      record { item = x; index = i; s = score x; k = key x } ∷ score_items score key (suc i) xs

unfoldable pub nothing_selected : {T : Type 0} → ℕ → SelectionResult T
nothing_selected total = record {
  selected = [];
  discriminated = false;
  degenerate_reason = some no_candidates;
  signal_ratio = record { part = 0; whole = 1 };
  total_candidates = total;
  dropped = total;
}

unfoldable pub degeneracy : ℕ → Bool → Option DegenerateReason
degeneracy with_signal tied =
    if nat_eq with_signal 0 then some no_signal else if tied then some ties_at_cut else none

unfoldable pub is_none : Option DegenerateReason → Bool
is_none none = true
is_none (some r) = false

module _ {S : Type 0} ⦃sc : Score S⦄ where
  unfoldable pub same_score : S → S → Bool
  same_score a b = not (sc.lt a b) && not (sc.lt b a)

module _ {T S K : Type 0} ⦃sc : Score S⦄ ⦃ko : Ord K⦄ where
  unfoldable pub tie_before : TieBreak → Scored T S K → Scored T S K → Bool
  tie_before stable a b = ltb a.index b.index
  tie_before key_asc a b = ko.lt a.k b.k
  tie_before key_desc a b = ko.lt b.k a.k

  -- The comparator of `select`: descending scores, then the tie policy.
  unfoldable pub ranks_before : TieBreak → Scored T S K → Scored T S K → Bool
  unfolding tie_before
  ranks_before tie a b =
      if sc.lt b.s a.s then true else if sc.lt a.s b.s then false else tie_before tie a b

  unfoldable pub ranked : SelectOptions T S K → List T → List (Scored T S K)
  unfolding ranks_before sort_by score_items
  ranked opts items =
      sort_by (ranks_before (or_else opts.tie_break key_asc))
        (score_items opts.score opts.key 0 items)

  unfoldable pub has_signal : SelectOptions T S K → Scored T S K → Bool
  has_signal opts c = sc.lt (or_else opts.signal_floor sc.nought) c.s

  -- `scored[cut - 1]!.s === scored[cut]!.s`, for `cut` > 0.
  unfoldable pub tied_at : ℕ → List (Scored T S K) → Bool
  unfolding same_score
  tied_at (suc zero) (a ∷ b ∷ xs) = same_score a.s b.s
  tied_at (suc (suc n)) (a ∷ xs) = tied_at (suc n) xs
  tied_at _ _ = false

  -- The body of `select` after its first guard.
  unfoldable pub select_ranked : List T → SelectOptions T S K → SelectionResult T
  unfolding degeneracy is_none ranked has_signal tied_at
  select_ranked items opts =
      let total = length items in
      let scored = score_items opts.score opts.key 0 items in
      let with_signal = length (filter (has_signal opts) scored) in
      let order = ranked opts items in
      let cut = min opts.limit total in
      let selected = map (λ (c : Scored T S K). c.item) (take cut order) in
      let reason = degeneracy with_signal (tied_at cut order) in
      record {
        selected = selected;
        discriminated = is_none reason;
        degenerate_reason = reason;
        signal_ratio = record { part = with_signal; whole = total };
        total_candidates = total;
        dropped = total - length selected;
      }

  unfoldable pub select : List T → SelectOptions T S K → SelectionResult T
  unfolding nothing_selected select_ranked
  select items opts =
      if nat_eq (length items) 0 || nat_eq opts.limit 0
      then nothing_selected (length items)
      else select_ranked items opts

pub record PackResult (T : Type 0) : Type 0 where
  pub packed : List T
  pub used_budget : ℕ
  pub dropped : ℕ
  pub complete : Bool

module _ {T : Type 0} (cost : T → ℕ) (budget : ℕ) where
  -- The loop of `packToBudget` over what is left, with `packed` and `used`.
  unfoldable pub pack_from : List T → ℕ → List T → List T × ℕ
  pack_from packed used [] = (packed, used)
  pack_from packed used (item ∷ items) =
      let c = cost item in
      let more = pack_from (packed ++ item ∷ []) (used + c) items in
      if ltb budget (used + c) then (packed, used) else more

  unfoldable pub pack_to_budget : List T → PackResult T
  unfolding pack_from
  pack_to_budget items =
      let (packed, used) = pack_from [] 0 items in
      record {
        packed = packed;
        used_budget = used;
        dropped = length items - length packed;
        complete = nat_eq (length packed) (length items);
      }

module _ {T : Type 0} ⦃e : Eq T⦄ where
  -- The loop of `dedupeInOrder`, with `seen` and `out`.
  unfoldable pub dedupe_from : List T → List T → List T → List T
  dedupe_from seen out [] = out
  dedupe_from seen out (item ∷ items) =
      let again = dedupe_from seen out items in
      let fresh = dedupe_from (seen ++ item ∷ []) (out ++ item ∷ []) items in
      if any (λ x. x == item) seen then again else fresh

  unfoldable pub dedupe_in_order : List T → List T
  unfolding dedupe_from
  dedupe_in_order items = dedupe_from [] [] items
