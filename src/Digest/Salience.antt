-- ===== src/Digest/Salience.antt =====
-- Which fragments of a long text are kept: `salientWithinBudget`, with its patterns read unit by unit.
use context_swarm_memory.Prelude.{
  ℕ, suc, ◌+◌, ◌*◌, Bool, true, false, not, ◌&&◌, ◌||◌, List, [], ◌∷◌, ◌++◌, map, if◌then◌else◌,
  any, filter, length, ltb, leb, nat_eq, Text, text, to_lower, is_space, trim, join, ◌==◌, list_eq,
  nat_eq_inst,
}
use context_swarm_memory.Prelude.Sort.{sort_by}
use context_swarm_memory.Ids.{is_digit}
use context_swarm_memory.Terms.{tokenize, starts_with}
use context_swarm_memory.Truncate.{truncate}

-- `\w`
unfoldable pub is_word : ℕ → Bool
unfolding is_digit
is_word c = is_digit c || leb b'a' c && leb c b'z' || leb b'A' c && leb c b'Z' || nat_eq c b'_'

-- A pattern is tried at every place; it is told whether a word unit stands before the place.
abbrev Pattern : Type 0
Pattern = Bool → Text → Bool

unfoldable pub found_from : Pattern → Bool → Text → Bool
unfolding is_word
found_from pattern after_word [] = pattern after_word []
found_from pattern after_word (c ∷ s) =
    pattern after_word (c ∷ s) || found_from pattern (is_word c) s

abbrev found : Pattern → Text → Bool
found pattern s = found_from pattern false s

abbrev ends_word : Text → Bool
ends_word [] = true
ends_word (c ∷ s) = not (is_word c)

-- `\bword` and `\bword\b`, for a word in small letters in a text in small letters.
abbrev word_start : Text → Pattern
word_start word after_word s = not after_word && starts_with s word

unfoldable pub rest_after : Text → Text → Text
rest_after [] s = s
rest_after (p ∷ ps) [] = []
rest_after (p ∷ ps) (c ∷ s) = rest_after ps s

abbrev whole_word : Text → Pattern
whole_word word after_word s = word_start word after_word s && ends_word (rest_after word s)

-- The text behind the digits that it starts with.
unfoldable pub after_digits : Text → Text
after_digits [] = []
after_digits (c ∷ s) = if is_digit c then after_digits s else c ∷ s

abbrev starts_with_digit : Text → Bool
starts_with_digit [] = false
starts_with_digit (c ∷ s) = is_digit c

abbrev after_space : Text → Text
after_space [] = []
after_space (c ∷ s) = if is_space c then s else c ∷ s

-- `\$\s?\d`
abbrev price : Pattern
price after_word [] = false
price after_word (c ∷ s) = nat_eq c b'$' && starts_with_digit (after_space s)

-- `\b\d+\s?%`
abbrev percentage : Pattern
percentage after_word s =
    not after_word && starts_with_digit s && starts_with (after_space (after_digits s)) (text "%")

-- `\[e\d+\]`, in a text in small letters.
abbrev event_ref : Pattern
event_ref after_word s =
    let digits = rest_after (text "[e") s in
    starts_with s (text "[e")
    && starts_with_digit digits
    && starts_with (after_digits digits) (text "]")

-- `\bS\d{3}\b`
abbrev snapshot_ref : Pattern
snapshot_ref after_word (c ∷ d ∷ e ∷ f ∷ s) =
    not after_word && nat_eq c b'S' && is_digit d && is_digit e && is_digit f && ends_word s
snapshot_ref after_word _ = false

abbrev digit_here : Pattern
digit_here after_word s = starts_with_digit s

-- The patterns of `HIGH_SIGNAL`, in a text in small letters.
abbrev pub high_signal : List Pattern
high_signal =
    word_start (text "decid")
    ∷ word_start (text "approv")
    ∷ word_start (text "launch")
    ∷ word_start (text "block")
    ∷ whole_word (text "deadline")
    ∷ word_start (text "price")
    ∷ word_start (text "reject")
    ∷ (λ aw s.
        whole_word (text "deny") aw s
        || whole_word (text "denied") aw s
        || whole_word (text "denies") aw s)
    ∷ whole_word (text "chose")
    ∷ word_start (text "select")
    ∷ word_start (text "migrat")
    ∷ whole_word (text "version")
    ∷ price
    ∷ percentage
    ∷ []

-- How many of the terms of a query are among the given terms; the query's terms are a set.
unfoldable pub hits : List Text → List Text → ℕ
hits [] terms = 0
hits (q ∷ qs) terms = (if any (λ t. t == q) terms then 1 else 0) + hits qs terms

unfoldable pub matches : List Pattern → Text → ℕ
unfolding found_from rest_after after_digits starts_with
matches [] s = 0
matches (p ∷ ps) s = (if found p s then 1 else 0) + matches ps s

-- `fragmentScore`, in halves.
unfoldable pub fragment_score : Text → List Text → ℕ
unfolding hits matches tokenize to_lower found_from
fragment_score frag q_terms =
    let low = to_lower frag in
    if found event_ref low || found snapshot_ref frag
    then 2000000
    else 4 * hits q_terms (tokenize frag)
      + 2 * matches high_signal low
      + (if found digit_here frag then 1 else 0)

-- Where `split(/(?<=[.!?])\s+|\n+/)` stands: in a fragment, whose last unit was a stop or not, in the
-- white space behind a stop, or in line ends.
pub data Place : Type 0 where
  in_fragment : (after_stop : Bool) → Place
  in_space in_line_ends : Place

abbrev is_stop : ℕ → Bool
is_stop c = nat_eq c b'.' || nat_eq c b'!' || nat_eq c b'?'

-- `frag` is the fragment that is being read.
unfoldable pub fragments_from : Place → Text → Text → List Text
fragments_from place frag [] = frag ∷ []
fragments_from (in_fragment stop) frag (c ∷ s) =
    let space = fragments_from in_space [] s in
    let lines = fragments_from in_line_ends [] s in
    let more = fragments_from (in_fragment (is_stop c)) (frag ++ c ∷ []) s in
    if stop && is_space c then frag ∷ space else if nat_eq c 10 then frag ∷ lines else more
fragments_from in_space frag (c ∷ s) =
    let space = fragments_from in_space frag s in
    let more = fragments_from (in_fragment (is_stop c)) (frag ++ c ∷ []) s in
    if is_space c then space else more
fragments_from in_line_ends frag (c ∷ s) =
    let lines = fragments_from in_line_ends frag s in
    let more = fragments_from (in_fragment (is_stop c)) (frag ++ c ∷ []) s in
    if nat_eq c 10 then lines else more

unfoldable pub fragments : Text → List Text
unfolding fragments_from trim
fragments s = filter (λ f. ltb 0 (length (trim f))) (fragments_from (in_fragment false) [] s)

pub record Fragment : Type 0 where
  pub s : Text
  pub i : ℕ
  pub score : ℕ

unfoldable pub score_fragments : List Text → ℕ → List Text → List Fragment
unfolding fragment_score
score_fragments q_terms i [] = []
score_fragments q_terms i (f ∷ fs) =
    record { s = f; i = i; score = fragment_score f q_terms } ∷ score_fragments q_terms (suc i) fs

abbrev pub scores_before : Fragment → Fragment → Bool
scores_before a b =
    if ltb b.score a.score then true else if ltb a.score b.score then false else ltb a.i b.i

-- The indices that are kept, with `used`.
unfoldable pub keep_fragments : ℕ → List ℕ → ℕ → List Fragment → List ℕ
keep_fragments max_chars keep used [] = keep
keep_fragments max_chars keep used (f ∷ fs) =
    let cost = length f.s + 1 in
    let skipped = keep_fragments max_chars keep used fs in
    let kept = keep_fragments max_chars (keep ++ f.i ∷ []) (used + cost) fs in
    if ltb max_chars (used + cost) then skipped else kept

unfoldable pub joined : ℕ → List ℕ → List Fragment → Text
unfolding join truncate
joined max_chars keep scored =
    let kept = filter (λ (f : Fragment). any (nat_eq f.i) keep) scored in
    let out = join (text " ") (map (λ (f : Fragment). f.s) kept) in
    if leb (length out) max_chars then out else truncate out max_chars

unfoldable pub salient_within_budget : Text → ℕ → List Text → Text
unfolding fragments score_fragments keep_fragments joined sort_by truncate
salient_within_budget content max_chars q_terms =
    let frags = fragments content in
    let scored = score_fragments q_terms 0 frags in
    let keep = keep_fragments max_chars [] 0 (sort_by scores_before scored) in
    if leb (length content) max_chars
    then content
    else if leb (length frags) 1
    then truncate content max_chars
    else if nat_eq (length keep) 0
    then truncate content max_chars
    else joined max_chars keep scored
