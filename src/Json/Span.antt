-- ===== src/Json/Span.antt =====
-- A balanced value is found behind prose and in front of anything.
use context_swarm_memory.Prelude.{
  ℕ, suc, ◌+◌, ◌-◌, ◌≡◌, refl, sym, ◌∙◌, ap, true, false, Bool, not, ◌&&◌, ◌||◌, Option, none, some,
  List, [], ◌∷◌, ◌++◌, append_assoc, if◌then◌else◌, take, length, length-append, nat_eq, Text, trim,
  All, arith,
}
use context_swarm_memory.Json.{
  Bracket, brace, square, open_of, close_of, bracket_at, match_from, match_balanced, sliced,
  span_at, find_first_json_span, fenced, parsed_fence, extract_json,
}

-- A unit of a string: one that stands for itself, or one behind a backslash.
pub data StringUnit : Type 0 where
  itself escaped : ℕ → StringUnit

-- What stands between two brackets: other units, strings, and the same brackets around more.
pub data Content : Type 0 where
  nothing : Content
  unit : ℕ → Content → Content
  string : List StringUnit → Content → Content
  nested : Content → Content → Content

abbrev pub string_text : List StringUnit → Text
string_text [] = []
string_text (itself c ∷ us) = c ∷ string_text us
string_text (escaped c ∷ us) = b'\\' ∷ c ∷ string_text us

abbrev pub is_plain_unit : StringUnit → Bool
is_plain_unit (itself c) = not (nat_eq c b'"') && not (nat_eq c b'\\')
is_plain_unit (escaped c) = true

match-open :
    (b : Bracket) (depth i : ℕ) (s : Text)
    → match_from b depth false false i (open_of b ∷ s)
      ≡ match_from b (suc depth) false false (suc i) s
unfolding match_from
match-open brace depth i s = refl
match-open square depth i s = refl

match-close :
    (b : Bracket) (depth i : ℕ) (s : Text)
    → match_from b (suc depth) false false i (close_of b ∷ s)
      ≡ (if nat_eq depth 0 then some i else match_from b depth false false (suc i) s)
unfolding match_from
match-close brace depth i s = let one_less : suc depth - 1 ≡ depth = omega arith in rw one_less refl
match-close square depth i s =
    let one_less : suc depth - 1 ≡ depth = omega arith in rw one_less refl

match-close_inner :
    (b : Bracket) (depth i : ℕ) (s : Text)
    → match_from b (suc (suc depth)) false false i (close_of b ∷ s)
      ≡ match_from b (suc depth) false false (suc i) s
match-close_inner b depth i s =
    let not_yet : nat_eq (suc depth) 0 ≡ false = ground arith in
    match-close b (suc depth) i s ∙ rw not_yet refl

module _ (b : Bracket) where
  abbrev pub content_text : Content → Text
  content_text nothing = []
  content_text (unit c k) = c ∷ content_text k
  content_text (string us k) = b'"' ∷ (string_text us ++ b'"' ∷ content_text k)
  content_text (nested k l) = open_of b ∷ (content_text k ++ close_of b ∷ content_text l)

  -- The units are what they pass for.
  abbrev pub IsContent : Content → Type 0
  IsContent nothing = Unit
  IsContent (unit c k) =
      ((nat_eq c b'"' || nat_eq c (open_of b) || nat_eq c (close_of b)) ≡ false) × IsContent k
  IsContent (string us k) = All (λ u. is_plain_unit u ≡ true) us × IsContent k
  IsContent (nested k l) = IsContent k × IsContent l

  abbrev pub enclosed : Content → Text
  enclosed k = open_of b ∷ (content_text k ++ close_of b ∷ [])

  -- The scan at another name of the same index.
  at_index :
      (depth : ℕ) (quoted : Bool) (s : Text) {i j : ℕ}
      → i ≡ j
      → match_from b depth quoted false i s ≡ match_from b depth quoted false j s
  at_index depth quoted s e = ap (λ n. match_from b depth quoted false n s) e

  match-string :
      (us : List StringUnit) (depth i : ℕ) (s : Text)
      → All (λ u. is_plain_unit u ≡ true) us
      → match_from b depth true false i (string_text us ++ s)
        ≡ match_from b depth true false (i + length (string_text us)) s
  unfolding match_from
  match-string [] depth i s h = at_index depth true s (omega arith)
  match-string (itself c ∷ us) depth i s h =
      let quote : nat_eq c b'"' ≡ false = ground (arith, h.0) in
      let slash : nat_eq c b'\\' ≡ false = ground (arith, h.0) in
      rw (slash, quote) (match-string us depth (suc i) s h.1 ∙ at_index depth true s (omega arith))
  match-string (escaped c ∷ us) depth i s h =
      match-string us depth (suc (suc i)) s h.1 ∙ at_index depth true s (omega arith)

  -- A string, from its first quote to its last.
  match-quoted :
      (us : List StringUnit) (depth i : ℕ) (s : Text)
      → All (λ u. is_plain_unit u ≡ true) us
      → match_from b depth false false i (b'"' ∷ (string_text us ++ b'"' ∷ s))
        ≡ match_from b depth false false (suc (suc (i + length (string_text us)))) s
  match-quoted us depth i s h =
      unfold match_from in
      (match-string us depth (suc i) (b'"' ∷ s) h ∙ at_index depth false s (omega arith))

  match-unit :
      (c depth i : ℕ) (s : Text)
      → (nat_eq c b'"' || nat_eq c (open_of b) || nat_eq c (close_of b)) ≡ false
      → match_from b depth false false i (c ∷ s) ≡ match_from b depth false false (suc i) s
  unfolding match_from
  match-unit c depth i s h = ground (arith, h)

  match-content :
      (k : Content) (depth i : ℕ) (s : Text)
      → IsContent k
      → match_from b (suc depth) false false i (content_text k ++ s)
        ≡ match_from b (suc depth) false false (i + length (content_text k)) s
  match-content nothing depth i s h = at_index (suc depth) false s (omega arith)
  match-content (unit c k) depth i s h =
      match-unit c (suc depth) i (content_text k ++ s) h.0
      ∙ match-content k depth (suc i) s h.1
      ∙ at_index (suc depth) false s (omega arith)
  match-content (string us k) depth i s h =
      rw (append_assoc (string_text us) (b'"' ∷ content_text k) s) (
        match-quoted us (suc depth) i (content_text k ++ s) h.0
        ∙ match-content k depth _ s h.1
        ∙ at_index (suc depth) false s
            (omega (arith, length-append (string_text us) (b'"' ∷ content_text k))))
  match-content (nested k l) depth i s h =
      rw (append_assoc (content_text k) (close_of b ∷ content_text l) s) (
        match-open b (suc depth) i (content_text k ++ close_of b ∷ (content_text l ++ s))
        ∙ match-content k (suc depth) (suc i) (close_of b ∷ (content_text l ++ s)) h.0
        ∙ match-close_inner b depth (suc i + length (content_text k)) (content_text l ++ s)
        ∙ match-content l depth (suc (suc i + length (content_text k))) s h.1
        ∙ at_index (suc depth) false s
            (omega (arith, length-append (content_text k) (close_of b ∷ content_text l))))

  enclosed-end :
      (k : Content) (tail : Text)
      → IsContent k
      → match_balanced b (open_of b ∷ (content_text k ++ close_of b ∷ tail))
        ≡ some (suc (length (content_text k)))
  unfolding match_balanced
  enclosed-end k tail h =
      match-open b 0 0 (content_text k ++ close_of b ∷ tail)
      ∙ match-content k 0 1 (close_of b ∷ tail) h
      ∙ match-close b 0 (1 + length (content_text k)) tail
      ∙ ap some (omega arith)

take_front : (xs ys : Text) → take (length xs) (xs ++ ys) ≡ xs
take_front [] ys = refl
take_front (x ∷ xs) ys = ap (λ l. x ∷ l) (take_front xs ys)

bracket_at-open : (b : Bracket) → bracket_at (open_of b) ≡ some b
bracket_at-open brace = refl
bracket_at-open square = refl

-- A unit of the prose opens nothing.
abbrev pub OpensNothing : ℕ → Type 0
OpensNothing c = bracket_at c ≡ none

enclosed-append :
    (b : Bracket) (k : Content) (tail : Text)
    → enclosed b k ++ tail ≡ open_of b ∷ (content_text b k ++ close_of b ∷ tail)
enclosed-append b k tail =
    ap (λ s. open_of b ∷ s) (append_assoc (content_text b k) (close_of b ∷ []) tail)

enclosed-length :
    (b : Bracket) (k : Content) → length (enclosed b k) ≡ suc (suc (length (content_text b k)))
enclosed-length b k = omega (arith, length-append (content_text b k) (close_of b ∷ []))

sliced-enclosed :
    (b : Bracket) (k : Content) (tail : Text)
    → sliced (enclosed b k ++ tail) (some (suc (length (content_text b k)))) ≡ some (enclosed b k)
sliced-enclosed b k tail =
    ap (λ n. some (take n (enclosed b k ++ tail))) (sym (enclosed-length b k))
    ∙ ap some (take_front (enclosed b k) tail)

span_at-enclosed :
    (b : Bracket) (k : Content) (tail : Text)
    → IsContent b k
    → span_at (enclosed b k ++ tail) (some b) ≡ some (enclosed b k)
span_at-enclosed b k tail h =
    let end : match_balanced b (enclosed b k ++ tail) ≡ some (suc (length (content_text b k))) =
      ap (match_balanced b) (enclosed-append b k tail) ∙ enclosed-end b k tail h in
    ap (sliced (enclosed b k ++ tail)) end ∙ sliced-enclosed b k tail

span_lem :
    (prose : Text) (b : Bracket) (k : Content) (tail : Text)
    → All OpensNothing prose
    → IsContent b k
    → find_first_json_span (prose ++ (enclosed b k ++ tail)) ≡ some (enclosed b k)
unfolding find_first_json_span
span_lem [] b k tail quiet h = rw (bracket_at-open b, span_at-enclosed b k tail h) refl
span_lem (c ∷ prose) b k tail quiet h = rw quiet.0 (span_lem prose b k tail quiet.1 h)

-- A trimmed answer that is no JSON as a whole and holds none in a fence, and that has prose without
-- an opening bracket in front of balanced brackets, is read as what the text of the brackets parses
-- to, if it parses, whatever follows it.
pub extract_json-enclosed :
    {J : Type 0} (parse : Text → Option J) (raw prose : Text) (b : Bracket) (k : Content)
    (tail : Text) (j : J)
    → trim raw ≡ prose ++ (enclosed b k ++ tail)
    → All OpensNothing prose
    → IsContent b k
    → parse (trim raw) ≡ none
    → parsed_fence parse (fenced (trim raw)) ≡ none
    → parse (enclosed b k) ≡ some j
    → extract_json parse raw ≡ some j
unfolding extract_json
extract_json-enclosed parse raw prose b k tail j split quiet h whole fence value =
    let found : find_first_json_span (trim raw) ≡ some (enclosed b k) =
      ap find_first_json_span split ∙ span_lem prose b k tail quiet h in
    rw (whole, fence, found) value
