-- ===== src/Terms.antt =====
-- src/core/router.ts: the terms of a text, and how they match tags.
pub mod Match
use context_swarm_memory.Prelude.{
  ℕ, zero, suc, Bool, true, false, not, ◌&&◌, ◌||◌, List, [], ◌∷◌, ◌++◌, if◌then◌else◌, any, filter,
  length, ltb, leb, nat_eq, Text, text, to_lower, ◌==◌, list_eq, nat_eq_inst,
}
use context_swarm_memory.Selection.{dedupe_in_order}

abbrev pub stopwords : List Text
stopwords =
    text "the"
    ∷ text "a"
    ∷ text "an"
    ∷ text "and"
    ∷ text "or"
    ∷ text "but"
    ∷ text "of"
    ∷ text "to"
    ∷ text "for"
    ∷ text "in"
    ∷ text "on"
    ∷ text "at"
    ∷ text "by"
    ∷ text "with"
    ∷ text "is"
    ∷ text "are"
    ∷ text "was"
    ∷ text "were"
    ∷ text "be"
    ∷ text "been"
    ∷ text "being"
    ∷ text "do"
    ∷ text "does"
    ∷ text "did"
    ∷ text "have"
    ∷ text "has"
    ∷ text "had"
    ∷ text "what"
    ∷ text "when"
    ∷ text "where"
    ∷ text "why"
    ∷ text "how"
    ∷ text "which"
    ∷ text "who"
    ∷ text "whom"
    ∷ text "this"
    ∷ text "that"
    ∷ text "these"
    ∷ text "those"
    ∷ text "i"
    ∷ text "we"
    ∷ text "you"
    ∷ text "they"
    ∷ text "it"
    ∷ text "as"
    ∷ text "if"
    ∷ text "then"
    ∷ text "else"
    ∷ text "from"
    ∷ text "into"
    ∷ text "about"
    ∷ text "us"
    ∷ text "our"
    ∷ text "your"
    ∷ text "their"
    ∷ text "my"
    ∷ text "me"
    ∷ text "him"
    ∷ text "her"
    ∷ text "them"
    ∷ text "did"
    ∷ text "will"
    ∷ text "would"
    ∷ text "could"
    ∷ text "should"
    ∷ text "shall"
    ∷ text "may"
    ∷ text "might"
    ∷ text "can"
    ∷ text "make"
    ∷ text "made"
    ∷ []

-- `[a-z0-9_]`
unfoldable pub is_term_unit : ℕ → Bool
is_term_unit c = leb b'a' c && leb c b'z' || leb b'0' c && leb c b'9' || nat_eq c b'_'

-- `split(/[^a-z0-9_]+/)`, without the empty pieces, which the filter behind it drops; `term` is the
-- piece that is being read.
abbrev pub add_term : Text → List Text → List Text
add_term [] ts = ts
add_term (c ∷ s) ts = (c ∷ s) ∷ ts

unfoldable pub split_terms : Text → Text → List Text
unfolding is_term_unit
split_terms term [] = add_term term []
split_terms term (c ∷ s) =
    let rest = split_terms (if is_term_unit c then term ++ c ∷ [] else []) s in
    if is_term_unit c then rest else add_term term rest

abbrev pub is_kept : Text → Bool
is_kept t = ltb 1 (length t) && not (any (λ w. w == t) stopwords)

unfoldable pub tokenize : Text → List Text
unfolding split_terms to_lower
tokenize s = filter is_kept (split_terms [] (to_lower s))

-- The terms of a text as a `Set`: the list of its elements.
abbrev pub term_set : Text → List Text
term_set s = dedupe_in_order (tokenize s)

unfoldable pub starts_with : Text → Text → Bool
starts_with s [] = true
starts_with [] (c ∷ p) = false
starts_with (d ∷ s) (c ∷ p) = nat_eq d c && starts_with s p

unfoldable pub prefix_match : Text → Text → Bool
unfolding starts_with
prefix_match a b =
    let shorter = if ltb (length a) (length b) then a else b in
    let longer = if ltb (length a) (length b) then b else a in
    if a == b then true else if ltb (length shorter) 4 then false else starts_with longer shorter

-- `tagSet.has(term)`, or a tag that matches.
unfoldable pub term_matches_any_tag : Text → List Text → Bool
unfolding prefix_match
term_matches_any_tag term tags =
    if any (λ tag. tag == term) tags then true else any (λ tag. prefix_match term tag) tags
