-- ===== src/Args/Tests.antt =====
-- A command line with a key that is set twice.
use context_swarm_memory.Prelude.{
  ◌≡◌, refl, true, false, none, some, List, [], ◌∷◌, list_beq, nat_eq_inst, list_eq, text,
}
use context_swarm_memory.Terms.{starts_with}
use context_swarm_memory.Args.{text_value, parse_args, flag_string, string_of, flag_bool, bool_of}
use context_swarm_memory.Args.Words.{
  Piece, word, negated, joined, apart, alone, words, ArePieces, plain_words, said, IsReal,
  parse_args-words,
}

-- ask tea --top-k=3 --json --no-json --top-k 5 --dry
abbrev pieces : List Piece
pieces =
    word (text "ask")
    ∷ word (text "tea")
    ∷ joined (text "top-k") (text "3")
    ∷ alone (text "json")
    ∷ negated (text "json")
    ∷ apart (text "top-k") (text "5")
    ∷ alone (text "dry")
    ∷ []

pieces-ArePieces : ArePieces pieces
unfolding starts_with
pieces-ArePieces = (
  refl,
  (refl, ((refl, refl), ((refl, refl), (refl, ((refl, refl), (refl, ((refl, refl), (tt, tt)))))))),
)

real : IsReal (text "top-k")
unfolding list_beq
real = refl

parse_args-words_example :
    ((parse_args (words pieces)).positional ≡ plain_words pieces)
    × ((flag_string (parse_args (words pieces)) (text "top-k") none
          ≡ string_of (said (text "top-k") pieces none) none)
        × (flag_bool (parse_args (words pieces)) (text "top-k") false
            ≡ bool_of (said (text "top-k") pieces none) false))
parse_args-words_example = parse_args-words (text "top-k") real pieces none false pieces-ArePieces

last_wins : said (text "top-k") pieces none ≡ some (text_value (text "5"))
unfolding list_beq
last_wins = refl

json_is_off : flag_bool (parse_args (words pieces)) (text "json") true ≡ false
unfolding flag_bool parse_args list_beq
json_is_off = refl
