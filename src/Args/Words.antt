-- ===== src/Args/Words.antt =====
-- What a command line means is what its pieces say, the last one for a key.
use context_swarm_memory.Prelude.{
  ◌==◌, ==_iff, append-nil, ◌≡◌, refl, sym, ◌∙◌, ap, Bool, true, false, ◌||◌, Option, none, some,
  List, [], ◌∷◌, ◌++◌, append_assoc, if◌then◌else◌, nat_eq, nat_eq_inst, list_eq, Text, text, arith,
  Bool-cases, inl, inr,
}
use context_swarm_memory.Terms.{starts_with}
use context_swarm_memory.Args.{
  FlagValue, text_value, bool_value, Flag, ParsedArgs, set_flag, with_flag, is_flag, is_negated,
  split_at_sign, takes_value, single, parse_from, parse_args, flag_at, flag_string, string_of,
  flag_bool, bool_of,
}

-- A piece of a command line: WORD, --no-KEY, --KEY=VALUE, --KEY VALUE and --KEY.
pub data Piece : Type 0 where
  word : Text → Piece
  negated : Text → Piece
  joined : Text → Text → Piece
  apart : Text → Text → Piece
  alone : Text → Piece

abbrev pub words : List Piece → List Text
words [] = []
words (word a ∷ ps) = a ∷ words ps
words (negated key ∷ ps) = (text "--no-" ++ key) ∷ words ps
words (joined key value ∷ ps) = (text "--" ++ (key ++ b'=' ∷ value)) ∷ words ps
words (apart key value ∷ ps) = (text "--" ++ key) ∷ value ∷ words ps
words (alone key ∷ ps) = (text "--" ++ key) ∷ words ps

abbrev pub has_sign : Text → Bool
has_sign [] = false
has_sign (c ∷ s) = nat_eq c b'=' || has_sign s

abbrev pub IsKey : Text → Type 0
IsKey key = (is_negated key ≡ false) × (has_sign key ≡ false)

-- The next word is no value.
abbrev pub IsApart : List Text → Type 0
IsApart [] = Unit
IsApart (next ∷ ws) = is_flag next ≡ true

-- The pieces are what they pass for.
abbrev pub ArePieces : List Piece → Type 0
ArePieces [] = Unit
ArePieces (word a ∷ ps) = (is_flag a ≡ false) × ArePieces ps
ArePieces (negated key ∷ ps) = ArePieces ps
ArePieces (joined key value ∷ ps) = IsKey key × ArePieces ps
ArePieces (apart key value ∷ ps) = IsKey key × ((is_flag value ≡ false) × ArePieces ps)
ArePieces (alone key ∷ ps) = IsKey key × (IsApart (words ps) × ArePieces ps)

-- The words that belong to no flag.
abbrev pub plain_words : List Piece → List Text
plain_words [] = []
plain_words (word a ∷ ps) = a ∷ plain_words ps
plain_words (negated key ∷ ps) = plain_words ps
plain_words (joined key value ∷ ps) = plain_words ps
plain_words (apart key value ∷ ps) = plain_words ps
plain_words (alone key ∷ ps) = plain_words ps

-- What the last piece for the key says, and `o` when there is none.
abbrev pub said : Text → List Piece → Option FlagValue → Option FlagValue
said k [] o = o
said k (word a ∷ ps) o = said k ps o
said k (negated key ∷ ps) o = said k ps (if key == k then some (bool_value false) else o)
said k (joined key value ∷ ps) o = said k ps (if key == k then some (text_value value) else o)
said k (apart key value ∷ ps) o = said k ps (if key == k then some (text_value value) else o)
said k (alone key ∷ ps) o = said k ps (if key == k then some (bool_value true) else o)

split_at_sign-none : (s : Text) → has_sign s ≡ false → split_at_sign s ≡ none
unfolding split_at_sign
split_at_sign-none [] h = refl
split_at_sign-none (c ∷ s) h =
    let rest = split_at_sign-none s (ground (arith, h)) in
    let other : nat_eq c b'=' ≡ false = ground (arith, h) in rw (other, rest) refl

split_at_sign-joined :
    (s t : Text) → has_sign s ≡ false → split_at_sign (s ++ b'=' ∷ t) ≡ some (s, t)
unfolding split_at_sign
split_at_sign-joined [] t h = refl
split_at_sign-joined (c ∷ s) t h =
    let rest = split_at_sign-joined s t (ground (arith, h)) in
    let other : nat_eq c b'=' ≡ false = ground (arith, h) in rw (other, rest) refl

is_negated-joined : (s t : Text) → is_negated s ≡ false → is_negated (s ++ b'=' ∷ t) ≡ false
unfolding starts_with
is_negated-joined [] t h = refl
is_negated-joined (a ∷ []) t h = ground arith
is_negated-joined (a ∷ b ∷ []) t h = ground arith
is_negated-joined (a ∷ b ∷ c ∷ s) t h = ground (arith, h)

-- What a piece does to what is read so far.
abbrev after_piece : Piece → ParsedArgs → ParsedArgs
after_piece (word a) args = record args { positional = args.positional ++ a ∷ [] }
after_piece (negated key) args = with_flag key (bool_value false) args
after_piece (joined key value) args = with_flag key (text_value value) args
after_piece (apart key value) args = with_flag key (text_value value) args
after_piece (alone key) args = with_flag key (bool_value true) args

abbrev after_pieces : List Piece → ParsedArgs → ParsedArgs
after_pieces [] args = args
after_pieces (p ∷ ps) args = after_pieces ps (after_piece p args)

abbrev TakesNone : Text → List Text → Type 0
TakesNone a [] = Unit
TakesNone a (next ∷ ws) = takes_value a next ≡ false

parse_from-single :
    (a : Text) (ws : List Text) (args : ParsedArgs)
    → TakesNone a ws
    → parse_from args (a ∷ ws) ≡ parse_from (single a args) ws
unfolding parse_from
parse_from-single a [] args h = refl
parse_from-single a (next ∷ ws) args h = rw h refl

none_taken :
    (a : Text) (ws : List Text) → ((next : Text) → takes_value a next ≡ false) → TakesNone a ws
none_taken a [] h = tt
none_taken a (next ∷ ws) h = h next

alone-TakesNone : (key : Text) (ws : List Text) → IsApart ws → TakesNone (text "--" ++ key) ws
unfolding takes_value
alone-TakesNone key [] h = tt
alone-TakesNone key (next ∷ ws) h = ground (arith, h)

parse_from-words :
    (ps : List Piece) (args : ParsedArgs)
    → ArePieces ps
    → parse_from args (words ps) ≡ after_pieces ps args
unfolding parse_from takes_value single starts_with
parse_from-words [] args h = refl
parse_from-words (word a ∷ ps) args h =
    let lone = none_taken a (words ps) (λ next. rw h.0 refl) in
    parse_from-single a (words ps) args lone
    ∙ rw h.0 (parse_from-words ps (after_piece (word a) args) h.1)
parse_from-words (negated key ∷ ps) args h =
    let lone = none_taken (text "--no-" ++ key) (words ps) (λ next. refl) in
    parse_from-single (text "--no-" ++ key) (words ps) args lone
    ∙ parse_from-words ps (after_piece (negated key) args) h
parse_from-words (joined key value ∷ ps) args h =
    let body : Text = key ++ b'=' ∷ value in
    let plain = is_negated-joined key value h.0.0 in
    let sign = split_at_sign-joined key value h.0.1 in
    let lone = none_taken (text "--" ++ body) (words ps) (λ next. rw (plain, sign) refl) in
    parse_from-single (text "--" ++ body) (words ps) args lone
    ∙ rw (plain, sign) (parse_from-words ps (after_piece (joined key value) args) h.1)
parse_from-words (apart key value ∷ ps) args h =
    let sign = split_at_sign-none key h.0.1 in
    rw (h.0.0, sign, h.1.0) (parse_from-words ps (after_piece (apart key value) args) h.1.1)
parse_from-words (alone key ∷ ps) args h =
    let sign = split_at_sign-none key h.0.1 in
    parse_from-single (text "--" ++ key) (words ps) args (alone-TakesNone key (words ps) h.1.0)
    ∙ rw (h.0.0, sign) (parse_from-words ps (after_piece (alone key) args) h.1.1)

after_pieces-positional :
    (ps : List Piece) (args : ParsedArgs)
    → (after_pieces ps args).positional ≡ args.positional ++ plain_words ps
after_pieces-positional [] args = sym (append-nil args.positional)
after_pieces-positional (word a ∷ ps) args =
    after_pieces-positional ps (after_piece (word a) args)
    ∙ append_assoc args.positional (a ∷ []) (plain_words ps)
after_pieces-positional (negated key ∷ ps) args =
    after_pieces-positional ps (after_piece (negated key) args)
after_pieces-positional (joined key value ∷ ps) args =
    after_pieces-positional ps (after_piece (joined key value) args)
after_pieces-positional (apart key value ∷ ps) args =
    after_pieces-positional ps (after_piece (apart key value) args)
after_pieces-positional (alone key ∷ ps) args =
    after_pieces-positional ps (after_piece (alone key) args)

-- The keys that an assignment reaches.
abbrev pub IsReal : Text → Type 0
IsReal k = (text "__proto__" == k) ≡ false

module _ (k : Text) (real : IsReal k) where
  flag_at-set_flag :
      (key : Text) (v : FlagValue) (fs : List Flag)
      → flag_at (set_flag key v fs) k ≡ (if key == k then some v else flag_at fs k)
  unfolding flag_at
  flag_at-set_flag key v fs = elim (Bool-cases (key == text "__proto__")) [
    | inl e ↦
        let same : key ≡ text "__proto__" = (==_iff key (text "__proto__")).0 e in
        let other : (key == k) ≡ false = ap (λ x. x == k) same ∙ real in rw (e, other) refl
    | inr e ↦ rw e refl
  ]

  flag_at-after_pieces :
      (ps : List Piece) (args : ParsedArgs)
      → flag_at (after_pieces ps args).flags k ≡ said k ps (flag_at args.flags k)
  flag_at-after_pieces [] args = refl
  flag_at-after_pieces (word a ∷ ps) args = flag_at-after_pieces ps (after_piece (word a) args)
  flag_at-after_pieces (negated key ∷ ps) args =
      flag_at-after_pieces ps (after_piece (negated key) args)
      ∙ ap (said k ps) (flag_at-set_flag key (bool_value false) args.flags)
  flag_at-after_pieces (joined key value ∷ ps) args =
      flag_at-after_pieces ps (after_piece (joined key value) args)
      ∙ ap (said k ps) (flag_at-set_flag key (text_value value) args.flags)
  flag_at-after_pieces (apart key value ∷ ps) args =
      flag_at-after_pieces ps (after_piece (apart key value) args)
      ∙ ap (said k ps) (flag_at-set_flag key (text_value value) args.flags)
  flag_at-after_pieces (alone key ∷ ps) args =
      flag_at-after_pieces ps (after_piece (alone key) args)
      ∙ ap (said k ps) (flag_at-set_flag key (bool_value true) args.flags)

  -- Pieces whose keys, unless they are negated, have no `=` and no `no-` in front, whose words and
  -- values apart are no flags, and where no word follows a flag alone, are read back from the words
  -- that they are written in: the positional arguments are the words of no flag, in order, and the
  -- text and the Boolean at a key other than __proto__ are what the last piece for the key says, or
  -- the fallback.
  pub parse_args-words :
      (ps : List Piece) (d : Option Text) (b : Bool)
      → ArePieces ps
      → ((parse_args (words ps)).positional ≡ plain_words ps)
        × ((flag_string (parse_args (words ps)) k d ≡ string_of (said k ps none) d)
            × (flag_bool (parse_args (words ps)) k b ≡ bool_of (said k ps none) b))
  unfolding parse_args flag_string flag_bool flag_at
  parse_args-words ps d b h =
      let start : ParsedArgs = record { positional = []; flags = [] } in
      let run = parse_from-words ps start h in
      let at = ap (λ (r : ParsedArgs). flag_at r.flags k) run ∙ flag_at-after_pieces ps start in
      (
        ap (λ (r : ParsedArgs). r.positional) run ∙ after_pieces-positional ps start,
        (ap (λ v. string_of v d) at, ap (λ v. bool_of v b) at),
      )
