-- ===== src/Args.antt =====
-- src/cli/args.ts: the words of a command line as positional arguments and flags.
pub mod Words
mod Tests
use context_swarm_memory.Prelude.{
  Bool, true, false, not, ◌&&◌, ◌||◌, Option, none, some, List, [], ◌∷◌, ◌++◌, if◌then◌else◌, drop,
  ℕ, ◌==◌, nat_eq, nat_eq_inst, list_eq, Text, text,
}
use context_swarm_memory.Terms.{starts_with}

pub data FlagValue : Type 0 where
  text_value : Text → FlagValue
  bool_value : Bool → FlagValue

pub record Flag : Type 0 where
  key : Text
  value : FlagValue

-- The flags are a JavaScript object: an assignment stands in front of the earlier ones.
pub record ParsedArgs : Type 0 where
  positional : List Text
  flags : List Flag

-- `flags[key] = value`. An assignment of a text or a Boolean to `__proto__` does nothing.
abbrev pub set_flag : Text → FlagValue → List Flag → List Flag
set_flag key value fs =
    if key == text "__proto__" then fs else record { key = key; value = value } ∷ fs

abbrev pub with_flag : Text → FlagValue → ParsedArgs → ParsedArgs
with_flag key value args = record args { flags = set_flag key value args.flags }

abbrev pub is_flag : Text → Bool
is_flag a = starts_with a (text "--")

abbrev pub is_negated : Text → Bool
is_negated body = starts_with body (text "no-")

-- The text in front of the first `=`, and the text behind it.
unfoldable pub split_at_sign : Text → Option (Text × Text)
split_at_sign [] = none
split_at_sign (c ∷ s) = if nat_eq c b'=' then some ([], s) else behind c (split_at_sign s)
  where
    behind : ℕ → Option (Text × Text) → Option (Text × Text)
    behind c none = none
    behind c (some (k, v)) = some (c ∷ k, v)

abbrev is_bare : Option (Text × Text) → Bool
is_bare none = true
is_bare (some p) = false

-- Whether the argument is a flag that takes the next argument as its value.
unfoldable pub takes_value : Text → Text → Bool
unfolding starts_with split_at_sign
takes_value a next =
    is_flag a
    && (not (is_negated (drop 2 a)) && (is_bare (split_at_sign (drop 2 a)) && not (is_flag next)))

abbrev pub with_body : Text → Option (Text × Text) → ParsedArgs → ParsedArgs
with_body body none args = with_flag body (bool_value true) args
with_body body (some (key, value)) args = with_flag key (text_value value) args

-- An argument that takes no other as its value.
unfoldable pub single : Text → ParsedArgs → ParsedArgs
unfolding starts_with split_at_sign
single a args =
    let body = drop 2 a in
    if is_flag a
    then (if is_negated body
        then with_flag (drop 3 body) (bool_value false) args
        else with_body body (split_at_sign body) args)
    else record args { positional = args.positional ++ a ∷ [] }

unfoldable pub parse_from : ParsedArgs → List Text → ParsedArgs
unfolding takes_value single
parse_from args [] = args
parse_from args (a ∷ []) = single a args
parse_from args (a ∷ next ∷ rest) =
    let paired = parse_from (with_flag (drop 2 a) (text_value next) args) rest in
    let alone = parse_from (single a args) (next ∷ rest) in
    if takes_value a next then paired else alone

unfoldable pub parse_args : List Text → ParsedArgs
unfolding parse_from
parse_args = parse_from (record { positional = []; flags = [] })

unfoldable pub flag_at : List Flag → Text → Option FlagValue
flag_at [] key = none
flag_at (f ∷ fs) key = if f.key == key then some f.value else flag_at fs key

abbrev pub string_of : Option FlagValue → Option Text → Option Text
string_of none fallback = fallback
string_of (some (text_value v)) fallback = some v
string_of (some (bool_value b)) fallback = fallback

abbrev pub bool_of : Option FlagValue → Bool → Bool
bool_of none fallback = fallback
bool_of (some (text_value v)) fallback =
    not (v == text "false") && (not (v == text "0") && not (v == []))
bool_of (some (bool_value b)) fallback = b

unfoldable pub flag_string : ParsedArgs → Text → Option Text → Option Text
unfolding flag_at
flag_string args key fallback = string_of (flag_at args.flags key) fallback

unfoldable pub flag_bool : ParsedArgs → Text → Bool → Bool
unfolding flag_at
flag_bool args key fallback = bool_of (flag_at args.flags key) fallback
