-- ===== src/Env.antt =====
-- src/utils/env.ts: reading a setting from the environment. An error is a value.
-- Bounds of integers are natural numbers, as in every call of the repository; a number that JavaScript
-- would round lies above the greatest bound, and is refused like the exact one.
pub mod Meaning
use context_swarm_memory.Prelude.{
  ℕ, ◌*◌, ◌+◌, Bool, true, false, not, ◌&&◌, ◌||◌, Option, none, some, List, [], ◌∷◌, if◌then◌else◌,
  any, all, find, leb, nat_eq, Text, text, to_lower, trim, ◌==◌, list_eq, nat_eq_inst,
}
use context_swarm_memory.Selection.{or_else}
use context_swarm_memory.Ids.{is_digit, parse_digits}

pub data Reason : Type 0 where
  not_a_flag not_an_integer : Reason
  out_of_range : (min max : ℕ) → Reason
  not_allowed : Reason

-- `EnvConfigError`
pub record EnvConfigError : Type 0 where
  pub variable : Text
  pub value : Text
  pub detail : Reason

pub data EnvResult (A : Type 0) : Type 0 where
  ok : A → EnvResult A
  thrown : EnvConfigError → EnvResult A

abbrev pub true_values : List Text
true_values =
    text "1" ∷ text "true" ∷ text "yes" ∷ text "y" ∷ text "on" ∷ text "enable" ∷ text "enabled" ∷ []

abbrev pub false_values : List Text
false_values =
    text "0"
    ∷ text "false"
    ∷ text "no"
    ∷ text "n"
    ∷ text "off"
    ∷ text "disable"
    ∷ text "disabled"
    ∷ []

abbrev pub is_blank : Text → Bool
is_blank [] = true
is_blank (c ∷ s) = false

abbrev pub includes : Text → List Text → Bool
includes v = any (λ a. a == v)

abbrev throw : {A : Type 0} → Text → Text → Reason → EnvResult A
throw name raw why = thrown (record { variable = name; value = raw; detail = why })

-- `envFlag`, of a value that is set.
unfoldable pub flag_of : Text → Text → Bool → EnvResult Bool
unfolding trim to_lower
flag_of name raw fallback =
    let v = to_lower (trim raw) in
    if is_blank (trim raw)
    then ok fallback
    else if includes v true_values
    then ok true
    else if includes v false_values
    then ok false
    else throw name raw not_a_flag

unfoldable pub env_flag : Option Text → Text → Bool → EnvResult Bool
unfolding flag_of
env_flag none name fallback = ok fallback
env_flag (some raw) name fallback = flag_of name raw fallback

pub record EnvIntOptions : Type 0 where
  pub name : Text
  pub min : Option ℕ
  pub max : Option ℕ

-- `Number.MAX_SAFE_INTEGER`
abbrev pub max_safe_integer : ℕ
max_safe_integer = 9007199254740991

abbrev pub least : EnvIntOptions → ℕ
least opts = or_else opts.min 0

abbrev pub greatest : EnvIntOptions → ℕ
greatest opts = or_else opts.max max_safe_integer

-- `/^[+-]?\d+$/`, with what is read: whether there is a minus, and the magnitude.
unfoldable pub digits_of : Text → Option ℕ
unfolding is_digit parse_digits
digits_of [] = none
digits_of (c ∷ s) = if all is_digit (c ∷ s) then some (parse_digits 0 (c ∷ s)) else none

abbrev signed : Bool → Option ℕ → Option (Bool × ℕ)
signed minus none = none
signed minus (some n) = some (minus, n)

unfoldable pub integer_of : Text → Option (Bool × ℕ)
unfolding digits_of
integer_of [] = none
integer_of (c ∷ s) =
    if nat_eq c b'-'
    then signed true (digits_of s)
    else if nat_eq c b'+'
    then signed false (digits_of s)
    else signed false (digits_of (c ∷ s))

-- `parsed < min || parsed > max`; a negative number is below every bound.
abbrev pub within : EnvIntOptions → Bool → ℕ → Bool
within opts minus n = not (minus && not (nat_eq n 0)) && leb (least opts) n && leb n (greatest opts)

abbrev pub checked : EnvIntOptions → Text → Option (Bool × ℕ) → EnvResult (Option ℕ)
checked opts raw none = throw opts.name raw not_an_integer
checked opts raw (some (minus, n)) =
    if within opts minus n
    then ok (some n)
    else throw opts.name raw (out_of_range (least opts) (greatest opts))

unfoldable pub env_int_optional : Option Text → EnvIntOptions → EnvResult (Option ℕ)
unfolding trim integer_of
env_int_optional none opts = ok none
env_int_optional (some raw) opts =
    if is_blank (trim raw) then ok none else checked opts raw (integer_of (trim raw))

abbrev pub or_fallback : ℕ → EnvResult (Option ℕ) → EnvResult ℕ
or_fallback fallback (ok n) = ok (or_else n fallback)
or_fallback fallback (thrown e) = thrown e

unfoldable pub env_int : Option Text → EnvIntOptions → ℕ → EnvResult ℕ
unfolding env_int_optional
env_int raw opts fallback = or_fallback fallback (env_int_optional raw opts)

unfoldable pub env_positive_int : Option Text → EnvIntOptions → ℕ → EnvResult ℕ
unfolding env_int
env_positive_int raw opts fallback = env_int raw (record opts { min = some 1 }) fallback

abbrev pub hit_or_throw : Text → Text → Option Text → EnvResult Text
hit_or_throw name raw (some hit) = ok hit
hit_or_throw name raw none = throw name raw not_allowed

unfoldable pub env_enum : Option Text → Text → List Text → Text → EnvResult Text
unfolding trim to_lower
env_enum none name allowed fallback = ok fallback
env_enum (some raw) name allowed fallback =
    if is_blank (trim raw)
    then ok fallback
    else hit_or_throw name raw (find (λ a. to_lower a == to_lower (trim raw)) allowed)
