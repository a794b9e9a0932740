-- ===== src/Env/Meaning.antt =====
-- What a setting means.
use context_swarm_memory.Prelude.{
  ℕ, ◌≤◌, ◌≡◌, refl, Bool, true, false, not, Option, none, some, if◌then◌else◌, arith, subst, sym,
  Text, trim, to_lower, Bool-cases, inl, inr, ◌⊎◌, list_eq, nat_eq_inst,
}
use context_swarm_memory.Env.{
  EnvResult, ok, EnvIntOptions, least, greatest, env_int, env_int_optional, env_flag, flag_of,
  true_values, false_values, includes, within, checked, or_fallback, is_blank, integer_of,
}

-- No text, or a blank one.
abbrev pub IsUnset : Option Text → Type 0
IsUnset none = Unit
IsUnset (some raw) = is_blank (trim raw) ≡ true

-- The text without the spaces around it is an integer, of this value.
abbrev pub IsInteger : Option Text → ℕ → Type 0
IsInteger none n = ⊥
IsInteger (some raw) n =
    (minus : Bool) × ((integer_of (trim raw) ≡ some (minus, n)) × ((minus ≡ false) ⊎ (n ≡ 0)))

abbrev pub IsInRange : EnvIntOptions → ℕ → Type 0
IsInRange opts n = (least opts ≤ n) × (n ≤ greatest opts)

-- What a number means that is read.
abbrev Read : Option Text → EnvIntOptions → ℕ → ℕ → Type 0
Read raw opts fallback n = (IsUnset raw × (n ≡ fallback)) ⊎ (IsInteger raw n × IsInRange opts n)

of_ok : {a b : ℕ} → Path (EnvResult ℕ) (ok a) (ok b) → a ≡ b
of_ok e = cc

in_range :
    (opts : EnvIntOptions) (minus : Bool) (k : ℕ)
    → within opts minus k ≡ true
    → ((minus ≡ false) ⊎ (k ≡ 0)) × IsInRange opts k
in_range opts false k e = (inl refl, ground (arith, e))
in_range opts true k e = (inr (ground (arith, e)), ground (arith, e))

checked-Read :
    (opts : EnvIntOptions) (raw : Text) (o : Option (Bool × ℕ)) (fallback n : ℕ)
    → integer_of (trim raw) ≡ o
    → or_fallback fallback (checked opts raw o) ≡ ok n
    → Read (some raw) opts fallback n
checked-Read opts raw none fallback n p h = cc
checked-Read opts raw (some (minus, k)) fallback n p h = elim (Bool-cases (within opts minus k)) [
  | inl e ↦
      let (sign, range) = in_range opts minus k e in
      subst (λ x. Read (some raw) opts fallback x) (of_ok (rw e at h))
        (inr ((minus, (p, sign)), range))
  | inr e ↦ cc (rw e at h)
]

-- An integer setting that is read is the fallback, if there is no text or a blank one, and otherwise
-- the integer that the text is, which lies between the bounds: no other text is read.
pub env_int-range :
    (raw : Option Text) (opts : EnvIntOptions) (fallback n : ℕ)
    → env_int raw opts fallback ≡ ok n
    → (IsUnset raw × (n ≡ fallback)) ⊎ (IsInteger raw n × IsInRange opts n)
unfolding env_int env_int_optional
env_int-range none opts fallback n h = inl (tt, sym (of_ok h))
env_int-range (some raw) opts fallback n h = elim (Bool-cases (is_blank (trim raw))) [
  | inl e ↦ inl (e, sym (of_ok (rw e at h)))
  | inr e ↦ checked-Read opts raw (integer_of (trim raw)) fallback n refl (rw e at h)
]

abbrev Words : Text → Text → Bool → Bool → Type 0
Words raw name fallback b =
    (includes (to_lower (trim raw)) (if b then true_values else false_values) ≡ true)
    × (env_flag (some raw) name (not fallback) ≡ ok b)

flag_inj : {a b : Bool} → Path (EnvResult Bool) (ok a) (ok b) → a ≡ b
flag_inj e = cc

-- A flag that is read from a text that is not blank stands in the list of the words for its value,
-- whatever its fallback: a text in neither list is refused.
pub env_flag-words :
    (raw name : Text) (fallback b : Bool)
    → is_blank (trim raw) ≡ false
    → env_flag (some raw) name fallback ≡ ok b
    → (includes (to_lower (trim raw)) (if b then true_values else false_values) ≡ true)
      × (env_flag (some raw) name (not fallback) ≡ ok b)
unfolding env_flag flag_of
env_flag-words raw name fallback b h e =
    elim (Bool-cases (includes (to_lower (trim raw)) true_values)) [
      | inl t ↦ subst (Words raw name fallback) (flag_inj (rw (h, t) at e)) (t, rw (h, t))
      | inr t ↦ elim (Bool-cases (includes (to_lower (trim raw)) false_values)) [
        | inl f ↦ subst (Words raw name fallback) (flag_inj (rw (h, t, f) at e)) (f, rw (h, t, f))
        | inr f ↦ cc (rw (h, t, f) at e)
      ]
    ]
