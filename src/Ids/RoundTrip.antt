-- ===== src/Ids/RoundTrip.antt =====
-- Snapshot names carry their number: they are read back, and differ when their numbers do.
use context_swarm_memory.Prelude.{
  ℕ, zero, suc, ◌+◌, ◌-◌, ◌*◌, ◌/◌, ◌%◌, ◌<◌, ◌≤◌, ◌≡◌, refl, ap, ◌∙◌, Bool, true, some, [], ◌∷◌,
  ◌++◌, arith, ltb, length, all, Text, replicate, Bool-cases, inl, inr, length-append,
  length-replicate,
}
use context_swarm_memory.Ids.{
  decimal_from, decimal, pad_start, is_digit, parse_digits, new_snapshot_id, snapshot_number,
  next_snapshot_id,
}

parse_digits-concat :
    (acc : ℕ) (s : Text) (c : ℕ)
    → parse_digits acc (s ++ c ∷ []) ≡ parse_digits acc s * 10 + (c - 48)
unfolding parse_digits
parse_digits-concat acc [] c = refl
parse_digits-concat acc (d ∷ s) c = parse_digits-concat (acc * 10 + (d - 48)) s c

parse_digits-decimal_from : (fuel n : ℕ) → n < fuel → parse_digits 0 (decimal_from fuel n) ≡ n
unfolding decimal_from parse_digits
parse_digits-decimal_from zero n h = absurd (omega arith)
parse_digits-decimal_from (suc fuel) n h = elim (Bool-cases (ltb n 10)) [
  | inl e ↦ rw e (omega arith)
  | inr e ↦
      rw (e, parse_digits-concat 0 (decimal_from fuel (n / 10)) (48 + n % 10))
        (omega (arith, parse_digits-decimal_from fuel (n / 10) (ground arith)))
]

parse_digits-replicate :
    (n : ℕ) (s : Text) → parse_digits 0 (replicate n b'0' ++ s) ≡ parse_digits 0 s
unfolding parse_digits
parse_digits-replicate zero s = refl
parse_digits-replicate (suc n) s = parse_digits-replicate n s

all-append :
    (p : ℕ → Bool) (xs ys : Text) → all p xs ≡ true → all p ys ≡ true → all p (xs ++ ys) ≡ true
all-append p [] ys h k = k
all-append p (x ∷ xs) ys h k = ground (arith, all-append p xs ys)

all-is_digit-replicate : (n : ℕ) → all is_digit (replicate n b'0') ≡ true
unfolding is_digit
all-is_digit-replicate zero = refl
all-is_digit-replicate (suc n) = all-is_digit-replicate n

all-is_digit-decimal_from : (fuel n : ℕ) → all is_digit (decimal_from fuel n) ≡ true
unfolding decimal_from
all-is_digit-decimal_from zero n = refl
all-is_digit-decimal_from (suc fuel) n = elim (Bool-cases (ltb n 10)) [
  | inl e ↦ rw e (unfold is_digit in ground arith)
  | inr e ↦ rw e (
      all-append is_digit (decimal_from fuel (n / 10)) ((48 + n % 10) ∷ [])
        (all-is_digit-decimal_from fuel (n / 10)) (unfold is_digit in ground arith))
]

length-pad_start : (width : ℕ) (s : Text) → width ≤ length (pad_start width s)
unfolding pad_start
length-pad_start width s = omega (
  arith,
  length-append (replicate (width - length s) b'0') s,
  length-replicate {A = ℕ} (width - length s) b'0',
)

snapshot_number-digits :
    (s : Text)
    → 3 ≤ length s
    → all is_digit s ≡ true
    → snapshot_number (b'S' ∷ s) ≡ some (parse_digits 0 s)
unfolding snapshot_number
snapshot_number-digits [] h k = absurd (omega arith)
snapshot_number-digits (d ∷ s) h k = rw k

-- The number of a snapshot's name is read back from it.
pub snapshot_number-new_snapshot_id : (n : ℕ) → snapshot_number (new_snapshot_id n) ≡ some n
unfolding new_snapshot_id pad_start decimal
snapshot_number-new_snapshot_id n =
    snapshot_number-digits (pad_start 3 (decimal n)) (length-pad_start 3 (decimal n))
      (all-append is_digit _ _ (all-is_digit-replicate _) (all-is_digit-decimal_from (suc n) n))
    ∙ ap some
        (parse_digits-replicate _ (decimal n) ∙ parse_digits-decimal_from (suc n) n (omega arith))

-- The name after the name of `n` is the name of `n + 1`, and the number that it carries is `n + 1`.
pub next_snapshot_id-new_snapshot_id :
    (n : ℕ)
    → (next_snapshot_id (new_snapshot_id n) ≡ new_snapshot_id (n + 1))
      × (snapshot_number (next_snapshot_id (new_snapshot_id n)) ≡ some (n + 1))
unfolding next_snapshot_id
next_snapshot_id-new_snapshot_id n = (
  rw (snapshot_number-new_snapshot_id n),
  rw (snapshot_number-new_snapshot_id n) (snapshot_number-new_snapshot_id (n + 1)),
)

-- Snapshots with different numbers have different names.
pub new_snapshot_id-injective : (m n : ℕ) → new_snapshot_id m ≡ new_snapshot_id n → m ≡ n
new_snapshot_id-injective m n p =
    cc (snapshot_number-new_snapshot_id m, snapshot_number-new_snapshot_id n, ap snapshot_number p)
