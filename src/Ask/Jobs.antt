-- ===== src/Ask/Jobs.antt =====
-- What `run_jobs` gives, and lists whose elements have different names.
use context_swarm_memory.Prelude.{
  ℕ, zero, suc, ◌≡◌, refl, sym, ◌∙◌, ap, ap₂, Bool, true, false, Option, none, some, some_inj,
  subst, find, List, [], ◌∷◌, map, Memᴰ, any, take, arith, All, inl, inr, Text, list_eq,
  nat_eq_inst, Bool-cases, Memᴰ-of_map,
}
use context_swarm_memory.Selection.Dedupe.{IsDistinct, contains, Memᴰ-contains}
use context_swarm_memory.Ask.{◌>>=◌, run_jobs, present}
use context_swarm_memory.Ask.Gate.{keep_at}

-- The step that gives a value has one in front of it.
pub bind-some :
    {A B : Type 0} (o : Option A) (f : A → Option B) {b : B}
    → (o >>= f) ≡ some b
    → (a : A) × (o ≡ some a) × (f a ≡ some b)
unfolding ◌>>=◌
bind-some none f h = cc
bind-some (some a) f h = (a, refl, h)

module _ {A B : Type 0} (job : A → Option B) where
  pub run_jobs-cons :
      (x : A) (xs : List A) {zs : List B}
      → run_jobs job (x ∷ xs) ≡ some zs
      → (y : B) × (ys : List B) × (job x ≡ some y) × (run_jobs job xs ≡ some ys) × (zs ≡ y ∷ ys)
  unfolding run_jobs
  run_jobs-cons x xs h =
      let (y, e, k) = bind-some (job x) _ h in
      let (ys, d, l) = bind-some (run_jobs job xs) _ k in (y, ys, e, d, sym (some_inj l))

  pub map-run_jobs {ℓ} :
      {C : Type ℓ} (f : A → C) (g : B → C)
      → ((x : A) (y : B) → job x ≡ some y → g y ≡ f x)
      → (xs : List A) {ys : List B} → run_jobs job xs ≡ some ys
      → map g ys ≡ map f xs
  unfolding run_jobs
  map-run_jobs f g keeps [] h = rw (← some_inj h) refl
  map-run_jobs f g keeps (x ∷ xs) h =
      let (y, ys, e, d, l) = run_jobs-cons x xs h in
      rw l (ap₂ (λ c cs. c ∷ cs) (keeps x y e) (map-run_jobs f g keeps xs d))

  pub run_jobs-All :
      (P : A → Type 0) (Q : B → Type 0)
      → ((x : A) (y : B) → P x → job x ≡ some y → Q y)
      → (xs : List A) {ys : List B} → All P xs
      → run_jobs job xs ≡ some ys
      → All Q ys
  unfolding run_jobs
  run_jobs-All P Q keeps [] p h = rw (← some_inj h) tt
  run_jobs-All P Q keeps (x ∷ xs) p h =
      let (y, ys, e, d, l) = run_jobs-cons x xs h in
      rw l (keeps x y p.0 e, run_jobs-All P Q keeps xs p.1 d)

  -- Jobs that agree on the elements of a list give the same.
  pub run_jobs-eq :
      (other : A → Option B) (xs : List A)
      → All (λ x. job x ≡ other x) xs
      → run_jobs job xs ≡ run_jobs other xs
  unfolding run_jobs
  run_jobs-eq other [] h = refl
  run_jobs-eq other (x ∷ xs) h = rw (h.0, run_jobs-eq other xs h.1) refl

module _ {A : Type 0} where
  pub present-Memᴰ : (xs : List (Option A)) {a : A} → Memᴰ a (present xs) → Memᴰ (some a) xs
  present-Memᴰ [] m = elim m [ ]
  present-Memᴰ (none ∷ xs) m = Memᴰ.tail (present-Memᴰ xs m)
  present-Memᴰ (some x ∷ xs) (Memᴰ.head e) = Memᴰ.head (ap some e)
  present-Memᴰ (some x ∷ xs) (Memᴰ.tail m) = Memᴰ.tail (present-Memᴰ xs m)

-- Elements with different names.
module _ {A : Type 0} (name : A → Text) where
  pub distinct-same :
      (xs : List A) {a b : A}
      → IsDistinct (map name xs)
      → Memᴰ a xs
      → Memᴰ b xs
      → name a ≡ name b
      → a ≡ b
  distinct-same [] d m k e = elim m [ ]
  distinct-same (x ∷ xs) d (Memᴰ.head p) (Memᴰ.head q) e = p ∙ sym q
  distinct-same (x ∷ xs) {b = b} d (Memᴰ.head p) (Memᴰ.tail k) e =
      absurd (cc (Memᴰ-contains (map name xs) (name b) (Memᴰ-of_map name xs k), rw (← p, e) at d.0))
  distinct-same (x ∷ xs) {a = a} d (Memᴰ.tail m) (Memᴰ.head q) e =
      absurd
        (cc (Memᴰ-contains (map name xs) (name a) (Memᴰ-of_map name xs m), rw (← q, ← e) at d.0))
  distinct-same (x ∷ xs) d (Memᴰ.tail m) (Memᴰ.tail k) e = distinct-same xs d.1 m k e

  contains-take :
      (n : ℕ) (xs : List A) (t : Text)
      → contains (map name xs) t ≡ false
      → contains (map name (take n xs)) t ≡ false
  contains-take zero xs t h = refl
  contains-take (suc n) [] t h = refl
  contains-take (suc n) (x ∷ xs) t h = ground (arith, contains-take n xs t)

  pub IsDistinct-take :
      (n : ℕ) (xs : List A) → IsDistinct (map name xs) → IsDistinct (map name (take n xs))
  IsDistinct-take zero xs d = tt
  IsDistinct-take (suc n) [] d = tt
  IsDistinct-take (suc n) (x ∷ xs) d = (contains-take n xs (name x) d.0, IsDistinct-take n xs d.1)

  contains-keep_at :
      (p : ℕ → Bool) (ix : ℕ) (xs : List A) (t : Text)
      → contains (map name xs) t ≡ false
      → contains (map name (keep_at p ix xs)) t ≡ false
  unfolding keep_at
  contains-keep_at p ix [] t h = refl
  contains-keep_at p ix (x ∷ xs) t h = ground (arith, contains-keep_at p (suc ix) xs t)

  pub IsDistinct-keep_at :
      (p : ℕ → Bool) (ix : ℕ) (xs : List A)
      → IsDistinct (map name xs)
      → IsDistinct (map name (keep_at p ix xs))
  unfolding keep_at
  IsDistinct-keep_at p ix [] d = tt
  IsDistinct-keep_at p ix (x ∷ xs) d = elim (Bool-cases (p ix)) [
    | inl e ↦
        rw e (contains-keep_at p (suc ix) xs (name x) d.0, IsDistinct-keep_at p (suc ix) xs d.1)
    | inr e ↦ rw e (IsDistinct-keep_at p (suc ix) xs d.1)
  ]

pub All-keep_at :
    {A : Type 0} (P : A → Type 0) (p : ℕ → Bool) (ix : ℕ) (xs : List A)
    → All P xs
    → All P (keep_at p ix xs)
unfolding keep_at
All-keep_at P p ix [] h = tt
All-keep_at P p ix (x ∷ xs) h = elim (Bool-cases (p ix)) [
  | inl e ↦ rw e (h.0, All-keep_at P p (suc ix) xs h.1)
  | inr e ↦ rw e (All-keep_at P p (suc ix) xs h.1)
]

pub find-Memᴰ :
    {A : Type 0} (p : A → Bool) (xs : List A) {a : A}
    → find p xs ≡ some a
    → Memᴰ a xs × (p a ≡ true)
find-Memᴰ p [] h = cc
find-Memᴰ p (x ∷ xs) h = elim (Bool-cases (p x)) [
  | inl e ↦ let q = some_inj (rw e at h) in (Memᴰ.head (sym q), subst (λ z. p z ≡ true) q e)
  | inr e ↦ let (m, q) = find-Memᴰ p xs (rw e at h) in (Memᴰ.tail m, q)
]

module _ {A : Type 0} (q : A → Bool) where
  pub any-Memᴰ : (xs : List A) {a : A} → Memᴰ a xs → q a ≡ true → any q xs ≡ true
  any-Memᴰ [] m h = elim m [ ]
  any-Memᴰ (x ∷ xs) (Memᴰ.head e) h = rw (← e, h) refl
  any-Memᴰ (x ∷ xs) (Memᴰ.tail m) h = ground (arith, any-Memᴰ xs m h)

  pub any-some : (xs : List A) → any q xs ≡ true → (a : A) × Memᴰ a xs × (q a ≡ true)
  any-some [] h = cc
  any-some (x ∷ xs) h = elim (Bool-cases (q x)) [
    | inl e ↦ (x, Memᴰ.head refl, e)
    | inr e ↦ let (a, m, k) = any-some xs (rw e at h) in (a, Memᴰ.tail m, k)
  ]

  pub find_nothing : (xs : List A) → find q xs ≡ none → any q xs ≡ false
  find_nothing [] h = refl
  find_nothing (x ∷ xs) h = elim (Bool-cases (q x)) [
    | inl e ↦ cc (rw e at h)
    | inr e ↦ ground (arith, find_nothing xs (rw e at h))
  ]
