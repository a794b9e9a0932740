-- ===== src/ProviderJson/Attempts.antt =====
-- What is accepted, and what it cost.
use context_swarm_memory.Prelude.{
  ◌≡◌, refl, sym, ap, ◌∙◌, none, some, List, [], ◌∷◌, ◌++◌, All, All-append, append_assoc, subst,
  Option-cases, inl, inr,
}
use context_swarm_memory.ProviderJson.{
  no_usage, add_usage, CompleteJsonInput, ProviderResponse, Outside, Validated, Completed,
  validated, invalid_json, provider_failed, with_reminder, parsed, first_fit, fit, fit_parsed,
  attempts, complete_and_validate,
}
use mathlib.Core.List.{reverse, reverse-cons, reverse-append, reverse-reverse}

module _ {J T : Type 0} (o : Outside J T) where
  -- The value of an answer from which `t` is accepted: the value fits as `t`; or it does not fit, is an
  -- array, and `t` is its last element that fits.
  pub data Fits (j : J) (t : T) : Type 0 where
    whole : o.parse j ≡ some t → Fits j t
    element :
        (before : List J) (e : J) (after : List J)
        → o.parse j ≡ none
        → o.elements j ≡ some (before ++ e ∷ after)
        → o.parse e ≡ some t
        → All (λ x. o.parse x ≡ none) after
        → Fits j t

  first_fit-split :
      (js : List J) (t : T)
      → first_fit o js ≡ some t
      → (before : List J) × (e : J) × (after : List J) × (js ≡ before ++ e ∷ after)
        × (o.parse e ≡ some t)
        × All (λ x. o.parse x ≡ none) before
  unfolding first_fit
  first_fit-split [] t h = cc
  first_fit-split (j ∷ js) t h = elim (Option-cases (o.parse j)) [
    | inr (u, e) ↦ ([], j, js, refl, e ∙ (rw e at h), tt)
    | inl e ↦
        let (before, x, after, split, fits, none_fit) = first_fit-split js t (rw e at h) in
        (j ∷ before, x, after, ap (λ ys. j ∷ ys) split, fits, (e, none_fit))
  ]

  All-reverse : (P : J → Type 0) (xs : List J) → All P xs → All P (reverse xs)
  All-reverse P [] h = tt
  All-reverse P (x ∷ xs) h =
      subst (λ ys. All P ys) (sym (reverse-cons x xs))
        (All-append P (reverse xs) (x ∷ []) (All-reverse P xs h.1) (h.0, tt))

  split-reverse :
      (js before : List J) (e : J) (after : List J)
      → reverse js ≡ before ++ e ∷ after
      → js ≡ reverse after ++ e ∷ reverse before
  split-reverse js before e after h =
      sym (reverse-reverse js)
      ∙ ap (λ xs. reverse xs) h
      ∙ reverse-append before (e ∷ after)
      ∙ ap (λ xs. xs ++ reverse before) (reverse-cons e after)
      ∙ append_assoc (reverse after) (e ∷ []) (reverse before)

  fit-Fits : (j : J) (t : T) → fit o j ≡ some t → Fits j t
  fit-Fits j t h = elim (Option-cases (o.parse j)) [
    | inr (u, e) ↦ whole (e ∙ (rw e at h))
    | inl e ↦ elim (Option-cases (o.elements j)) [
      | inl no_array ↦ cc (rw (e, no_array) at h)
      | inr (js, array) ↦
          let (before, x, after, split, fits, none_fit) =
            first_fit-split (reverse js) t (rw (e, array) at h) in
          element (reverse after) x (reverse before) e
            (array ∙ ap some (split-reverse js before x after split)) fits
            (All-reverse (λ y. o.parse y ≡ none) before none_fit)
    ]
  ]

  -- The answer `r`, from which `t` is accepted.
  pub record Answers (r : ProviderResponse J) (t : T) : Type 0 where
    pub json : J
    pub read : parsed o r.answer ≡ some json
    pub fits : Fits json t

  -- A result that the first answer gives, or, when nothing in that fits, the answer to the input with
  -- the reminder; with the usage of the answers that were asked for.
  pub data Accepted (input : CompleteJsonInput) : Validated T → Type 0 where
    first :
        (r : ProviderResponse J) (t : T)
        → o.complete_json 0 input ≡ some r
        → Answers r t
        → Accepted input
            (record { accepted = t; raw = r.raw_text; total = add_usage no_usage r.usage })
    second :
        (r s : ProviderResponse J) (t : T)
        → o.complete_json 0 input ≡ some r
        → fit_parsed o (parsed o r.answer) ≡ none
        → o.complete_json 1 (with_reminder input) ≡ some s
        → Answers s t
        → Accepted input (record {
          accepted = t;
          raw = s.raw_text;
          total = add_usage (add_usage no_usage r.usage) s.usage;
        })

  Answers-of_fit :
      (r : ProviderResponse J) (t : T) → fit_parsed o (parsed o r.answer) ≡ some t → Answers r t
  Answers-of_fit r t h = elim (Option-cases (parsed o r.answer)) [
    | inl e ↦ cc (rw e at h)
    | inr (j, e) ↦ record { json = j; read = e; fits = fit-Fits j t (rw e at h) }
  ]

  -- How a call ends: with such a result; with the error that no answer fits, when neither of the two
  -- does; or with the provider's own error.
  pub data Ends (input : CompleteJsonInput) : Completed T → Type 0 where
    accepted : (v : Validated T) → Accepted input v → Ends input (validated v)
    unfit :
        (r s : ProviderResponse J)
        → o.complete_json 0 input ≡ some r
        → fit_parsed o (parsed o r.answer) ≡ none
        → o.complete_json 1 (with_reminder input) ≡ some s
        → fit_parsed o (parsed o s.answer) ≡ none
        → Ends input invalid_json
    first_failed : o.complete_json 0 input ≡ none → Ends input provider_failed
    second_failed :
        (r : ProviderResponse J)
        → o.complete_json 0 input ≡ some r
        → fit_parsed o (parsed o r.answer) ≡ none
        → o.complete_json 1 (with_reminder input) ≡ none
        → Ends input provider_failed

  second-Ends :
      (input : CompleteJsonInput) (r : ProviderResponse J)
      → o.complete_json 0 input ≡ some r
      → fit_parsed o (parsed o r.answer) ≡ none
      → Ends input (attempts o 1 1 (add_usage no_usage r.usage) (with_reminder input))
  unfolding attempts
  second-Ends input r asked misfit = elim (Option-cases (o.complete_json 1 (with_reminder input))) [
    | inl e ↦ rw e (second_failed r asked misfit e)
    | inr (s, e) ↦ elim (Option-cases (fit_parsed o (parsed o s.answer))) [
      | inl f ↦ rw (e, f) (unfit r s asked misfit e f)
      | inr (t, f) ↦ rw (e, f) (accepted _ (second r s t asked misfit e (Answers-of_fit s t f)))
    ]
  ]

  -- Every call ends in one of these ways. A result is validated when it is read from the first answer,
  -- or, when nothing in that fits the schema, from the answer to the input with the reminder: it is the
  -- answer's value, or when that does not fit, the last of its elements that does, and the usage of
  -- both answers is counted. The call fails with invalid JSON only when neither answer fits, and with
  -- the provider's own error only when a call of the provider fails.
  pub complete_and_validate-Ends :
      (input : CompleteJsonInput) → Ends input (complete_and_validate o input)
  unfolding complete_and_validate attempts
  complete_and_validate-Ends input = elim (Option-cases (o.complete_json 0 input)) [
    | inl e ↦ rw e (first_failed e)
    | inr (r, e) ↦ elim (Option-cases (fit_parsed o (parsed o r.answer))) [
      | inl f ↦ rw (e, f) (second-Ends input r e f)
      | inr (t, f) ↦ rw (e, f) (accepted _ (first r t e (Answers-of_fit r t f)))
    ]
  ]
