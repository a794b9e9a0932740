-- ===== src/ProviderJson.antt =====
-- src/core/providerJson.ts: a call of the provider whose answer has to fit a schema, with one retry.
-- The provider, the forgiving JSON parser and the schema are parameters. Of an answer the provider
-- gives the data, the raw text and the usage; the error of an attempt is the schema's or the parser's.
pub mod Attempts
use context_swarm_memory.Prelude.{
  ℕ, zero, suc, ◌+◌, Option, none, some, List, [], ◌∷◌, ◌++◌, Text, text,
}
use mathlib.Core.List.{reverse}

pub record ProviderUsage : Type 0 where
  pub input_tokens_estimate : ℕ
  pub output_tokens_estimate : ℕ
  -- Millionths of a dollar.
  pub estimated_usd : ℕ
  pub latency_ms : ℕ
  pub cached_input_tokens : Option ℕ
  pub thoughts_tokens : Option ℕ

abbrev pub no_usage : ProviderUsage
no_usage = record {
  input_tokens_estimate = 0;
  output_tokens_estimate = 0;
  estimated_usd = 0;
  latency_ms = 0;
  cached_input_tokens = none;
  thoughts_tokens = none;
}

-- `usage.f = (usage.f ?? 0) + r.usage.f`, if the answer reports the field.
abbrev pub add_reported : Option ℕ → Option ℕ → Option ℕ
add_reported total none = total
add_reported none (some n) = some n
add_reported (some t) (some n) = some (t + n)

unfoldable pub add_usage : ProviderUsage → ProviderUsage → ProviderUsage
add_usage usage r = record {
  input_tokens_estimate = usage.input_tokens_estimate + r.input_tokens_estimate;
  output_tokens_estimate = usage.output_tokens_estimate + r.output_tokens_estimate;
  estimated_usd = usage.estimated_usd + r.estimated_usd;
  latency_ms = usage.latency_ms + r.latency_ms;
  cached_input_tokens = add_reported usage.cached_input_tokens r.cached_input_tokens;
  thoughts_tokens = add_reported usage.thoughts_tokens r.thoughts_tokens;
}

-- The fields that the call reads or changes; the others go to the provider as they are.
pub record CompleteJsonInput : Type 0 where
  pub system : Text
  pub prompt : Text
  pub schema_name : Text

-- The answer's value: a JSON value, or a text that is still to be parsed.
pub data Data (J : Type 0) : Type 0 where
  string : Text → Data J
  value : J → Data J

pub record ProviderResponse (J : Type 0) : Type 0 where
  pub answer : Data J
  pub raw_text : Text
  pub usage : ProviderUsage

-- What lies outside the program: the provider's answer to an attempt, or its failure, `extractJson`, the elements of a
-- value that is an array, and the schema.
pub record Outside (J T : Type 0) : Type 0 where
  pub complete_json : ℕ → CompleteJsonInput → Option (ProviderResponse J)
  pub extract_json : Text → Option J
  pub elements : J → Option (List J)
  pub parse : J → Option T

pub record Validated (T : Type 0) : Type 0 where
  pub accepted : T
  pub raw : Text
  pub total : ProviderUsage

unfoldable pub with_reminder : CompleteJsonInput → CompleteJsonInput
with_reminder input = record input {
  prompt =
      input.prompt
      ++ 10 ∷ 10 ∷ text "Reminder: Return JSON only, valid against schema \""
      ++ input.schema_name
      ++ text "\". Do not include prose or fences. Return a single JSON OBJECT, not an array.";
}

abbrev pub or_else_try : {T : Type 0} → Option T → Option T → Option T
or_else_try none later = later
or_else_try (some t) later = some t

pub data Completed (T : Type 0) : Type 0 where
  validated : Validated T → Completed T
  -- "returned invalid JSON for schema"
  invalid_json : Completed T
  -- The provider's own error goes through at once.
  provider_failed : Completed T

module _ {J T : Type 0} (o : Outside J T) where
  unfoldable pub parsed : Data J → Option J
  parsed (string s) = o.extract_json s
  parsed (value j) = some j

  -- The first value in the list that fits.
  unfoldable pub first_fit : List J → Option T
  first_fit [] = none
  first_fit (j ∷ js) = or_else_try (o.parse j) (first_fit js)

  abbrev pub fit_elements : Option (List J) → Option T
  fit_elements none = none
  fit_elements (some js) = first_fit (reverse js)

  -- The value itself, or else the last of its elements that fits.
  abbrev pub fit : J → Option T
  fit j = or_else_try (o.parse j) (fit_elements (o.elements j))

  abbrev pub fit_parsed : Option J → Option T
  fit_parsed none = none
  fit_parsed (some j) = fit j

  -- An answer that fits ends the attempts, with the usage of all of them.
  abbrev pub judged :
      ProviderUsage → (ProviderUsage → Completed T) → ProviderResponse J → Option T → Completed T
  judged total retry r (some t) =
      validated (record { accepted = t; raw = r.raw_text; total = total })
  judged total retry r none = retry total

  abbrev pub after_answer :
      ProviderUsage → (ProviderUsage → Completed T) → Option (ProviderResponse J) → Completed T
  after_answer usage retry none = provider_failed
  after_answer usage retry (some r) =
      judged (add_usage usage r.usage) retry r (fit_parsed (parsed r.answer))

  -- The attempts from number `i` on, `left` in number.
  unfoldable pub attempts : (i left : ℕ) → ProviderUsage → CompleteJsonInput → Completed T
  unfolding add_usage parsed with_reminder first_fit
  attempts i zero usage input = invalid_json
  attempts i (suc left) usage input =
      let retry = λ (total : ProviderUsage). attempts (i + 1) left total (with_reminder input) in
      after_answer usage retry (o.complete_json i input)

  unfoldable pub complete_and_validate : CompleteJsonInput → Completed T
  unfolding attempts
  complete_and_validate input = attempts 0 2 no_usage input
