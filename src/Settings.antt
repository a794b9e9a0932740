-- ===== src/Settings.antt =====
-- The settings of the pipeline, each read from its variable: src/core/tokenBudget.ts,
-- src/core/retrievalUnit.ts, src/core/ask.ts, src/core/probe.ts, src/core/digestSelection.ts,
-- src/core/coverage.ts.
-- The environment is a function from names to values.
pub mod Positive
use context_swarm_memory.Prelude.{
  List, if◌then◌else◌, ◌||◌, ℕ, Bool, true, false, not, ◌&&◌, Option, none, some, Text, text, ◌==◌,
  list_eq, nat_eq_inst,
}
use context_swarm_memory.Env.{EnvResult, ok, EnvIntOptions, env_flag, env_int, env_positive_int}

abbrev pub Environment : Type 0
Environment = Text → Option Text

-- The options of an integer setting with no bounds of its own.
abbrev pub named : Text → EnvIntOptions
named name = record { name = name; min = none; max = none }

unfoldable pub resolve_recall_budget : ℕ → Environment → EnvResult ℕ
resolve_recall_budget default_tokens env =
    env_positive_int (env (text "CSM_RECALL_BUDGET")) (named (text "CSM_RECALL_BUDGET"))
      default_tokens

pub data CountKey : Type 0 where
  max_probe_shards max_recall_shards : CountKey

abbrev pub key_text : CountKey → Text
key_text max_probe_shards = text "CSM_MAX_PROBE_SHARDS"
key_text max_recall_shards = text "CSM_MAX_RECALL_SHARDS"

unfoldable pub resolve_shard_count : CountKey → ℕ → Environment → EnvResult ℕ
resolve_shard_count key default_count env =
    env_positive_int (env (key_text key)) (named (key_text key)) default_count

unfoldable pub resolve_unit_size : Option Text → EnvResult ℕ
resolve_unit_size raw =
    env_int raw (record { name = text "CSM_RETRIEVAL_UNITS"; min = some 0; max = none }) 0

unfoldable pub resolve_probe_shrink : Option Text → EnvResult Bool
resolve_probe_shrink raw = env_flag raw (text "CSM_PROBE_SHRINK") false

unfoldable pub resolve_probe_batch : Text → Option Text → EnvResult Bool
resolve_probe_batch provider_name raw =
    env_flag raw (text "CSM_PROBE_BATCH")
      (not (provider_name == text "ollama") && not (provider_name == text "llama-server"))

unfoldable pub resolve_probe_local_keep : Option Text → EnvResult ℕ
resolve_probe_local_keep raw =
    env_int raw (record { name = text "CSM_PROBE_LOCAL_KEEP"; min = some 0; max = none }) 0

unfoldable pub resolve_eager_recalls : Option Text → EnvResult Bool
resolve_eager_recalls raw = env_flag raw (text "CSM_EAGER_RECALLS") false

unfoldable pub resolve_probe_index_chars : Option Text → EnvResult ℕ
resolve_probe_index_chars raw = env_positive_int raw (named (text "CSM_PROBE_INDEX_CHARS")) 1200

unfoldable pub resolve_probe_full_scan : Option Text → EnvResult Bool
resolve_probe_full_scan raw = env_flag raw (text "CSM_PROBE_FULL_SCAN") false

unfoldable pub resolve_signals_ranker : Environment → EnvResult Bool
resolve_signals_ranker env =
    env_flag (env (text "CSM_SIGNALS_RANKER")) (text "CSM_SIGNALS_RANKER") false

-- What a query asks for, as `ask` classifies it.
pub record QueryIntentFacets : Type 0 where
  pub summary : Bool
  pub ordering : Bool
  pub temporal_arithmetic : Bool
  pub aggregation : Bool

pub data IntentKind : Type 0 where
  point coverage : IntentKind

pub record QueryIntent : Type 0 where
  pub kind : IntentKind
  pub facets : QueryIntentFacets
  pub cues : List Text

unfoldable pub resolve_coverage_mode : Option Text → EnvResult Bool
resolve_coverage_mode raw = env_flag raw (text "CSM_COVERAGE") true

abbrev pub tokens_for : IntentKind → ℕ → Option Text → EnvResult ℕ
tokens_for point base raw = ok base
tokens_for coverage base raw = env_positive_int raw (named (text "CSM_COVERAGE_RECALL_TOKENS")) 3200

unfoldable pub resolve_coverage_recall_tokens : QueryIntent → ℕ → Option Text → EnvResult ℕ
resolve_coverage_recall_tokens intent base raw = tokens_for intent.kind base raw

unfoldable pub resolve_coverage_max_entries : QueryIntent → Option Text → Bool → EnvResult ℕ
resolve_coverage_max_entries intent raw starvation =
    let fallback =
      if starvation || intent.facets.ordering || intent.facets.temporal_arithmetic
      then 32
      else 24 in
    env_positive_int raw (named (text "CSM_COVERAGE_MAX_ENTRIES")) fallback

unfoldable pub resolve_coverage_starvation_floor : Option Text → EnvResult ℕ
resolve_coverage_starvation_floor raw =
    env_int raw (record { name = text "CSM_COVERAGE_STARVATION_FLOOR"; min = some 0; max = none }) 4
