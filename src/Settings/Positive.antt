-- ===== src/Settings/Positive.antt =====
-- Budgets and counts are never zero.
use context_swarm_memory.Prelude.{ℕ, ◌≤◌, ◌≡◌, Option, some, Text, arith, subst, sym, inl, inr}
use context_swarm_memory.Env.{ok, EnvIntOptions, env_positive_int}
use context_swarm_memory.Env.Meaning.{env_int-range}
use context_swarm_memory.Settings.{
  Environment, CountKey, resolve_recall_budget, resolve_shard_count, resolve_probe_index_chars,
}

positive :
    (raw : Option Text) (opts : EnvIntOptions) (fallback n : ℕ)
    → 1 ≤ fallback
    → env_positive_int raw opts fallback ≡ ok n
    → 1 ≤ n
unfolding env_positive_int
positive raw opts fallback n h e =
    elim (env_int-range raw (record opts { min = some 1 }) fallback n e) [
      | inl (unset, same) ↦ subst (λ k. 1 ≤ k) (sym same) h
      | inr (read, (low, high)) ↦ low
    ]

-- Where the defaults are positive, so are the recall budget and the counts of shards that are read
-- from any environment, and the size of the probe's index is positive.
pub resolve_positive :
    (key : CountKey) (tokens count : ℕ) (env : Environment) (raw : Option Text)
    (budget shards chars : ℕ)
    → 1 ≤ tokens
    → 1 ≤ count
    → resolve_recall_budget tokens env ≡ ok budget
    → resolve_shard_count key count env ≡ ok shards
    → resolve_probe_index_chars raw ≡ ok chars
    → (1 ≤ budget) × (1 ≤ shards) × (1 ≤ chars)
unfolding resolve_recall_budget resolve_shard_count resolve_probe_index_chars
resolve_positive key tokens count env raw budget shards chars h k e f g = (
  positive _ _ tokens budget h e,
  positive _ _ count shards k f,
  positive raw _ 1200 chars (omega arith) g,
)
