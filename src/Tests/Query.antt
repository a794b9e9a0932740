-- ===== src/Tests/Query.antt =====
-- Runs of the query side: recall, packet, probe and the provider's answers.
use context_swarm_memory.Prelude.{
  Bool, true, false, List, Text, ◌==◌, ◌⊎◌, ◌++◌, length, list_eq, nat_eq_inst, ℕ, ◌≤◌, ◌≡◌, refl,
  none, some, [], ◌∷◌, if◌then◌else◌, leb, text, All, list_beq, arith,
}
use context_swarm_memory.Ids.{decimal}
use context_swarm_memory.Memory.{MemoryEvent, EventRole, MemoryShardSnapshot}
use context_swarm_memory.Recall.{RecallResult, recall_result}
use context_swarm_memory.Recall.Grounded.{IsGrounded, recall_result-IsGrounded}
use context_swarm_memory.ProviderJson.{
  CompleteJsonInput, Outside, Data, no_usage, validated, complete_and_validate,
}
use context_swarm_memory.ProviderJson.Attempts.{Ends, complete_and_validate-Ends}
use context_swarm_memory.Env.{env_positive_int}
use context_swarm_memory.Settings.{
  Environment, max_probe_shards, resolve_recall_budget, resolve_shard_count,
  resolve_probe_index_chars,
}
use context_swarm_memory.Settings.Positive.{resolve_positive}
use context_swarm_memory.Terms.{tokenize, prefix_match}
use context_swarm_memory.Terms.Match.{prefix_match-split}
use context_swarm_memory.Packet.{MemoryPacketClaim, packet_from_single_recall}
use context_swarm_memory.Packet.Sources.{IsSource, packet_from_single_recall-IsSource}
use context_swarm_memory.Probe.{
  Verdict, ProbeResult, direct, high, reconcile, padded, probe_qualifies_for_recall, score_probe,
}
use context_swarm_memory.Probe.Reconciled.{AreResults, reconcile-AreResults}
use context_swarm_memory.Probe.Recall.{probe_qualifies_for_recall_mono}

abbrev event : MemoryEvent
event = record {
  event_id = text "e_0001";
  role = EventRole.user;
  content = text "likes tea";
  created_at = text "2026-01-01";
  importance = 500000;
  tags = [];
  source_conversation_id = none;
  source_message_id = none;
}

abbrev shard : MemoryShardSnapshot
shard = record {
  shard_id = text "notes";
  snapshot_id = text "S002";
  system_prompt = [];
  summary = [];
  events = event ∷ [];
  index_terms = [];
  created_at = text "2026-01-01";
  parent_snapshot_id = none;
}

-- The second citation is made up.
abbrev answer : RecallResult
answer = record {
  shard_id = text "notes";
  snapshot_id = text "S002";
  confidence = 900000;
  answer = text "tea";
  claims =
      record {
        claim = text "likes tea";
        support = text "e_0001" ∷ text "e_0099" ∷ [];
        confidence = 900000;
      }
      ∷ [];
  unknowns = [];
  conflicts = [];
}

one_dropped :
    (recall_result shard answer).conflicts
    ≡ text "citation: 1 support id(s) not present in notes@S002 were dropped." ∷ []
unfolding recall_result list_beq decimal
one_dropped = refl

recall_result-IsGrounded_example : IsGrounded shard answer (recall_result shard answer)
recall_result-IsGrounded_example = recall_result-IsGrounded shard answer

-- Numbers stand for JSON values, and those from 10 on fit. The first answer is an array of which the
-- first element fits, the text is no JSON.
abbrev outside : Outside ℕ ℕ
outside = record {
  complete_json = λ i input. some (record {
    answer = Data.value i;
    raw_text = text "raw";
    usage = record no_usage { input_tokens_estimate = 7 };
  });
  extract_json = λ s. none;
  elements = λ j. if leb 1 j then some (12 ∷ 3 ∷ []) else none;
  parse = λ j. if leb 10 j then some j else none;
}

abbrev question : CompleteJsonInput
question = record { system = text "S"; prompt = text "P"; schema_name = text "RecallResult" }

accepted_at_retry :
    complete_and_validate outside question
    ≡ validated (record {
      accepted = 12;
      raw = text "raw";
      total = record no_usage { input_tokens_estimate = 14 };
    })
unfolding complete_and_validate
accepted_at_retry = refl

complete_and_validate-Ends_example : Ends outside question (complete_and_validate outside question)
complete_and_validate-Ends_example = complete_and_validate-Ends outside question

packet_from_single_recall-IsSource_example :
    All
      (λ (c : MemoryPacketClaim). All (IsSource shard) c.sources)
      (packet_from_single_recall (text "drink?") (recall_result shard answer)).key_claims
packet_from_single_recall-IsSource_example =
    packet_from_single_recall-IsSource shard (text "drink?") answer

-- The model names the shard twice, and another that nobody asked about.
abbrev verdict : Text → Bool → Verdict
verdict shard_id knows = record {
  shard_id = shard_id;
  knows = knows;
  confidence = 800000;
  memory_type = direct;
  estimated_answer_value = high;
  needs_full_recall = false;
  relevant_event_ids = text "e_0001" ∷ text "e_0099" ∷ [];
}

abbrev verdicts : List Verdict
verdicts =
    verdict (text "ghost") true ∷ verdict (text "notes") true ∷ verdict (text "notes") false ∷ []

abbrev other_shard : MemoryShardSnapshot
other_shard = record shard { shard_id = text "work" }

two_results :
    reconcile verdicts (shard ∷ other_shard ∷ [])
    ≡ record {
      shard_id = text "notes";
      snapshot_id = text "S002";
      knows = true;
      confidence = 800000;
      memory_type = direct;
      estimated_answer_value = high;
      needs_full_recall = false;
      relevant_event_ids = text "e_0001" ∷ [];
    }
      ∷ padded other_shard
      ∷ []
unfolding reconcile list_beq
two_results = refl

reconcile-AreResults_example :
    AreResults verdicts (shard ∷ other_shard ∷ []) (reconcile verdicts (shard ∷ other_shard ∷ []))
reconcile-AreResults_example = reconcile-AreResults verdicts (shard ∷ other_shard ∷ [])

abbrev likely : ProbeResult
likely = record (padded shard) {
  knows = true;
  confidence = 700000;
  memory_type = direct;
  estimated_answer_value = high;
}

probe_qualifies_for_recall_mono_example :
    (probe_qualifies_for_recall (record likely { confidence = 900000 }) 500000 ≡ true)
    × (score_probe likely ≤ score_probe (record likely { confidence = 900000 }))
unfolding probe_qualifies_for_recall padded
probe_qualifies_for_recall_mono_example =
    probe_qualifies_for_recall_mono likely 500000 900000 (omega arith) refl

-- Two settings are set, with a stray space; the third is not.
abbrev environment : Environment
environment name =
    if name == text "CSM_RECALL_BUDGET"
    then some (text " 600")
    else if name == text "CSM_MAX_PROBE_SHARDS"
    then some (text "16")
    else none

abbrev sixteen : ℕ
sixteen = 16

resolve_positive_example : (1 ≤ 600) × (1 ≤ sixteen) × (1 ≤ 1200)
unfolding resolve_recall_budget resolve_shard_count resolve_probe_index_chars env_positive_int
    list_beq
resolve_positive_example =
    resolve_positive max_probe_shards 1200 8 environment none 600 sixteen 1200 (omega arith)
      (omega arith) refl refl refl

tokens : tokenize (text "What is the Auth-Token?") ≡ text "auth" ∷ text "token" ∷ []
unfolding tokenize list_beq
tokens = refl

prefix_match-split_example :
    (text "authentication" ≡ text "auth")
    ⊎ (((rest : Text) × (text "auth" ≡ text "authentication" ++ rest)
          × (4 ≤ length (text "authentication")))
        ⊎ ((rest : Text) × (text "authentication" ≡ text "auth" ++ rest)
            × (4 ≤ length (text "auth"))))
unfolding prefix_match list_beq
prefix_match-split_example = prefix_match-split (text "authentication") (text "auth") refl
