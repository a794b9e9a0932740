-- ===== src/Ask/Record.antt =====
-- The record of a run, and what of it is degenerate.
use context_swarm_memory.Prelude.{
  Bool, false, not, ◌&&◌, Option, none, some, List, [], ◌∷◌, ◌++◌, map, if◌then◌else◌, Text, text,
}
use context_swarm_memory.Ids.{decimal}
use context_swarm_memory.Memory.{CandidateScore}
use context_swarm_memory.Selection.{DegenerateReason, no_candidates, no_signal, ties_at_cut, Ratio}
use context_swarm_memory.Probe.{ProbeResult}
use context_swarm_memory.Recall.{RecallResult}
use context_swarm_memory.Ask.{
  RouterPath, lexical, hybrid, hybrid_fallback_no_index, hybrid_fallback_embed_failed,
  SelectionSummary, AskSettings, AskOutside,
}
use context_swarm_memory.Ask.Run.{AskRunCost, AskRunResult}

unfoldable pub reason_text : Option DegenerateReason → Text
reason_text none = text "degenerate"
reason_text (some no_candidates) = text "no-candidates"
reason_text (some no_signal) = text "no-signal"
reason_text (some ties_at_cut) = text "ties-at-cut"

unfoldable pub path_text : Option RouterPath → Text
path_text none = text "?"
path_text (some lexical) = text "lexical"
path_text (some hybrid) = text "hybrid"
path_text (some hybrid_fallback_no_index) = text "hybrid-fallback-no-index"
path_text (some hybrid_fallback_embed_failed) = text "hybrid-fallback-embed-failed"

pub record QueryRunRecord : Type 0 where
  pub run_id : Text
  pub query : Text
  pub started_at : Text
  pub finished_at : Text
  pub candidate_ids : List Text
  pub probed_ids : List Text
  pub recalled_ids : List Text
  pub packet_summary : Text
  pub cost : AskRunCost
  pub mutated : Bool
  pub provider_name : Text
  pub router_discriminated : Bool
  pub recall_discriminated : Bool
  pub degenerate : List Text

-- `to_fixed` is `toFixed(2)` of a quotient.
module _ (to_fixed : Ratio → Text) where
  unfoldable pub router_note : SelectionSummary → List Text
  unfolding reason_text path_text
  router_note s =
      if s.discriminated
      then []
      else (text "router: "
          ++ reason_text s.degenerate_reason
          ++ text " ("
          ++ path_text s.path
          ++ text ", signal "
          ++ to_fixed s.signal_ratio
          ++ text " of "
          ++ decimal s.total_candidates
          ++ text ")")
        ∷ []

  unfoldable pub recall_note : SelectionSummary → List Text
  unfolding reason_text
  recall_note s =
      if s.discriminated
      then []
      else (text "recall: "
          ++ reason_text s.degenerate_reason
          ++ text " (signal "
          ++ to_fixed s.signal_ratio
          ++ text " of "
          ++ decimal s.total_candidates
          ++ text ")")
        ∷ []

  unfoldable pub run_record :
      {S : Type 0} → AskSettings → AskOutside S → AskRunResult → QueryRunRecord
  unfolding router_note recall_note
  run_record opts outside r = record {
    run_id = outside.run_id;
    query = opts.query;
    started_at = outside.started_at;
    finished_at = outside.finished_at;
    candidate_ids = map (λ (c : CandidateScore). c.entry.id) r.candidates;
    probed_ids = map (λ (p : ProbeResult). p.shard_id) r.probes;
    recalled_ids = map (λ (q : RecallResult). q.shard_id) r.recalls;
    packet_summary = r.memory_packet.summary;
    cost = r.cost;
    mutated = false;
    provider_name = opts.provider_name;
    router_discriminated = r.router.discriminated;
    recall_discriminated = r.recall.discriminated;
    degenerate = router_note r.router ++ recall_note r.recall;
  }

  -- What `finalize` hands to the storage, if that can log runs.
  unfoldable pub logged :
      {S : Type 0} → AskSettings → AskOutside S → Bool → AskRunResult → Option QueryRunRecord
  unfolding run_record
  logged opts outside can_log r =
      if not opts.skip_query_log && can_log then some (run_record opts outside r) else none
