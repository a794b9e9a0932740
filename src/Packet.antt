-- ===== src/Packet.antt =====
-- src/core/synthesize.ts: the memory packets that need no model call.
pub mod Sources
use context_swarm_memory.Prelude.{ℕ, List, [], ◌∷◌, ◌++◌, map, Text, text}
use context_swarm_memory.Recall.{RecallClaim, RecallResult}

pub record MemoryPacketClaim : Type 0 where
  pub claim : Text
  pub sources : List Text
  pub confidence : ℕ

-- The optional timeline is added by the coverage code; no packet here has one.
pub record MemoryPacket : Type 0 where
  pub query : Text
  pub summary : Text
  pub key_claims : List MemoryPacketClaim
  pub caveats : List Text
  pub conflicts : List Text
  pub recommended_main_context : Text

unfoldable pub source_tag : RecallResult → Text
source_tag r = r.shard_id ++ text "@" ++ r.snapshot_id

unfoldable pub packet_claim : Text → RecallClaim → MemoryPacketClaim
packet_claim tag c = record {
  claim = c.claim;
  sources = map (λ s. tag ++ text ":" ++ s) c.support;
  confidence = c.confidence;
}

unfoldable pub packet_from_single_recall : Text → RecallResult → MemoryPacket
unfolding source_tag packet_claim
packet_from_single_recall user_query r = record {
  query = user_query;
  summary = r.answer;
  key_claims = map (packet_claim (source_tag r)) r.claims;
  caveats = r.unknowns;
  conflicts = r.conflicts;
  recommended_main_context = source_tag r ++ text ": " ++ r.answer;
}

unfoldable pub empty_packet : Text → MemoryPacket
empty_packet user_query = record {
  query = user_query;
  summary = text "No relevant memory found in any consulted shard.";
  key_claims = [];
  caveats = text "Searched shards yielded no recall." ∷ [];
  conflicts = [];
  recommended_main_context = text "No memory packet available; answer from general knowledge.";
}
