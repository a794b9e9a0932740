-- ===== src/Packet/Sources.antt =====
-- From a recall to the packet: every source is an event that is there.
use context_swarm_memory.Prelude.{◌≡◌, refl, true, List, [], ◌∷◌, ◌++◌, map, All, Text, text}
use context_swarm_memory.Memory.{MemoryShardSnapshot}
use context_swarm_memory.Recall.{RecallClaim, RecallResult, known, recall_result}
use context_swarm_memory.Recall.Grounded.{recall_result-IsGrounded}
use context_swarm_memory.Packet.{
  MemoryPacketClaim, source_tag, packet_claim, packet_from_single_recall,
}

module _ (snapshot : MemoryShardSnapshot) where
  -- A source that names an event of the snapshot, as shard, snapshot and event.
  pub record IsSource (source : Text) : Type 0 where
    pub event_id : Text
    pub there : known snapshot event_id ≡ true
    pub spelled :
        source ≡ (snapshot.shard_id ++ text "@" ++ snapshot.snapshot_id) ++ text ":" ++ event_id

  sources-All :
      (ids : List Text)
      → All (λ i. known snapshot i ≡ true) ids
      → All IsSource
          (map (λ i. (snapshot.shard_id ++ text "@" ++ snapshot.snapshot_id) ++ text ":" ++ i) ids)
  sources-All [] h = tt
  sources-All (i ∷ ids) h =
      (record { event_id = i; there = h.0; spelled = refl }, sources-All ids h.1)

  claims-All :
      (cs : List RecallClaim)
      → All (λ (c : RecallClaim). All (λ i. known snapshot i ≡ true) c.support) cs
      → All
          (λ (c : MemoryPacketClaim). All IsSource c.sources)
          (map (packet_claim (snapshot.shard_id ++ text "@" ++ snapshot.snapshot_id)) cs)
  unfolding packet_claim
  claims-All [] h = tt
  claims-All (c ∷ cs) h = (sources-All c.support h.0, claims-All cs h.1)

  -- Whatever the model answered to a recall, every source of every claim in the packet that is made of
  -- it alone names an event of the snapshot that was recalled.
  pub packet_from_single_recall-IsSource :
      (user_query : Text) (echoed : RecallResult)
      → All
          (λ (c : MemoryPacketClaim). All IsSource c.sources)
          (packet_from_single_recall user_query (recall_result snapshot echoed)).key_claims
  unfolding packet_from_single_recall source_tag recall_result
  packet_from_single_recall-IsSource user_query echoed =
      claims-All (recall_result snapshot echoed).claims
        (recall_result-IsGrounded snapshot echoed).cited
