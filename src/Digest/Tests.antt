-- ===== src/Digest/Tests.antt =====
-- Digests of two events.
use context_swarm_memory.Prelude.{
  ◌≤◌, ◌≡◌, refl, true, false, none, some, List, [], ◌∷◌, ◌++◌, Text, text, length, arith, list_eq,
  nat_eq_inst, list_beq,
}
use context_swarm_memory.Budget.{estimate_tokens}
use context_swarm_memory.Truncate.{truncate}
use context_swarm_memory.Memory.{MemoryEvent, MemoryShardSnapshot, EventRole}
use context_swarm_memory.Digest.{
  DigestEvent, SelectEventDigestOptions, EventDigestSelection, body_of, digest_from,
  order_candidates, select_event_digest, shown, marker, render_line,
}
use context_swarm_memory.Digest.Salience.{salient_within_budget}
use context_swarm_memory.Digest.Packed.{IsDigest, select_event_digest-IsDigest}
use context_swarm_memory.Digest.Bounds.{body_of-le}
use context_swarm_memory.Digest.Index.{compact_event_index}

abbrev event : Text → Text → DigestEvent
event id content = record {
  event_id = id;
  role = text "user";
  content = content;
  created_at = some (text "2026-01-02T03:04:05Z");
  tags = text "tea" ∷ [];
}

abbrev events : List DigestEvent
events = event (text "e1") (text "likes tea") ∷ event (text "e2") (text "no milk") ∷ []

-- Room for one line of twelve tokens; the probe found the second event.
abbrev opts : SelectEventDigestOptions
opts = record {
  max_tokens = 12;
  per_event_chars = none;
  hint = some (text "e2" ∷ []);
  reorder_by_salience = false;
  salient_truncation = false;
  query = none;
}

abbrev digest : EventDigestSelection
digest = record {
  digest =
      text "- [e2] (user 2026-01-02) no milk  tags=[tea]"
      ++ 10 ∷ text "- (… 1 more events truncated to fit budget)";
  selected_ids = text "e2" ∷ [];
  used_tokens = 11;
  dropped_count = 1;
}

made : select_event_digest events opts ≡ some digest
unfolding select_event_digest digest_from order_candidates list_beq body_of truncate render_line
    estimate_tokens marker shown
made = refl

select_event_digest-IsDigest_example : IsDigest events opts digest
select_event_digest-IsDigest_example = select_event_digest-IsDigest events opts digest made

abbrev salient : SelectEventDigestOptions
salient = record opts {
  salient_truncation = true;
  per_event_chars = some 20;
  query = some (text "price?");
}

abbrev long : DigestEvent
long = event (text "e3") (text "We talked. The price is $5. Then we left.")

answer_bearing : body_of salient (text "price" ∷ []) long ≡ text "The price is $5."
unfolding body_of list_beq salient_within_budget
answer_bearing = refl

body_of-le_example : length (body_of salient (text "price" ∷ []) long) ≤ 20
body_of-le_example = body_of-le salient (text "price" ∷ []) long (omega arith)

abbrev memory_event : Text → Text → MemoryEvent
memory_event id content = record {
  event_id = id;
  role = EventRole.user;
  content = content;
  created_at = [];
  importance = 0;
  tags = text "amb" ∷ [];
  source_conversation_id = none;
  source_message_id = none;
}

abbrev shard : MemoryShardSnapshot
shard = record {
  shard_id = text "notes";
  snapshot_id = text "S001";
  system_prompt = [];
  summary = [];
  events =
      memory_event (text "e1") (text "likes  tea") ∷ memory_event (text "e2") (text "no milk") ∷ [];
  index_terms = [];
  created_at = [];
  parent_snapshot_id = none;
}

-- The event about milk leads, and tags that all events share are left out.
indexed :
    compact_event_index false shard 18 (some (text "which milk?"))
    ≡ text "- [e2] \"no milk\"" ++ 10 ∷ text "- (… 1 more events truncated)"
unfolding compact_event_index list_beq
indexed = refl
