-- ===== src/Memory.antt =====
-- src/core/types.ts: the records of the durable memory. A field that may be absent or `null` is an
-- `Option`; a number between 0 and 1 counts millionths. `ChronicleEvent.meta` is left out: nothing
-- that is modelled writes it.
use context_swarm_memory.Prelude.{ℕ, Bool, Option, List, Text, text}

pub data ShardStatus : Type 0 where
  active frozen archived deleted : ShardStatus

pub data TrustLevel : Type 0 where
  user_memory project_memory imported_doc inferred : TrustLevel

pub data Staleness : Type 0 where
  current possibly_stale stale : Staleness

pub data CommitAction : Type 0 where
  write update split merge freeze no_op ask_confirmation : CommitAction

pub data CommitMemoryType : Type 0 where
  user_preference project_decision fact correction inference no_type : CommitMemoryType

pub data CommitSource : Type 0 where
  current_conversation user_confirmation system_inference : CommitSource

pub data EventRole : Type 0 where
  user assistant system commit_note : EventRole

unfoldable pub role_text : EventRole → Text
role_text user = text "user"
role_text assistant = text "assistant"
role_text system = text "system"
role_text commit_note = text "commit_note"

pub record TimeRange : Type 0 where
  pub from_time : Option Text
  pub to_time : Option Text

pub record MemoryDirectoryEntry : Type 0 where
  pub id : Text
  pub name : Text
  pub description : Text
  pub tags : List Text
  pub created_at : Text
  pub updated_at : Text
  pub time_range : Option TimeRange
  pub status : ShardStatus
  pub snapshot_id : Text
  pub token_count_estimate : ℕ
  pub context_limit_estimate : ℕ
  -- In hundredths of a percent.
  pub fullness_pct : ℕ
  pub summary_short : Text
  pub known_conflicts : List Text
  pub parent_id : Option Text
  pub children : List Text
  pub trust_level : TrustLevel
  pub staleness : Staleness

pub record MemoryDirectory : Type 0 where
  pub version : ℕ
  pub entries : List MemoryDirectoryEntry

pub record MemoryEvent : Type 0 where
  pub event_id : Text
  pub role : EventRole
  pub content : Text
  pub created_at : Text
  pub importance : ℕ
  pub tags : List Text
  pub source_conversation_id : Option Text
  pub source_message_id : Option Text

pub record MemoryShardSnapshot : Type 0 where
  pub shard_id : Text
  pub snapshot_id : Text
  pub system_prompt : Text
  pub summary : Text
  pub events : List MemoryEvent
  pub index_terms : List Text
  pub created_at : Text
  pub parent_snapshot_id : Option Text

pub record ShardManifest : Type 0 where
  pub id : Text
  pub name : Text
  pub description : Text
  pub tags : List Text
  pub created_at : Text
  pub updated_at : Text
  pub status : ShardStatus
  pub latest_snapshot_id : Text
  pub snapshot_ids : List Text
  pub context_limit_estimate : ℕ
  pub trust_level : TrustLevel
  pub parent_id : Option Text
  pub children : List Text

pub record CommitDecision : Type 0 where
  pub action : CommitAction
  pub target_shard_id : Option Text
  pub memory_type : CommitMemoryType
  pub content : Text
  pub confidence : ℕ
  pub requires_user_confirmation : Bool
  pub tags : List Text
  pub source : CommitSource

pub data ChronicleType : Type 0 where
  init shard_created commit_write commit_update commit_correction shard_frozen shard_split
        shard_merged shard_archived :
      ChronicleType

pub data Actor : Type 0 where
  user committer system : Actor

pub record ChronicleEvent : Type 0 where
  pub chronicle_id : Text
  pub type : ChronicleType
  pub created_at : Text
  pub target_shard_id : Option Text
  pub old_snapshot_id : Option Text
  pub new_snapshot_id : Option Text
  pub reason : Text
  pub actor : Actor

-- A candidate of the router. A score counts millionths.
pub record CandidateScore : Type 0 where
  pub entry : MemoryDirectoryEntry
  pub score : ℕ
  pub reasons : List Text
