-- ===== src/Store/Types.antt =====
-- The requests, results and state of the store: include/kura/metadata/{kv,lease,watch}/*.hpp and
-- include/kura/metadata/in_memory_metadata_store.hpp. `LeaseId`, `WatchId` and `Revision` are
-- structs of one `std::int64_t`, `FencingToken`, `LeaseTick` and `LeaseDuration` of one
-- `std::uint64_t`; they stand for that number.
use kura_metadata_store.Prelude.{ℕ, Bool, Option, List}
use kura_metadata_store.Prelude.Int.{ℤ}
use kura_metadata_store.Prelude.Status.{StatusCode}
use kura_metadata_store.Bytes.{ByteSequence, KeyRange}
use kura_metadata_store.OrderedMap.{Map, Set}

abbrev pub LeaseId : Type 0
LeaseId = ℤ

abbrev pub WatchId : Type 0
WatchId = ℤ

abbrev pub Revision : Type 0
Revision = ℤ

abbrev pub FencingToken : Type 0
FencingToken = ℕ

abbrev pub LeaseTick : Type 0
LeaseTick = ℕ

abbrev pub LeaseDuration : Type 0
LeaseDuration = ℕ

pub record StoreLimits : Type 0 where
  pub max_key_bytes : ℕ
  pub max_value_bytes : ℕ
  pub max_transaction_operations : ℕ
  pub max_watchers : ℕ
  pub max_watch_history_revisions : ℕ
  pub max_watch_pending_responses : ℕ
  pub max_active_leases : ℕ

pub record ResponseHeader : Type 0 where
  pub cluster_id : ℕ
  pub member_id : ℕ
  pub revision : ℤ
  pub raft_term : ℕ

pub record KeyValue : Type 0 where
  pub key : ByteSequence
  pub value : ByteSequence
  pub version : ℤ
  pub create_revision : ℤ
  pub mod_revision : ℤ
  pub lease_id : ℤ

pub record StoreRead : Type 0 where
  pub value : Option KeyValue
  pub revision : ℤ

pub record RangeRead : Type 0 where
  pub values : List KeyValue
  pub revision : ℤ

pub record PutResult : Type 0 where
  pub current : KeyValue
  pub previous : Option KeyValue
  pub revision : ℤ

pub record DeleteResult : Type 0 where
  pub deleted : Bool
  pub previous : Option KeyValue
  pub revision : ℤ

pub record CompareAndSetResult : Type 0 where
  pub succeeded : Bool
  pub current : Option KeyValue
  pub revision : ℤ

pub data MutationEventType : Type 0 where
  put erase : MutationEventType

pub record MutationEvent : Type 0 where
  pub type : MutationEventType
  pub current : Option KeyValue
  pub previous : Option KeyValue

pub record WatchEvent : Type 0 where
  pub revision : Revision
  pub mutation : MutationEvent

pub data WatchFilter : Type 0 where
  include_all exclude_put exclude_erase : WatchFilter

pub record WatchRequest : Type 0 where
  pub id : WatchId
  pub range : KeyRange
  pub start_revision : Revision
  pub filter : WatchFilter
  pub progress_notifications : Bool

pub record WatchResponse : Type 0 where
  pub header : ResponseHeader
  pub id : WatchId
  pub events : List WatchEvent
  pub compact_revision : ℤ
  pub status : StatusCode
  pub cancelled : Bool

pub record LeaseOwnership : Type 0 where
  pub id : LeaseId
  pub fencing_token : FencingToken

pub record LeaseRecord : Type 0 where
  pub id : LeaseId
  pub fencing_token : FencingToken
  pub granted_ttl : LeaseDuration
  pub expiry_tick : LeaseTick
  pub attached_keys : List ByteSequence

pub record LeaseGrantRequest : Type 0 where
  pub requested_id : LeaseId
  pub ttl : LeaseDuration
  pub tick : LeaseTick

pub record LeaseKeepAliveRequest : Type 0 where
  pub id : LeaseId
  pub fencing_token : FencingToken
  pub tick : LeaseTick

pub record LeaseTimeToLiveRequest : Type 0 where
  pub id : LeaseId
  pub tick : LeaseTick

pub record LeaseRevokeRequest : Type 0 where
  pub id : LeaseId
  pub fencing_token : FencingToken
  pub tick : LeaseTick

pub data LeaseResultCode : Type 0 where
  ok not_found expired fencing_token_mismatch : LeaseResultCode

pub record LeaseGrantResult : Type 0 where
  pub lease : LeaseRecord
  pub revision : ℤ

pub record LeaseLookupResult : Type 0 where
  pub code : LeaseResultCode
  pub lease : Option LeaseRecord
  pub remaining_ttl : LeaseDuration
  pub revision : ℤ

pub record LeaseCleanupResult : Type 0 where
  pub code : LeaseResultCode
  pub leases : List LeaseId
  pub deleted_keys : List KeyValue
  pub revision : ℤ

pub record EventBatch : Type 0 where
  pub revision : ℤ
  pub events : List WatchEvent

pub record WatchState : Type 0 where
  pub request : WatchRequest
  pub pending : List WatchResponse
  pub terminal : Option WatchResponse

pub record StagedWatchPublication : Type 0 where
  pub history : List EventBatch
  pub watchers : Map WatchId WatchState
  pub compact_revision : ℤ

pub record StoredLease : Type 0 where
  pub fencing_token : FencingToken
  pub granted_ttl : LeaseDuration
  pub expiry_tick : LeaseTick
  pub attached_keys : Set ByteSequence

pub record InMemoryStoreSnapshot : Type 0 where
  pub values : List KeyValue
  pub leases : List LeaseRecord
  pub revision : ℤ
  pub logical_tick : LeaseTick
  pub next_lease_id : ℤ
  pub next_fencing_token : FencingToken

-- The members of `InMemoryMetadataStore`, but for its mutex: each method holds it from end to end,
-- so a method is one step here.
pub record InMemoryMetadataStore : Type 0 where
  pub values : Map ByteSequence KeyValue
  pub limits : StoreLimits
  pub revision : ℤ
  pub compact_revision : ℤ
  pub history : List EventBatch
  pub watchers : Map WatchId WatchState
  pub leases : Map LeaseId StoredLease
  pub logical_tick : LeaseTick
  pub next_lease_id : ℤ
  pub next_fencing_token : FencingToken
