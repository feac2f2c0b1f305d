-- ===== src/Store/Watch/Publish.antt =====
-- The publication of a mutation's events to the history and the watches, in
-- src/in_memory_metadata_store.cpp.
use kura_metadata_store.Prelude.{
  ℕ, suc, Bool, true, false, ◌&&◌, not, Option, none, some, List, [], ◌∷◌, ◌++◌, ltb, leb,
  if◌then◌else◌, length,
}
use kura_metadata_store.Prelude.Int.{ℤ, pos}
use kura_metadata_store.Prelude.Status.{StatusCode}
use kura_metadata_store.Bytes.{
  KeyRange, ByteSequence, ltb_bytes, leb_bytes, key_is, is_empty_bytes, bytes_ord, int_ord,
}
use kura_metadata_store.OrderedMap.{Map}
use kura_metadata_store.Store.Types.{
  InMemoryMetadataStore, WatchId, WatchRequest, WatchResponse, WatchState, WatchEvent, EventBatch,
  StagedWatchPublication, MutationEvent, MutationEventType, WatchFilter, exclude_put, exclude_erase,
  ResponseHeader, KeyValue,
}

-- `ResponseHeader{.revision = revision}`.
abbrev pub header_at : ℤ → ResponseHeader
header_at revision = record { cluster_id = 0; member_id = 0; revision = revision; raft_term = 0 }

-- A response with events, and one that ends the watch.
abbrev pub events_response : ℤ → WatchId → List WatchEvent → WatchResponse
events_response revision id events = record {
  header = header_at revision;
  id = id;
  events = events;
  compact_revision = pos 0;
  status = StatusCode.ok;
  cancelled = false;
}

abbrev pub overflow_response : ℤ → WatchId → WatchResponse
overflow_response revision id = record {
  header = header_at revision;
  id = id;
  events = [];
  compact_revision = pos 0;
  status = StatusCode.quota_exceeded;
  cancelled = true;
}

-- The two tests of `watch_matches` on the filter.
unfoldable pub filtered_out : WatchFilter → MutationEventType → Bool
filtered_out exclude_put MutationEventType.put = true
filtered_out exclude_erase MutationEventType.erase = true
filtered_out _ _ = false

-- `current` where there is one, else `previous`; without either the source reads an empty optional,
-- and every event that the store makes has one.
unfoldable pub event_value : MutationEvent → Option KeyValue
event_value e = elim e.current [ none ↦ e.previous | some v ↦ some v ]

unfoldable pub key_in_watch : KeyRange → ByteSequence → Bool
key_in_watch range key =
    if is_empty_bytes range.stop
    then key_is key range.start
    else leb_bytes range.start key && ltb_bytes key range.stop

unfoldable pub value_in_watch : KeyRange → Option KeyValue → Bool
value_in_watch range none = false
value_in_watch range (some v) = key_in_watch range v.key

unfoldable pub watch_matches : WatchRequest → WatchEvent → Bool
unfolding filtered_out event_value value_in_watch key_in_watch
watch_matches request event =
    if filtered_out request.filter event.mutation.type
    then false
    else value_in_watch request.range (event_value event.mutation)

unfoldable pub matching : WatchRequest → List WatchEvent → List WatchEvent
matching request [] = []
matching request (e ∷ es) =
    if watch_matches request e then e ∷ matching request es else matching request es

abbrev pub nothing_to_send : WatchRequest → List WatchEvent → Bool
nothing_to_send request [] = not request.progress_notifications
nothing_to_send request (e ∷ es) = false

-- A response goes to the end of the queue, or, where the queue is full, ends the watch.
unfoldable pub enqueue_events : ℕ → ℤ → WatchId → List WatchEvent → WatchState → WatchState
enqueue_events max_pending revision id events state =
    if leb max_pending (length state.pending)
    then record state { pending = []; terminal = some (overflow_response revision id) }
    else record state { pending = state.pending ++ events_response revision id events ∷ [] }

unfoldable pub publish_live : ℕ → ℤ → WatchId → List WatchEvent → WatchState → WatchState
unfolding enqueue_events
publish_live max_pending revision id events state =
    if nothing_to_send state.request (matching state.request events)
    then state
    else enqueue_events max_pending revision id (matching state.request events) state

-- A watch that has ended is left alone.
unfoldable pub publish_to : ℕ → ℤ → WatchId → List WatchEvent → WatchState → WatchState
unfolding publish_live
publish_to max_pending revision id events state = elim state.terminal [
  | none ↦ publish_live max_pending revision id events state
  | some t ↦ state
]

unfoldable pub publish_all :
    ℕ → ℤ → List WatchEvent → Map WatchId WatchState → Map WatchId WatchState
unfolding publish_to
publish_all max_pending revision events [] = []
publish_all max_pending revision events ((id, state) ∷ rest) =
    (id, publish_to max_pending revision id events state)
    ∷ publish_all max_pending revision events rest

-- The loop that drops the oldest batches; it ends with the compaction revision and what is kept.
unfoldable pub trim_history : ℕ → ℤ → List EventBatch → ℤ × List EventBatch
trim_history max_history compact [] = (compact, [])
trim_history max_history compact (b ∷ bs) =
    let rest = trim_history max_history b.revision bs in
    if ltb max_history (suc (length bs)) then rest else (compact, b ∷ bs)

unfoldable pub stage_watch_publication_locked :
    InMemoryMetadataStore → List WatchEvent → ℤ → StagedWatchPublication
unfolding publish_all trim_history
stage_watch_publication_locked s events mutation_revision =
    let trimmed =
      trim_history s.limits.max_watch_history_revisions s.compact_revision
        (s.history ++ record { revision = mutation_revision; events = events } ∷ []) in
    record {
      history = trimmed.1;
      watchers =
          publish_all s.limits.max_watch_pending_responses mutation_revision events s.watchers;
      compact_revision = trimmed.0;
    }

unfoldable pub commit_watch_publication_locked :
    InMemoryMetadataStore → StagedWatchPublication → InMemoryMetadataStore
commit_watch_publication_locked s p = record s {
  history = p.history;
  watchers = p.watchers;
  compact_revision = p.compact_revision;
}
