-- ===== src/Store/Watch/Serve.antt =====
-- `create_watch`, `poll_watch`, `request_watch_progress` and `cancel_watch` of
-- src/in_memory_metadata_store.cpp.
use kura_metadata_store.Prelude.{
  is_some, ℕ, true, ◌||◌, ◌&&◌, not, Option, none, some, List, [], ◌∷◌, ◌++◌, leb, if◌then◌else◌,
  length,
}
use kura_metadata_store.Prelude.Int.{ℤ, pos, ltb_ℤ, leb_ℤ, eqb_ℤ, inc_ℤ, i64_max}
use kura_metadata_store.Prelude.Status.{StatusCode}
use kura_metadata_store.Prelude.Exception.{Result, ok, err, store_error, ◌>>=◌, ◌>>◌, throw_if}
use kura_metadata_store.Bytes.{leb_bytes, is_empty_bytes, bytes_ord, int_ord}
use kura_metadata_store.OrderedMap.{find, emplace, assign, erase}
use kura_metadata_store.Store.Types.{
  InMemoryMetadataStore, WatchId, WatchRequest, WatchResponse, WatchState, EventBatch,
}
use kura_metadata_store.Store.Watch.Publish.{
  events_response, matching, nothing_to_send, enqueue_events,
}

-- The tests of `create_watch` on the request alone.
unfoldable pub check_watch_request : WatchRequest → Result (Unit {0})
check_watch_request request = do
  throw_if (leb_ℤ request.id (pos 0))
      (store_error StatusCode.invalid_argument "watch ID must be positive" (pos 0))
  throw_if (is_empty_bytes request.range.start)
      (store_error StatusCode.invalid_argument "watch key must not be empty" (pos 0))
  throw_if
      (not (is_empty_bytes request.range.stop) && leb_bytes request.range.stop request.range.start)
      (store_error StatusCode.invalid_argument "watch range start must be less than range end"
        (pos 0))
  throw_if (ltb_ℤ request.start_revision (pos 0))
      (store_error StatusCode.invalid_argument "watch start revision must not be negative" (pos 0))

unfoldable pub check_watch_room : InMemoryMetadataStore → WatchId → Result (Unit {0})
check_watch_room s id = do
  throw_if (is_some (find id s.watchers))
      (store_error StatusCode.invalid_argument "watch ID is already active" (pos 0))
  throw_if (leb s.limits.max_watchers (length s.watchers))
      (store_error StatusCode.quota_exceeded "active watcher limit reached" (pos 0))

-- The local `start_revision`: 0 asks for the revision after the current one.
unfoldable pub effective_start : InMemoryMetadataStore → ℤ → Result ℤ
effective_start s start =
    if eqb_ℤ start (pos 0)
    then if eqb_ℤ s.revision i64_max
      then err (
          store_error StatusCode.future_revision "no revision exists after the current revision"
            (pos 0))
      else ok (inc_ℤ s.revision)
    else ok start

unfoldable pub check_start : InMemoryMetadataStore → ℤ → Result (Unit {0})
check_start s start = do
  throw_if (leb_ℤ start s.compact_revision) (
      store_error StatusCode.compacted "watch start revision has been compacted" s.compact_revision)
  throw_if
      (ltb_ℤ s.revision start && (eqb_ℤ s.revision i64_max || not (eqb_ℤ start (inc_ℤ s.revision))))
      (store_error StatusCode.future_revision "watch start revision is in the future" (pos 0))

-- One batch of the loop that replays the history.
unfoldable pub replay_batch : ℕ → ℤ → EventBatch → WatchState → Result WatchState
replay_batch max_pending start b state =
    if ltb_ℤ b.revision start || nothing_to_send state.request (matching state.request b.events)
    then ok state
    else if leb max_pending (length state.pending)
    then err (
        store_error StatusCode.quota_exceeded "watch replay exceeds pending response limit" (pos 0))
    else ok (record state {
      pending =
          state.pending
          ++ events_response b.revision state.request.id (matching state.request b.events) ∷ [];
    })

unfoldable pub replay_history : ℕ → ℤ → List EventBatch → WatchState → Result WatchState
unfolding replay_batch
replay_history max_pending start [] state = ok state
replay_history max_pending start (b ∷ bs) state =
    replay_batch max_pending start b state >>= replay_history max_pending start bs

unfoldable pub create_watch :
    InMemoryMetadataStore → WatchRequest → Result (InMemoryMetadataStore × WatchResponse)
unfolding check_watch_request check_watch_room effective_start check_start replay_history
create_watch s request = do
  check_watch_request request
  check_watch_room s request.id
  start ← effective_start s request.start_revision
  check_start s start
  state ← replay_history s.limits.max_watch_pending_responses start s.history (record {
    request = record request { start_revision = start };
    pending = [];
    terminal = none;
  })
  ok (
    record s { watchers = emplace request.id state s.watchers },
    events_response s.revision request.id [],
  )

abbrev pub unknown_watch {ℓ} : {A : Type ℓ} → Result A
unknown_watch = err (store_error StatusCode.invalid_argument "unknown watch ID" (pos 0))

-- `watchers_.find(id)`, where a missing one throws.
unfoldable pub watch_at : InMemoryMetadataStore → WatchId → Result WatchState
watch_at s id = elim (find id s.watchers) [ none ↦ unknown_watch | some state ↦ ok state ]

-- `poll_watch` on the state found: a terminal response ends the watch, else the queue's first goes.
unfoldable pub poll_state :
    InMemoryMetadataStore
    → WatchId
    → WatchState
    → Option WatchResponse
    → List WatchResponse
    → InMemoryMetadataStore × Option WatchResponse
poll_state s id state (some t) pending = (record s { watchers = erase id s.watchers }, some t)
poll_state s id state none [] = (s, none)
poll_state s id state none (p ∷ ps) =
    (record s { watchers = assign id (record state { pending = ps }) s.watchers }, some p)

unfoldable pub poll_watch :
    InMemoryMetadataStore → WatchId → Result (InMemoryMetadataStore × Option WatchResponse)
unfolding watch_at poll_state
poll_watch s id = do state ← watch_at s id; ok (poll_state s id state state.terminal state.pending)

-- `request_watch_progress` on the state found.
unfoldable pub progress_state : ℕ → ℤ → WatchId → WatchState → WatchState
unfolding enqueue_events
progress_state max_pending revision id state = elim state.terminal [
  | none ↦ enqueue_events max_pending revision id [] state
  | some t ↦ state
]

unfoldable pub request_watch_progress :
    InMemoryMetadataStore → WatchId → Result InMemoryMetadataStore
unfolding watch_at progress_state
request_watch_progress s id = do
  state ← watch_at s id
  ok (record s {
    watchers =
        assign id (progress_state s.limits.max_watch_pending_responses s.revision id state)
          s.watchers;
  })

unfoldable pub cancel_watch :
    InMemoryMetadataStore → WatchId → Result (InMemoryMetadataStore × WatchResponse)
unfolding watch_at
cancel_watch s id = do
  state ← watch_at s id
  ok (
    record s { watchers = erase id s.watchers },
    record (events_response s.revision id []) { cancelled = true },
  )
