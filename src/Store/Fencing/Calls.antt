-- ===== src/Store/Fencing/Calls.antt =====
-- Runs of the store of src/in_memory_metadata_store.cpp: any sequence of calls of its methods.
use kura_metadata_store.Prelude.{◌≡◌, refl, subst, Option, none, some, List, [], ◌∷◌, arith, inl}
use kura_metadata_store.Prelude.Int.{ℤ}
use kura_metadata_store.Prelude.Exception.{ok, >>=-eq-ok, ok-injective}
use kura_metadata_store.Bytes.{ByteSequence, bytes_ord, int_ord}
use kura_metadata_store.OrderedMap.{Map}
use kura_metadata_store.Store.Types.{
  InMemoryMetadataStore, LeaseTick, WatchId, WatchState, WatchRequest, WatchResponse, PutResult,
  DeleteResult, CompareAndSetResult, LeaseGrantRequest, LeaseGrantResult, LeaseKeepAliveRequest,
  LeaseLookupResult, LeaseRevokeRequest, LeaseCleanupResult,
}
use kura_metadata_store.Store.Watch.{
  check_watch_request, check_watch_room, effective_start, check_start, replay_history, create_watch,
  watch_at, poll_state, poll_watch, request_watch_progress, cancel_watch,
}
use kura_metadata_store.Store.Keys.{put, erase_key, compare_and_set}
use kura_metadata_store.Store.Lease.{grant_lease, keep_alive, revoke_lease, expire_leases}
use kura_metadata_store.Store.Transaction.{TransactionRequest, TransactionResult, transaction}
use kura_metadata_store.Store.Fencing.{Serves, Serves-refl, ok-state}
use kura_metadata_store.Store.Fencing.Keys.{put-Serves, erase_key-Serves, compare_and_set-Serves}
use kura_metadata_store.Store.Fencing.Leases.{
  grant_lease-Grants, keep_alive-Serves, revoke_lease-Serves, expire_leases-Serves,
}
use kura_metadata_store.Store.Fencing.Transactions.{transaction-Serves}

-- A call that returns, for each method that changes the store. `get`, `range`, `time_to_live` and
-- `snapshot` are `const`, and a call that throws leaves the store as it was.
pub data Calls (s s' : InMemoryMetadataStore) : Type 0 where
  put_call : (key value : ByteSequence) (r : PutResult) → put s key value ≡ ok (s', r) → Calls s s'
  erase_call : (key : ByteSequence) (r : DeleteResult) → erase_key s key ≡ ok (s', r) → Calls s s'
  compare_and_set_call :
      (key value : ByteSequence) (expected : ℤ) (r : CompareAndSetResult)
      → compare_and_set s key expected value ≡ ok (s', r)
      → Calls s s'
  transaction_call :
      (request : TransactionRequest) (r : TransactionResult)
      → transaction s request ≡ ok (s', r)
      → Calls s s'
  grant_call :
      (request : LeaseGrantRequest) (r : LeaseGrantResult)
      → grant_lease s request ≡ ok (s', r)
      → Calls s s'
  keep_alive_call :
      (request : LeaseKeepAliveRequest) (r : LeaseLookupResult)
      → keep_alive s request ≡ ok (s', r)
      → Calls s s'
  revoke_call :
      (request : LeaseRevokeRequest) (r : LeaseCleanupResult)
      → revoke_lease s request ≡ ok (s', r)
      → Calls s s'
  expire_call :
      (tick : LeaseTick) (r : LeaseCleanupResult) → expire_leases s tick ≡ ok (s', r) → Calls s s'
  create_watch_call :
      (request : WatchRequest) (r : WatchResponse)
      → create_watch s request ≡ ok (s', r)
      → Calls s s'
  poll_watch_call :
      (id : WatchId) (r : Option WatchResponse) → poll_watch s id ≡ ok (s', r) → Calls s s'
  progress_call : (id : WatchId) → request_watch_progress s id ≡ ok s' → Calls s s'
  cancel_watch_call :
      (id : WatchId) (r : WatchResponse) → cancel_watch s id ≡ ok (s', r) → Calls s s'

-- Only the watchers change.
watchers-Serves :
    (s : InMemoryMetadataStore) (watchers : Map WatchId WatchState)
    → Serves s (record s { watchers = watchers })
watchers-Serves s watchers = record {
  tokens = omega arith;
  fenced = λ h. h;
  tick = omega arith;
  moves = inl (refl, refl, refl);
  history = λ h. h;
  limits = refl;
}

create_watch-Serves :
    (s s' : InMemoryMetadataStore) (request : WatchRequest) (r : WatchResponse)
    → create_watch s request ≡ ok (s', r)
    → Serves s s'
unfolding create_watch
create_watch-Serves s s' request r h =
    let (_, _, h1) = >>=-eq-ok (check_watch_request request) _ h in
    let (_, _, h2) = >>=-eq-ok (check_watch_room s request.id) _ h1 in
    let (start, _, h3) = >>=-eq-ok (effective_start s request.start_revision) _ h2 in
    let (_, _, h4) = >>=-eq-ok (check_start s start) _ h3 in
    let (_, _, h5) =
      >>=-eq-ok
        (replay_history s.limits.max_watch_pending_responses start s.history (record {
          request = record request { start_revision = start };
          pending = [];
          terminal = none;
        }))
        _ h4 in
    subst (Serves s) (ok-state h5) (watchers-Serves s _)

poll_state-Serves :
    (s : InMemoryMetadataStore) (id : WatchId) (state : WatchState) (t : Option WatchResponse)
    (pending : List WatchResponse)
    → Serves s (poll_state s id state t pending).0
unfolding poll_state
poll_state-Serves s id state (some t) pending = watchers-Serves s _
poll_state-Serves s id state none [] = Serves-refl s
poll_state-Serves s id state none (p ∷ ps) = watchers-Serves s _

poll_watch-Serves :
    (s s' : InMemoryMetadataStore) (id : WatchId) (r : Option WatchResponse)
    → poll_watch s id ≡ ok (s', r)
    → Serves s s'
unfolding poll_watch
poll_watch-Serves s s' id r h =
    let (state, _, done) = >>=-eq-ok (watch_at s id) _ h in
    subst (Serves s) (ok-state done) (poll_state-Serves s id state state.terminal state.pending)

progress-Serves :
    (s s' : InMemoryMetadataStore) (id : WatchId)
    → request_watch_progress s id ≡ ok s'
    → Serves s s'
unfolding request_watch_progress
progress-Serves s s' id h =
    let (_, _, done) = >>=-eq-ok (watch_at s id) _ h in
    subst (Serves s) (ok-injective done) (watchers-Serves s _)

cancel_watch-Serves :
    (s s' : InMemoryMetadataStore) (id : WatchId) (r : WatchResponse)
    → cancel_watch s id ≡ ok (s', r)
    → Serves s s'
unfolding cancel_watch
cancel_watch-Serves s s' id r h =
    let (_, _, done) = >>=-eq-ok (watch_at s id) _ h in
    subst (Serves s) (ok-state done) (watchers-Serves s _)

-- Any call that returns moves the store in this way: the revision stays, and then so do
-- the values and the history, or it goes on by one; neither
-- the tick nor the next fencing token goes back, the limits stay, leases whose tokens are below the
-- next one stay so, and a history within its limit stays within it.
pub Calls-Serves : (s s' : InMemoryMetadataStore) → Calls s s' → Serves s s'
Calls-Serves s s' (put_call key value r h) = put-Serves s s' key value r h
Calls-Serves s s' (erase_call key r h) = erase_key-Serves s s' key r h
Calls-Serves s s' (compare_and_set_call key value expected r h) =
    compare_and_set-Serves s s' key value expected r h
Calls-Serves s s' (transaction_call request r h) = transaction-Serves s s' request r h
Calls-Serves s s' (grant_call request r h) = (grant_lease-Grants s s' request r h).serves
Calls-Serves s s' (keep_alive_call request r h) = keep_alive-Serves s s' request r h
Calls-Serves s s' (revoke_call request r h) = revoke_lease-Serves s s' request r h
Calls-Serves s s' (expire_call tick r h) = expire_leases-Serves s s' tick r h
Calls-Serves s s' (create_watch_call request r h) = create_watch-Serves s s' request r h
Calls-Serves s s' (poll_watch_call id r h) = poll_watch-Serves s s' id r h
Calls-Serves s s' (progress_call id h) = progress-Serves s s' id h
Calls-Serves s s' (cancel_watch_call id r h) = cancel_watch-Serves s s' id r h
