-- ===== src/Store/Transaction/Apply.antt =====
-- The application of a checked branch in `transaction` of src/in_memory_metadata_store.cpp, to working
-- copies that are installed at the end.
use kura_metadata_store.Prelude.{
  ℕ, suc, Bool, true, false, ◌&&◌, not, none, List, [], ◌∷◌, ◌++◌, leb, ◌==◌, if◌then◌else◌, length,
}
use kura_metadata_store.Prelude.Int.{ℤ, pos, eqb_ℤ}
use kura_metadata_store.Prelude.Exception.{Result, ok, ◌>>=◌}
use kura_metadata_store.Bytes.{ByteSequence, ltb_bytes, bytes_ord, int_ord}
use kura_metadata_store.OrderedMap.{Map, find, assign, erase}
use kura_metadata_store.Store.Types.{
  InMemoryMetadataStore, KeyValue, WatchEvent, LeaseId, StoredLease,
}
use kura_metadata_store.Store.Watch.{header_at}
use kura_metadata_store.Store.Keys.{
  next_revision_locked, detach_key, detach_previous, attach_key, install, next_value, put_event,
  erase_event, lower_bound, below,
}
use kura_metadata_store.Store.Transaction.Types.{
  range_op, put_op, delete_op, range_read, put_result, delete_range_result, RangeRequest,
  PutRequest, DeleteRequest, RequestOperation, TransactionRequest, TransactionOperationResult,
  TransactionResult,
}
use kura_metadata_store.Store.Transaction.Checks.{
  compare_all, no_ownership, check_ownership, plan_all,
}

-- The working copies, the responses and the events.
pub record Working : Type 0 where
  pub values : Map ByteSequence KeyValue
  pub leases : Map LeaseId StoredLease
  pub responses : List TransactionOperationResult
  pub events : List WatchEvent

-- The loop of a range read with its limit; `count` values have been read, and 0 is no limit.
unfoldable pub read_limited : ByteSequence → ℕ → ℕ → Map ByteSequence KeyValue → List KeyValue
read_limited stop limit count [] = []
read_limited stop limit count ((k, v) ∷ m) =
    let rest = read_limited stop limit (suc count) m in
    if ltb_bytes k stop && not (not (limit == 0) && leb limit count) then v ∷ rest else []

unfoldable pub apply_range : ℤ → RangeRequest → Working → Working
unfolding read_limited
apply_range revision q w = record w {
  responses =
      w.responses
      ++ range_read (record {
        values = read_limited q.range.stop q.limit 0 (lower_bound q.range.start w.values);
        revision = revision;
      })
        ∷ [];
}

unfoldable pub attach_if :
    Map LeaseId StoredLease → ℤ → ByteSequence → Result (Map LeaseId StoredLease)
attach_if leases id key = if eqb_ℤ id (pos 0) then ok leases else attach_key leases id key

unfoldable pub apply_put : ℤ → PutRequest → Working → Result Working
unfolding attach_if next_value detach_previous
apply_put revision q w = do
  let previous = find q.key w.values
  detached ← detach_previous w.leases previous
  let current = next_value q.key q.value revision q.lease_id previous
  attached ← attach_if detached q.lease_id q.key
  ok (record {
    values = assign q.key current w.values;
    leases = attached;
    responses =
        w.responses
        ++ put_result (record {
          current = current;
          previous = if q.return_previous then previous else none;
          revision = revision;
        })
          ∷ [];
    events = w.events ++ put_event revision current previous ∷ [];
  })

-- The loop of a range delete over the entries of the range.
unfoldable pub delete_entries : ℤ → List KeyValue → Working → Result Working
delete_entries revision [] w = ok w
delete_entries revision (v ∷ vs) w = do
  detached ← detach_key w.leases v
  delete_entries revision vs (record w {
    values = erase v.key w.values;
    leases = detached;
    events = w.events ++ erase_event revision v ∷ [];
  })

unfoldable pub apply_delete : ℤ → DeleteRequest → Working → Result Working
unfolding delete_entries
apply_delete revision q w = do
  let doomed = below q.range.stop (lower_bound q.range.start w.values)
  w' ← delete_entries revision doomed w
  ok (record w' {
    responses =
        w'.responses
        ++ delete_range_result (record {
          deleted = length doomed;
          previous = if q.return_previous then doomed else [];
          revision = revision;
        })
          ∷ [];
  })

unfoldable pub apply_operation : ℤ → RequestOperation → Working → Result Working
unfolding apply_range apply_put apply_delete
apply_operation revision (range_op q) w = ok (apply_range revision q w)
apply_operation revision (put_op q) w = apply_put revision q w
apply_operation revision (delete_op q) w = apply_delete revision q w

unfoldable pub apply_all : ℤ → List RequestOperation → Working → Result Working
unfolding apply_operation
apply_all revision [] w = ok w
apply_all revision (o ∷ os) w = apply_operation revision o w >>= apply_all revision os

unfoldable pub transaction_revision : InMemoryMetadataStore → Bool → Result ℤ
unfolding next_revision_locked
transaction_revision s effective = if effective then next_revision_locked s else ok s.revision

-- The end of the transaction: what is installed, and, with effects only, published.
unfoldable pub finish :
    InMemoryMetadataStore → TransactionRequest → Bool → ℤ → Working → InMemoryMetadataStore
unfolding install
finish s request effective revision w =
    let s' =
      if effective
      then install s w.values w.leases revision w.events
      else record s { values = w.values; leases = w.leases; revision = revision } in
    if no_ownership request.lease_ownership
    then s'
    else record s' { logical_tick = request.lease_tick }

unfoldable pub transaction :
    InMemoryMetadataStore → TransactionRequest → Result (InMemoryMetadataStore × TransactionResult)
unfolding compare_all check_ownership plan_all transaction_revision apply_all finish
transaction s request = do
  compared ← compare_all s.values true request.comparisons
  verdict ← check_ownership s request compared
  let operations = if verdict.0 then request.success else request.failure
  plan ←
      plan_all s.values verdict.1 operations
        (record { put_keys = []; delete_ranges = []; has_effective_mutation = false })
  revision ← transaction_revision s plan.has_effective_mutation
  w ←
      apply_all revision operations
        (record { values = s.values; leases = s.leases; responses = []; events = [] })
  ok (
    finish s request plan.has_effective_mutation revision w,
    record { header = header_at revision; succeeded = verdict.0; responses = w.responses },
  )
