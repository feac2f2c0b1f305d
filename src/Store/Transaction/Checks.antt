-- ===== src/Store/Transaction/Checks.antt =====
-- The checks of `transaction` in src/in_memory_metadata_store.cpp: comparisons, lease ownership, and
-- the operations of the chosen branch.
use kura_metadata_store.Prelude.{
  Bool, true, false, ◌||◌, ◌&&◌, not, Option, none, some, List, [], ◌∷◌, ◌++◌, ltb, ◌==◌,
  if◌then◌else◌,
}
use kura_metadata_store.Prelude.Int.{ℤ, pos, ltb_ℤ, leb_ℤ, eqb_ℤ}
use kura_metadata_store.Prelude.Exception.{
  Result, ok, err, invalid_argument, overflow_error, ◌>>=◌, ◌>>◌, throw_if,
}
use kura_metadata_store.Bytes.{
  ByteSequence, KeyRange, ltb_bytes, leb_bytes, key_is, is_empty_bytes, bytes_ord, int_ord,
}
use kura_metadata_store.OrderedMap.{Map, find}
use kura_metadata_store.Store.Types.{
  InMemoryMetadataStore, KeyValue, LeaseId, LeaseTick, StoredLease, LeaseOwnership,
}
use kura_metadata_store.Store.Keys.{validate_key, version_exhausted, lower_bound}
use kura_metadata_store.Store.Lease.{validate_tick_locked}
use kura_metadata_store.Store.Transaction.Types.{
  equal, not_equal, greater, less, version, create_revision, mod_revision, value, lease_id, number,
  bytes, range_op, put_op, delete_op, CompareTarget, CompareResult, Expected, Compare, RangeRequest,
  PutRequest, DeleteRequest, RequestOperation, TransactionRequest,
}

unfoldable pub validate_range : KeyRange → Result (Unit {0})
validate_range range = do
  throw_if (is_empty_bytes range.start || is_empty_bytes range.stop)
      (invalid_argument "range bounds must not be empty")
  throw_if (leb_bytes range.stop range.start)
      (invalid_argument "range start must be less than range end")

unfoldable pub contains_key : KeyRange → ByteSequence → Bool
contains_key range key = leb_bytes range.start key && ltb_bytes key range.stop

unfoldable pub ranges_overlap : KeyRange → KeyRange → Bool
ranges_overlap left right = ltb_bytes left.start right.stop && ltb_bytes right.start left.stop

-- `comparison_matches` at its two types.
unfoldable pub comparison_matches_bytes : ByteSequence → ByteSequence → CompareResult → Bool
comparison_matches_bytes actual expected equal = key_is actual expected
comparison_matches_bytes actual expected not_equal = not (key_is actual expected)
comparison_matches_bytes actual expected greater = ltb_bytes expected actual
comparison_matches_bytes actual expected less = ltb_bytes actual expected

unfoldable pub comparison_matches_number : ℤ → ℤ → CompareResult → Bool
comparison_matches_number actual expected equal = eqb_ℤ actual expected
comparison_matches_number actual expected not_equal = not (eqb_ℤ actual expected)
comparison_matches_number actual expected greater = ltb_ℤ expected actual
comparison_matches_number actual expected less = ltb_ℤ actual expected

-- The local `actual`: a missing key has the empty value, and 0 for each number.
unfoldable pub actual_bytes : Option KeyValue → ByteSequence
actual_bytes none = []
actual_bytes (some v) = v.value

unfoldable pub actual_number : CompareTarget → Option KeyValue → ℤ
actual_number target none = pos 0
actual_number version (some v) = v.version
actual_number create_revision (some v) = v.create_revision
actual_number mod_revision (some v) = v.mod_revision
actual_number value (some v) = pos 0
actual_number lease_id (some v) = v.lease_id

unfoldable pub compare_value :
    CompareTarget → CompareResult → Expected → Option KeyValue → Result Bool
unfolding comparison_matches_bytes comparison_matches_number actual_bytes actual_number
compare_value value result (bytes expected) found =
    ok (comparison_matches_bytes (actual_bytes found) expected result)
compare_value value result (number expected) found =
    err (invalid_argument "value comparison requires a byte sequence")
compare_value target result (number expected) found =
    ok (comparison_matches_number (actual_number target found) expected result)
compare_value target result (bytes expected) found =
    err (invalid_argument "numeric comparison requires an int64 value")

-- The loop over the comparisons; `succeeded` is `comparisons_succeeded`.
unfoldable pub compare_all : Map ByteSequence KeyValue → Bool → List Compare → Result Bool
unfolding compare_value validate_key
compare_all values succeeded [] = ok succeeded
compare_all values succeeded (c ∷ cs) = do
  validate_key c.key
  matches ← compare_value c.target c.result c.expected (find c.key values)
  compare_all values (succeeded && matches) cs

unfoldable pub owns : LeaseTick → LeaseOwnership → Option StoredLease → Bool
owns tick o none = false
owns tick o (some lease) = ltb tick lease.expiry_tick && lease.fencing_token == o.fencing_token

-- The loop over the ownerships: the verdict, and those that are verified.
unfoldable pub verify_ownership :
    Map LeaseId StoredLease
    → LeaseTick
    → Bool
    → List LeaseOwnership
    → List LeaseOwnership
    → Result (Bool × List LeaseOwnership)
unfolding owns
verify_ownership leases tick succeeded verified [] = ok (succeeded, verified)
verify_ownership leases tick succeeded verified (o ∷ os) = do
  throw_if (leb_ℤ o.id (pos 0) || o.fencing_token == 0)
      (invalid_argument "invalid lease ownership comparison")
  let matches = owns tick o (find o.id leases)
  verify_ownership leases tick (succeeded && matches)
      (if matches then verified ++ o ∷ [] else verified) os

abbrev pub no_ownership : List LeaseOwnership → Bool
no_ownership [] = true
no_ownership (o ∷ os) = false

unfoldable pub check_ownership :
    InMemoryMetadataStore → TransactionRequest → Bool → Result (Bool × List LeaseOwnership)
unfolding verify_ownership validate_tick_locked
check_ownership s request succeeded = do
  if no_ownership request.lease_ownership then ok tt else validate_tick_locked s request.lease_tick
  verify_ownership s.leases request.lease_tick succeeded [] request.lease_ownership

-- What the checks of the branch have seen so far.
pub record Plan : Type 0 where
  pub put_keys : List ByteSequence
  pub delete_ranges : List KeyRange
  pub has_effective_mutation : Bool

unfoldable pub is_verified : List LeaseOwnership → ℤ → Bool
is_verified [] id = false
is_verified (o ∷ os) id = eqb_ℤ o.id id || is_verified os id

unfoldable pub has_key : List ByteSequence → ByteSequence → Bool
has_key [] key = false
has_key (k ∷ ks) key = key_is k key || has_key ks key

unfoldable pub any_contains : List KeyRange → ByteSequence → Bool
unfolding contains_key
any_contains [] key = false
any_contains (r ∷ rs) key = contains_key r key || any_contains rs key

unfoldable pub any_overlaps : List KeyRange → KeyRange → Bool
unfolding ranges_overlap
any_overlaps [] range = false
any_overlaps (r ∷ rs) range = ranges_overlap r range || any_overlaps rs range

unfoldable pub contains_any : KeyRange → List ByteSequence → Bool
unfolding contains_key
contains_any range [] = false
contains_any range (k ∷ ks) = contains_key range k || contains_any range ks

unfoldable pub plan_put :
    Map ByteSequence KeyValue → List LeaseOwnership → PutRequest → Plan → Result Plan
unfolding is_verified has_key any_contains validate_key
plan_put values verified q p = do
  validate_key q.key
  throw_if (ltb_ℤ q.lease_id (pos 0)) (invalid_argument "lease ID must not be negative")
  throw_if (not (eqb_ℤ q.lease_id (pos 0)) && not (is_verified verified q.lease_id))
      (invalid_argument "leased put requires verified ownership")
  throw_if (has_key p.put_keys q.key) (invalid_argument "transaction writes one key more than once")
  throw_if (any_contains p.delete_ranges q.key)
      (invalid_argument "transaction put overlaps a delete")
  throw_if (version_exhausted (find q.key values)) (overflow_error "key version exhausted")
  ok (record p { put_keys = p.put_keys ++ q.key ∷ []; has_effective_mutation = true })

-- Whether the first entry from the range's start is below its end.
unfoldable pub starts_below : ByteSequence → Map ByteSequence KeyValue → Bool
starts_below stop [] = false
starts_below stop ((k, v) ∷ m) = ltb_bytes k stop

unfoldable pub plan_delete : Map ByteSequence KeyValue → DeleteRequest → Plan → Result Plan
unfolding validate_range any_overlaps contains_any starts_below
plan_delete values q p = do
  validate_range q.range
  throw_if (any_overlaps p.delete_ranges q.range)
      (invalid_argument "transaction delete ranges overlap")
  throw_if (contains_any q.range p.put_keys) (invalid_argument "transaction delete overlaps a put")
  ok (record p {
    delete_ranges = p.delete_ranges ++ q.range ∷ [];
    has_effective_mutation =
        p.has_effective_mutation || starts_below q.range.stop (lower_bound q.range.start values);
  })

unfoldable pub plan_range : RangeRequest → Plan → Result Plan
unfolding validate_range
plan_range q p = do
  validate_range q.range
  throw_if (not (eqb_ℤ q.revision (pos 0)))
      (invalid_argument "historical range reads are not implemented")
  ok p

unfoldable pub plan_operation :
    Map ByteSequence KeyValue → List LeaseOwnership → RequestOperation → Plan → Result Plan
unfolding plan_put plan_delete plan_range
plan_operation values verified (range_op q) p = plan_range q p
plan_operation values verified (put_op q) p = plan_put values verified q p
plan_operation values verified (delete_op q) p = plan_delete values q p

unfoldable pub plan_all :
    Map ByteSequence KeyValue → List LeaseOwnership → List RequestOperation → Plan → Result Plan
unfolding plan_operation
plan_all values verified [] p = ok p
plan_all values verified (o ∷ os) p =
    plan_operation values verified o p >>= plan_all values verified os
