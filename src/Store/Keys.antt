-- ===== src/Store/Keys.antt =====
-- Single-key operations of src/in_memory_metadata_store.cpp: `get`, `range`, `put`, `erase`,
-- `compare_and_set`, and what they share with the transaction (`detach_key`, `attach_key`).
use kura_metadata_store.Prelude.{
  Bool, true, false, Option, none, some, List, [], ◌∷◌, if◌then◌else◌,
}
use kura_metadata_store.Prelude.Int.{ℤ, pos, ltb_ℤ, eqb_ℤ, inc_ℤ, i64_max}
use kura_metadata_store.Prelude.Exception.{
  Result, ok, err, invalid_argument, overflow_error, logic_error, ◌>>=◌, ◌>>◌, throw_if,
}
use kura_metadata_store.Bytes.{
  ByteSequence, ltb_bytes, leb_bytes, is_empty_bytes, bytes_ord, int_ord,
}
use kura_metadata_store.OrderedMap.{Map, find, assign, erase, member, insert, remove}
use kura_metadata_store.Store.Types.{
  InMemoryMetadataStore, KeyValue, StoreRead, RangeRead, PutResult, DeleteResult,
  CompareAndSetResult, WatchEvent, MutationEventType, LeaseId, StoredLease,
}
use kura_metadata_store.Store.Watch.{
  stage_watch_publication_locked, commit_watch_publication_locked,
}

unfoldable pub validate_key : ByteSequence → Result (Unit {0})
validate_key key = throw_if (is_empty_bytes key) (invalid_argument "key must not be empty")

unfoldable pub next_revision_locked : InMemoryMetadataStore → Result ℤ
next_revision_locked s =
    if eqb_ℤ s.revision i64_max
    then err (overflow_error "store revision exhausted")
    else ok (inc_ℤ s.revision)

-- `detach_key` on the lease found: `attached_keys.erase(key) != 1` throws.
unfoldable pub detach_from :
    Map LeaseId StoredLease
    → LeaseId
    → ByteSequence
    → Option StoredLease
    → Result (Map LeaseId StoredLease)
detach_from leases id key none = err (logic_error "lease attachment index is inconsistent")
detach_from leases id key (some lease) =
    if member key lease.attached_keys
    then ok (assign id (record lease { attached_keys = remove key lease.attached_keys }) leases)
    else err (logic_error "lease attachment index is inconsistent")

unfoldable pub detach_key : Map LeaseId StoredLease → KeyValue → Result (Map LeaseId StoredLease)
unfolding detach_from
detach_key leases value =
    if eqb_ℤ value.lease_id (pos 0)
    then ok leases
    else detach_from leases value.lease_id value.key (find value.lease_id leases)

unfoldable pub attach_to :
    Map LeaseId StoredLease
    → LeaseId
    → ByteSequence
    → Option StoredLease
    → Result (Map LeaseId StoredLease)
attach_to leases id key none = err (logic_error "verified lease is missing")
attach_to leases id key (some lease) =
    if member key lease.attached_keys
    then err (logic_error "key is already attached to lease")
    else ok (assign id (record lease { attached_keys = insert key lease.attached_keys }) leases)

unfoldable pub attach_key :
    Map LeaseId StoredLease → LeaseId → ByteSequence → Result (Map LeaseId StoredLease)
unfolding attach_to
attach_key leases id key = attach_to leases id key (find id leases)

-- `detach_key` of a value that may be missing.
unfoldable pub detach_previous :
    Map LeaseId StoredLease → Option KeyValue → Result (Map LeaseId StoredLease)
detach_previous leases none = ok leases
detach_previous leases (some v) = detach_key leases v

abbrev pub put_event : ℤ → KeyValue → Option KeyValue → WatchEvent
put_event revision current previous = record {
  revision = revision;
  mutation = record { type = MutationEventType.put; current = some current; previous = previous };
}

abbrev pub erase_event : ℤ → KeyValue → WatchEvent
erase_event revision previous = record {
  revision = revision;
  mutation = record { type = MutationEventType.erase; current = none; previous = some previous };
}

-- The end of each mutation: the new maps and revision, and the publication of its events.
unfoldable pub install :
    InMemoryMetadataStore
    → Map ByteSequence KeyValue
    → Map LeaseId StoredLease
    → ℤ
    → List WatchEvent
    → InMemoryMetadataStore
install s values leases revision events =
    commit_watch_publication_locked
      (record s { values = values; leases = leases; revision = revision })
      (stage_watch_publication_locked s events revision)

-- The value that a put writes over `previous`.
unfoldable pub next_value : ByteSequence → ByteSequence → ℤ → ℤ → Option KeyValue → KeyValue
next_value key value revision lease_id none = record {
  key = key;
  value = value;
  version = pos 1;
  create_revision = revision;
  mod_revision = revision;
  lease_id = lease_id;
}
next_value key value revision lease_id (some p) = record {
  key = key;
  value = value;
  version = inc_ℤ p.version;
  create_revision = p.create_revision;
  mod_revision = revision;
  lease_id = lease_id;
}

abbrev pub version_exhausted : Option KeyValue → Bool
version_exhausted none = false
version_exhausted (some p) = eqb_ℤ p.version i64_max

unfoldable pub put_locked :
    InMemoryMetadataStore → ByteSequence → ByteSequence → Result (InMemoryMetadataStore × PutResult)
unfolding next_revision_locked detach_previous install next_value
put_locked s key value = do
  let previous = find key s.values
  revision ← next_revision_locked s
  throw_if (version_exhausted previous) (overflow_error "key version exhausted")
  let current = next_value key value revision (pos 0) previous
  leases ← detach_previous s.leases previous
  ok (
    install s (assign key current s.values) leases revision
        (put_event revision current previous ∷ []),
    record { current = current; previous = previous; revision = revision },
  )

unfoldable pub put :
    InMemoryMetadataStore → ByteSequence → ByteSequence → Result (InMemoryMetadataStore × PutResult)
unfolding put_locked validate_key
put s key value = do validate_key key; put_locked s key value

unfoldable pub get : InMemoryMetadataStore → ByteSequence → Result StoreRead
unfolding validate_key
get s key = do validate_key key; ok (record { value = find key s.values; revision = s.revision })

-- `values_.lower_bound(start)`, and the entries from there that are below `stop`.
unfoldable pub lower_bound {ℓ} :
    {V : Type ℓ} → ByteSequence → Map ByteSequence V → Map ByteSequence V
lower_bound start [] = []
lower_bound start ((k, v) ∷ m) = if ltb_bytes k start then lower_bound start m else (k, v) ∷ m

unfoldable pub below {ℓ} : {V : Type ℓ} → ByteSequence → Map ByteSequence V → List V
below stop [] = []
below stop ((k, v) ∷ m) = let rest = below stop m in if ltb_bytes k stop then v ∷ rest else []

unfoldable pub range : InMemoryMetadataStore → ByteSequence → ByteSequence → Result RangeRead
unfolding validate_key lower_bound below
range s start_inclusive end_exclusive = do
  validate_key start_inclusive
  validate_key end_exclusive
  throw_if (leb_bytes end_exclusive start_inclusive)
      (invalid_argument "range start must be less than range end")
  ok (record {
    values = below end_exclusive (lower_bound start_inclusive s.values);
    revision = s.revision;
  })

unfoldable pub erase_found :
    InMemoryMetadataStore
    → ByteSequence
    → Option KeyValue
    → Result (InMemoryMetadataStore × DeleteResult)
unfolding next_revision_locked detach_key install
erase_found s key none = ok (s, record { deleted = false; previous = none; revision = s.revision })
erase_found s key (some previous) = do
  revision ← next_revision_locked s
  leases ← detach_key s.leases previous
  ok (
    install s (erase key s.values) leases revision (erase_event revision previous ∷ []),
    record { deleted = true; previous = some previous; revision = revision },
  )

-- `erase` of the store; the name without a suffix is the map's.
unfoldable pub erase_key :
    InMemoryMetadataStore → ByteSequence → Result (InMemoryMetadataStore × DeleteResult)
unfolding validate_key erase_found
erase_key s key = do validate_key key; erase_found s key (find key s.values)

-- The local `matches` of `compare_and_set`.
unfoldable pub revision_matches : Option KeyValue → ℤ → Bool
revision_matches none expected = eqb_ℤ expected (pos 0)
revision_matches (some v) expected = eqb_ℤ v.mod_revision expected

abbrev pub cas_result :
    InMemoryMetadataStore × PutResult → InMemoryMetadataStore × CompareAndSetResult
cas_result (s, r) =
    (s, record { succeeded = true; current = some r.current; revision = r.revision })

-- The end of `compare_and_set`, on whether the revision matches.
unfoldable pub swap_if :
    Bool
    → InMemoryMetadataStore
    → ByteSequence
    → ByteSequence
    → Result (InMemoryMetadataStore × CompareAndSetResult)
unfolding put_locked
swap_if false s key new_value =
    ok (s, record { succeeded = false; current = find key s.values; revision = s.revision })
swap_if true s key new_value = put_locked s key new_value >>= λ r. ok (cas_result r)

unfoldable pub compare_and_set :
    InMemoryMetadataStore
    → ByteSequence
    → ℤ
    → ByteSequence
    → Result (InMemoryMetadataStore × CompareAndSetResult)
unfolding validate_key revision_matches swap_if
compare_and_set s key expected_mod_revision new_value = do
  validate_key key
  throw_if (ltb_ℤ expected_mod_revision (pos 0))
      (invalid_argument "expected modification revision must not be negative")
  swap_if (revision_matches (find key s.values) expected_mod_revision) s key new_value
