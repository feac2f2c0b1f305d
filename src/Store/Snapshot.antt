-- ===== src/Store/Snapshot.antt =====
-- `snapshot` and the constructors of src/in_memory_metadata_store.cpp.
use kura_metadata_store.Prelude.{
  Bool, false, ◌||◌, ◌&&◌, not, Option, none, some, List, [], ◌∷◌, ltb, leb, ◌==◌, length,
}
use kura_metadata_store.Prelude.Int.{ℤ, pos, ltb_ℤ, leb_ℤ, eqb_ℤ}
use kura_metadata_store.Prelude.Status.{StatusCode}
use kura_metadata_store.Prelude.Exception.{
  Result, ok, invalid_argument, store_error, ◌>>=◌, ◌>>◌, throw_if,
}
use kura_metadata_store.Bytes.{ByteSequence, bytes_ord, int_ord}
use kura_metadata_store.OrderedMap.{Map, Set, find, emplace, member, insert}
use kura_metadata_store.Store.Types.{
  InMemoryMetadataStore, InMemoryStoreSnapshot, KeyValue, LeaseRecord, LeaseId, StoredLease,
  StoreLimits,
}
use kura_metadata_store.Prelude.{is_some}
use kura_metadata_store.Store.Keys.{validate_key}
use kura_metadata_store.Store.Lease.{lease_record_locked, maximum_lease_id}

unfoldable pub lease_records : Map LeaseId StoredLease → List LeaseRecord
unfolding lease_record_locked
lease_records [] = []
lease_records ((id, lease) ∷ rest) = lease_record_locked id lease ∷ lease_records rest

unfoldable pub map_values : Map ByteSequence KeyValue → List KeyValue
map_values [] = []
map_values ((k, v) ∷ rest) = v ∷ map_values rest

unfoldable pub snapshot : InMemoryMetadataStore → InMemoryStoreSnapshot
unfolding lease_records map_values
snapshot s = record {
  values = map_values s.values;
  leases = lease_records s.leases;
  revision = s.revision;
  logical_tick = s.logical_tick;
  next_lease_id = s.next_lease_id;
  next_fencing_token = s.next_fencing_token;
}

-- The default member initialisers, for a store at a revision.
abbrev pub fresh : ℤ → StoreLimits → InMemoryMetadataStore
fresh revision limits = record {
  values = [];
  limits = limits;
  revision = revision;
  compact_revision = revision;
  history = [];
  watchers = [];
  leases = [];
  logical_tick = 0;
  next_lease_id = pos 1;
  next_fencing_token = 1;
}

-- `InMemoryMetadataStore(initial_revision, limits)`.
unfoldable pub construct : ℤ → StoreLimits → Result InMemoryMetadataStore
construct initial_revision limits = do
  throw_if (ltb_ℤ initial_revision (pos 0))
      (invalid_argument "initial revision must not be negative")
  ok (fresh initial_revision limits)

-- The test of the metadata that both constructors from values make; they differ on the lease.
unfoldable pub bad_metadata : ℤ → KeyValue → Bool
bad_metadata revision v =
    leb_ℤ v.version (pos 0)
    || (leb_ℤ v.create_revision (pos 0)
        || (ltb_ℤ v.mod_revision v.create_revision || ltb_ℤ revision v.mod_revision))

unfoldable pub load_initial :
    ℤ → List KeyValue → Map ByteSequence KeyValue → Result (Map ByteSequence KeyValue)
unfolding validate_key bad_metadata
load_initial revision [] m = ok m
load_initial revision (v ∷ vs) m = do
  validate_key v.key
  throw_if (bad_metadata revision v || not (eqb_ℤ v.lease_id (pos 0)))
      (invalid_argument "invalid initial key metadata")
  throw_if (is_some (find v.key m)) (invalid_argument "duplicate initial key")
  load_initial revision vs (emplace v.key v m)

-- `InMemoryMetadataStore(initial_values, initial_revision, limits)`.
unfoldable pub construct_from_values :
    List KeyValue → ℤ → StoreLimits → Result InMemoryMetadataStore
unfolding load_initial
construct_from_values initial_values initial_revision limits = do
  throw_if (ltb_ℤ initial_revision (pos 0))
      (invalid_argument "initial revision must not be negative")
  values ← load_initial initial_revision initial_values []
  ok (record (fresh initial_revision limits) { values = values })

unfoldable pub load_attached : List ByteSequence → Set ByteSequence → Result (Set ByteSequence)
unfolding validate_key
load_attached [] set = ok set
load_attached (k ∷ ks) set = do
  validate_key k
  throw_if (member k set) (invalid_argument "duplicate snapshot lease attachment")
  load_attached ks (insert k set)

unfoldable pub bad_lease : LeaseRecord → Bool
bad_lease lease =
    leb_ℤ lease.id (pos 0)
    || (ltb_ℤ maximum_lease_id lease.id || (lease.fencing_token == 0 || lease.granted_ttl == 0))

unfoldable pub load_leases :
    List LeaseRecord → Map LeaseId StoredLease → Result (Map LeaseId StoredLease)
unfolding load_attached bad_lease
load_leases [] m = ok m
load_leases (l ∷ ls) m = do
  throw_if (bad_lease l) (invalid_argument "invalid snapshot lease")
  attached ← load_attached l.attached_keys []
  throw_if (is_some (find l.id m)) (invalid_argument "duplicate snapshot lease")
  load_leases ls (
      emplace l.id
        (record {
          fencing_token = l.fencing_token;
          granted_ttl = l.granted_ttl;
          expiry_tick = l.expiry_tick;
          attached_keys = attached;
        })
        m)

-- Whether the lease of a value has the value's key among its attached keys.
unfoldable pub lease_has_key : ByteSequence → Option StoredLease → Bool
lease_has_key key none = false
lease_has_key key (some lease) = member key lease.attached_keys

unfoldable pub load_values :
    ℤ
    → Map LeaseId StoredLease
    → List KeyValue
    → Map ByteSequence KeyValue
    → Result (Map ByteSequence KeyValue)
unfolding validate_key bad_metadata lease_has_key
load_values revision leases [] m = ok m
load_values revision leases (v ∷ vs) m = do
  validate_key v.key
  throw_if (bad_metadata revision v || ltb_ℤ v.lease_id (pos 0))
      (invalid_argument "invalid snapshot key metadata")
  throw_if (is_some (find v.key m)) (invalid_argument "duplicate snapshot key")
  throw_if (not (eqb_ℤ v.lease_id (pos 0)) && not (lease_has_key v.key (find v.lease_id leases)))
      (invalid_argument "snapshot key attachment is inconsistent")
  load_values revision leases vs (emplace v.key v m)

unfoldable pub value_has_lease : LeaseId → Option KeyValue → Bool
value_has_lease id none = false
value_has_lease id (some v) = eqb_ℤ v.lease_id id

unfoldable pub check_attached :
    Map ByteSequence KeyValue → LeaseId → List ByteSequence → Result (Unit {0})
unfolding value_has_lease
check_attached values id [] = ok tt
check_attached values id (k ∷ ks) = do
  throw_if (not (value_has_lease id (find k values)))
      (invalid_argument "snapshot lease attachment is inconsistent")
  check_attached values id ks

unfoldable pub check_leases :
    InMemoryStoreSnapshot → Map ByteSequence KeyValue → Map LeaseId StoredLease → Result (Unit {0})
unfolding check_attached
check_leases snap values [] = ok tt
check_leases snap values ((id, lease) ∷ rest) = do
  throw_if (leb_ℤ snap.next_lease_id id || leb snap.next_fencing_token lease.fencing_token)
      (invalid_argument "snapshot allocation counters are not ahead of leases")
  check_attached values id lease.attached_keys
  check_leases snap values rest

-- `InMemoryMetadataStore(snapshot, limits)`.
unfoldable pub construct_from_snapshot :
    InMemoryStoreSnapshot → StoreLimits → Result InMemoryMetadataStore
unfolding load_leases load_values check_leases
construct_from_snapshot snap limits = do
  throw_if
      (ltb_ℤ snap.revision (pos 0)
        || (leb_ℤ snap.next_lease_id (pos 0) || snap.next_fencing_token == 0))
      (invalid_argument "invalid snapshot counters")
  throw_if (ltb limits.max_active_leases (length snap.leases))
      (store_error StatusCode.quota_exceeded "lease snapshot exceeds active lease limit" (pos 0))
  leases ← load_leases snap.leases []
  values ← load_values snap.revision leases snap.values []
  check_leases snap values leases
  ok (record (fresh snap.revision limits) {
    values = values;
    leases = leases;
    logical_tick = snap.logical_tick;
    next_lease_id = snap.next_lease_id;
    next_fencing_token = snap.next_fencing_token;
  })
