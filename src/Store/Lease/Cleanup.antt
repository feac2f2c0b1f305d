-- ===== src/Store/Lease/Cleanup.antt =====
-- `revoke_lease` and `expire_leases` of src/in_memory_metadata_store.cpp, and the removal that they
-- share.
use kura_metadata_store.Prelude.{
  ◌||◌, not, Option, none, some, List, [], ◌∷◌, ◌++◌, leb, ◌==◌, if◌then◌else◌,
}
use kura_metadata_store.Prelude.Int.{ℤ, pos, leb_ℤ, eqb_ℤ}
use kura_metadata_store.Prelude.Exception.{
  Result, ok, err, invalid_argument, logic_error, ◌>>=◌, ◌>>◌, throw_if,
}
use kura_metadata_store.Bytes.{ByteSequence, leb_bytes, bytes_ord, int_ord}
use kura_metadata_store.OrderedMap.{Map, find, erase}
use kura_metadata_store.Store.Types.{
  InMemoryMetadataStore, KeyValue, LeaseId, LeaseTick, StoredLease, LeaseRevokeRequest,
  LeaseResultCode, LeaseCleanupResult, WatchEvent,
}
use kura_metadata_store.Store.Keys.{next_revision_locked, install, erase_event}
use kura_metadata_store.Store.Lease.Grant.{validate_tick_locked}

-- The inner loop of `remove_leases_locked`: the values attached to one lease.
unfoldable pub attached_value : LeaseId → Option KeyValue → Result KeyValue
attached_value id none = err (logic_error "lease attachment index is inconsistent")
attached_value id (some v) =
    if eqb_ℤ v.lease_id id then ok v else err (logic_error "lease attachment index is inconsistent")

unfoldable pub attached_values :
    Map ByteSequence KeyValue → LeaseId → List ByteSequence → Result (List KeyValue)
unfolding attached_value
attached_values values id [] = ok []
attached_values values id (k ∷ ks) = do
  v ← attached_value id (find k values)
  vs ← attached_values values id ks
  ok (v ∷ vs)

unfoldable pub lease_keys : Option StoredLease → Result (List ByteSequence)
lease_keys none = err (logic_error "lease cleanup references missing lease")
lease_keys (some lease) = ok lease.attached_keys

unfoldable pub collect_deleted : InMemoryMetadataStore → List LeaseId → Result (List KeyValue)
unfolding attached_values lease_keys
collect_deleted s [] = ok []
collect_deleted s (id ∷ ids) = do
  keys ← lease_keys (find id s.leases)
  vs ← attached_values s.values id keys
  rest ← collect_deleted s ids
  ok (vs ++ rest)

-- `std::ranges::sort` by key.
unfoldable pub insert_sorted : KeyValue → List KeyValue → List KeyValue
insert_sorted v [] = v ∷ []
insert_sorted v (x ∷ xs) = if leb_bytes v.key x.key then v ∷ x ∷ xs else x ∷ insert_sorted v xs

unfoldable pub sort_by_key : List KeyValue → List KeyValue
unfolding insert_sorted
sort_by_key [] = []
sort_by_key (v ∷ vs) = insert_sorted v (sort_by_key vs)

unfoldable pub erase_values : List KeyValue → Map ByteSequence KeyValue → Map ByteSequence KeyValue
erase_values [] m = m
erase_values (v ∷ vs) m = erase_values vs (erase v.key m)

unfoldable pub erase_leases : List LeaseId → Map LeaseId StoredLease → Map LeaseId StoredLease
erase_leases [] m = m
erase_leases (id ∷ ids) m = erase_leases ids (erase id m)

unfoldable pub erase_events : ℤ → List KeyValue → List WatchEvent
erase_events revision [] = []
erase_events revision (v ∷ vs) = erase_event revision v ∷ erase_events revision vs

-- With no lease to remove nothing changes, nor is a revision used or published.
unfoldable pub remove_leases_locked :
    InMemoryMetadataStore
    → List LeaseId
    → LeaseResultCode
    → Result (InMemoryMetadataStore × LeaseCleanupResult)
unfolding collect_deleted sort_by_key erase_values erase_leases erase_events next_revision_locked
remove_leases_locked s [] code =
    ok (s, record { code = code; leases = []; deleted_keys = []; revision = s.revision })
remove_leases_locked s (id ∷ ids) code = do
  found ← collect_deleted s (id ∷ ids)
  revision ← next_revision_locked s
  let deleted = sort_by_key found
  ok (
    install s (erase_values deleted s.values) (erase_leases (id ∷ ids) s.leases) revision
        (erase_events revision deleted),
    record { code = code; leases = id ∷ ids; deleted_keys = deleted; revision = revision },
  )

abbrev pub at_tick {ℓ} :
    {A : Type ℓ} → LeaseTick → InMemoryMetadataStore × A → InMemoryMetadataStore × A
at_tick tick (s, a) = (record s { logical_tick = tick }, a)

abbrev pub refusal : ℤ → LeaseResultCode → LeaseCleanupResult
refusal revision code = record { code = code; leases = []; deleted_keys = []; revision = revision }

unfoldable pub revoke_found :
    InMemoryMetadataStore
    → LeaseRevokeRequest
    → Option StoredLease
    → Result (InMemoryMetadataStore × LeaseCleanupResult)
unfolding remove_leases_locked
revoke_found s request none =
    ok (record s { logical_tick = request.tick }, refusal s.revision LeaseResultCode.not_found)
revoke_found s request (some lease) =
    if not (lease.fencing_token == request.fencing_token)
    then ok (
      record s { logical_tick = request.tick },
      refusal s.revision LeaseResultCode.fencing_token_mismatch,
    )
    else (remove_leases_locked s (request.id ∷ []) LeaseResultCode.ok >>= λ r.
        ok (at_tick request.tick r))

unfoldable pub revoke_lease :
    InMemoryMetadataStore → LeaseRevokeRequest → Result (InMemoryMetadataStore × LeaseCleanupResult)
unfolding validate_tick_locked revoke_found
revoke_lease s request = do
  validate_tick_locked s request.tick
  throw_if (leb_ℤ request.id (pos 0) || request.fencing_token == 0)
      (invalid_argument "invalid revoke ownership")
  revoke_found s request (find request.id s.leases)

unfoldable pub expired_leases : LeaseTick → Map LeaseId StoredLease → List LeaseId
expired_leases tick [] = []
expired_leases tick ((id, lease) ∷ rest) =
    if leb lease.expiry_tick tick then id ∷ expired_leases tick rest else expired_leases tick rest

unfoldable pub expire_leases :
    InMemoryMetadataStore → LeaseTick → Result (InMemoryMetadataStore × LeaseCleanupResult)
unfolding validate_tick_locked expired_leases remove_leases_locked
expire_leases s tick = do
  validate_tick_locked s tick
  r ← remove_leases_locked s (expired_leases tick s.leases) LeaseResultCode.ok
  ok (at_tick tick r)
