-- ===== src/Store/Lease/Grant.antt =====
-- `grant_lease`, `keep_alive` and `time_to_live` of src/in_memory_metadata_store.cpp.
use kura_metadata_store.Prelude.{
  ◌+◌, ◌-◌, ◌^◌, ◌||◌, not, Option, none, some, [], ltb, leb, ◌==◌, if◌then◌else◌, length, u64_max,
}
use kura_metadata_store.Prelude.Int.{ℤ, pos, ltb_ℤ, leb_ℤ, eqb_ℤ, inc_ℤ}
use kura_metadata_store.Prelude.Status.{StatusCode}
use kura_metadata_store.Prelude.Exception.{
  Result, ok, err, invalid_argument, overflow_error, store_error, ◌>>=◌, ◌>>◌, throw_if,
}
use kura_metadata_store.Bytes.{bytes_ord, int_ord}
use kura_metadata_store.OrderedMap.{find, assign, emplace}
use kura_metadata_store.Store.Types.{
  InMemoryMetadataStore, LeaseId, LeaseTick, StoredLease, LeaseRecord, LeaseGrantRequest,
  LeaseKeepAliveRequest, LeaseTimeToLiveRequest, LeaseResultCode, LeaseGrantResult,
  LeaseLookupResult,
}
use kura_metadata_store.Prelude.{is_some}

-- `maximum_lease_id`.
abbrev pub maximum_lease_id : ℤ
maximum_lease_id = pos (2 ^ 63 - 2)

unfoldable pub validate_tick_locked : InMemoryMetadataStore → LeaseTick → Result (Unit {0})
validate_tick_locked s tick =
    throw_if (ltb tick s.logical_tick) (invalid_argument "lease tick must not move backwards")

unfoldable pub lease_record_locked : LeaseId → StoredLease → LeaseRecord
lease_record_locked id lease = record {
  id = id;
  fencing_token = lease.fencing_token;
  granted_ttl = lease.granted_ttl;
  expiry_tick = lease.expiry_tick;
  attached_keys = lease.attached_keys;
}

-- The identifier that is granted: the requested one, or the next free one for 0.
unfoldable pub choose_lease_id : InMemoryMetadataStore → LeaseId → Result LeaseId
choose_lease_id s requested =
    if eqb_ℤ requested (pos 0)
    then if ltb_ℤ maximum_lease_id s.next_lease_id
      then err (overflow_error "lease ID exhausted")
      else ok s.next_lease_id
    else if ltb_ℤ requested (pos 0) || ltb_ℤ maximum_lease_id requested
    then err (invalid_argument "requested lease ID is outside safe range")
    else ok requested

unfoldable pub granted_lease : InMemoryMetadataStore → LeaseGrantRequest → StoredLease
granted_lease s request = record {
  fencing_token = s.next_fencing_token;
  granted_ttl = request.ttl;
  expiry_tick = request.tick + request.ttl;
  attached_keys = [];
}

unfoldable pub check_grant : InMemoryMetadataStore → LeaseGrantRequest → Result (Unit {0})
unfolding validate_tick_locked
check_grant s request = do
  validate_tick_locked s request.tick
  throw_if (request.ttl == 0) (invalid_argument "lease TTL must be positive")
  throw_if (ltb (u64_max - request.ttl) request.tick) (overflow_error "lease expiry tick exhausted")
  throw_if (s.next_fencing_token == u64_max) (overflow_error "fencing token exhausted")
  throw_if (leb s.limits.max_active_leases (length s.leases))
      (store_error StatusCode.quota_exceeded "active lease limit reached" (pos 0))

unfoldable pub grant_lease :
    InMemoryMetadataStore → LeaseGrantRequest → Result (InMemoryMetadataStore × LeaseGrantResult)
unfolding check_grant choose_lease_id granted_lease lease_record_locked
grant_lease s request = do
  check_grant s request
  id ← choose_lease_id s request.requested_id
  throw_if (is_some (find id s.leases)) (invalid_argument "requested lease ID is already live")
  ok (
    record s {
      leases = emplace id (granted_lease s request) s.leases;
      next_lease_id = if leb_ℤ s.next_lease_id id then inc_ℤ id else s.next_lease_id;
      next_fencing_token = s.next_fencing_token + 1;
      logical_tick = request.tick;
    },
    record { lease = lease_record_locked id (granted_lease s request); revision = s.revision },
  )

unfoldable pub lookup_found : ℤ → LeaseId → LeaseTick → Option StoredLease → LeaseLookupResult
unfolding lease_record_locked
lookup_found revision id tick none = record {
  code = LeaseResultCode.not_found;
  lease = none;
  remaining_ttl = 0;
  revision = revision;
}
lookup_found revision id tick (some lease) =
    if leb lease.expiry_tick tick
    then record {
      code = LeaseResultCode.expired;
      lease = some (lease_record_locked id lease);
      remaining_ttl = 0;
      revision = revision;
    }
    else record {
      code = LeaseResultCode.ok;
      lease = some (lease_record_locked id lease);
      remaining_ttl = lease.expiry_tick - tick;
      revision = revision;
    }

unfoldable pub lookup_lease_locked : InMemoryMetadataStore → LeaseId → LeaseTick → LeaseLookupResult
unfolding lookup_found
lookup_lease_locked s id tick = lookup_found s.revision id tick (find id s.leases)

-- `keep_alive` on a lease that is alive.
unfoldable pub renew_live :
    InMemoryMetadataStore
    → LeaseKeepAliveRequest
    → StoredLease
    → Result (InMemoryMetadataStore × LeaseLookupResult)
renew_live s request lease =
    if not (lease.fencing_token == request.fencing_token)
    then ok (
      record s { logical_tick = request.tick },
      record (lookup_lease_locked s request.id request.tick) {
        code = LeaseResultCode.fencing_token_mismatch;
      },
    )
    else if ltb (u64_max - lease.granted_ttl) request.tick
    then err (overflow_error "lease expiry tick exhausted")
    else (let renewed : StoredLease = record lease {
      expiry_tick = request.tick + lease.granted_ttl;
    } in
        ok (
          record s { leases = assign request.id renewed s.leases; logical_tick = request.tick },
          record {
            code = LeaseResultCode.ok;
            lease = some (lease_record_locked request.id renewed);
            remaining_ttl = lease.granted_ttl;
            revision = s.revision;
          },
        ))

-- `keep_alive` on what `find` gives: a lease that is missing or has run out is reported.
unfoldable pub renew_found :
    InMemoryMetadataStore
    → LeaseKeepAliveRequest
    → Option StoredLease
    → Result (InMemoryMetadataStore × LeaseLookupResult)
unfolding renew_live lookup_lease_locked
renew_found s request none =
    ok (record s { logical_tick = request.tick }, lookup_lease_locked s request.id request.tick)
renew_found s request (some lease) =
    if leb lease.expiry_tick request.tick
    then ok
        (record s { logical_tick = request.tick }, lookup_lease_locked s request.id request.tick)
    else renew_live s request lease

unfoldable pub keep_alive :
    InMemoryMetadataStore
    → LeaseKeepAliveRequest
    → Result (InMemoryMetadataStore × LeaseLookupResult)
unfolding validate_tick_locked renew_found
keep_alive s request = do
  validate_tick_locked s request.tick
  throw_if (leb_ℤ request.id (pos 0) || request.fencing_token == 0)
      (invalid_argument "invalid keepalive ownership")
  renew_found s request (find request.id s.leases)

unfoldable pub time_to_live :
    InMemoryMetadataStore → LeaseTimeToLiveRequest → Result LeaseLookupResult
unfolding validate_tick_locked lookup_lease_locked
time_to_live s request = do
  validate_tick_locked s request.tick
  throw_if (leb_ℤ request.id (pos 0)) (invalid_argument "invalid lease ID")
  ok (lookup_lease_locked s request.id request.tick)
