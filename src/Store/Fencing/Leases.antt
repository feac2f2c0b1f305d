-- ===== src/Store/Fencing/Leases.antt =====
-- The lease operations of src/in_memory_metadata_store.cpp on the counters and the tokens.
use kura_metadata_store.Prelude.{
  ◌≡◌, refl, sym, ap, subst, Bool-cases, Option, none, some, List, [], ◌∷◌, arith, inl, inr, ℕ, ◌≤◌,
  ◌+◌, ◌-◌, ◌||◌, not, ltb, leb, ◌==◌, is_some, u64_max,
}
use kura_metadata_store.Prelude.Int.{pos, leb_ℤ}
use kura_metadata_store.Prelude.Exception.{ok, throw_if, invalid_argument, >>=-eq-ok, ok-injective}
use kura_metadata_store.Bytes.{bytes_ord, int_ord}
use kura_metadata_store.OrderedMap.{Map, find, assign, erase, emplace}
use kura_metadata_store.Store.Types.{
  InMemoryMetadataStore, StoredLease, LeaseId, LeaseGrantRequest, LeaseGrantResult,
  LeaseKeepAliveRequest, LeaseLookupResult, LeaseRevokeRequest, LeaseCleanupResult, LeaseResultCode,
}
use kura_metadata_store.Store.Keys.{next_revision_locked}
use kura_metadata_store.Store.Lease.{
  validate_tick_locked, check_grant, choose_lease_id, granted_lease, lease_record_locked,
  grant_lease, renew_live, renew_found, keep_alive, collect_deleted, erase_leases,
  remove_leases_locked, revoke_found, revoke_lease, expired_leases, expire_leases,
}
use kura_metadata_store.Store.Fencing.{
  AreFenced, AreFenced-emplace, AreFenced-assign, AreFenced-erase, Serves, Serves-refl,
  install-Serves, at_tick-Serves, ok-state,
}

pub tick-le :
    (s : InMemoryMetadataStore) (tick : ℕ) (u : Unit {0})
    → validate_tick_locked s tick ≡ ok u
    → s.logical_tick ≤ tick
unfolding validate_tick_locked
tick-le s tick u h = ground arith

-- Only the tick moves.
only_tick :
    (s : InMemoryMetadataStore) (tick : ℕ)
    → s.logical_tick ≤ tick
    → Serves s (record s { logical_tick = tick })
only_tick s tick later = at_tick-Serves s s tick later (Serves-refl s)

-- What a grant does to the tokens: the lease gets the next one, which is used up.
pub record Grants (s s' : InMemoryMetadataStore) (r : LeaseGrantResult) : Type 0 where
  pub token : r.lease.fencing_token ≡ s.next_fencing_token
  pub used : s'.next_fencing_token ≡ s.next_fencing_token + 1
  pub serves : Serves s s'

grant_tick :
    (s : InMemoryMetadataStore) (request : LeaseGrantRequest) (u : Unit {0})
    → check_grant s request ≡ ok u
    → s.logical_tick ≤ request.tick
unfolding check_grant
grant_tick s request u h =
    let (_, ticks, _) = >>=-eq-ok (validate_tick_locked s request.tick) _ h in
    tick-le s request.tick _ ticks

granted-Serves :
    (s : InMemoryMetadataStore) (request : LeaseGrantRequest) (id next : LeaseId)
    → s.logical_tick ≤ request.tick
    → Serves s (record s {
      leases = emplace id (granted_lease s request) s.leases;
      next_lease_id = next;
      next_fencing_token = s.next_fencing_token + 1;
      logical_tick = request.tick;
    })
unfolding granted_lease
granted-Serves s request id next later = record {
  tokens = omega arith;
  fenced =
      λ old. AreFenced-emplace _ id _ s.leases (omega arith) (λ j x h. omega (arith, old j x h));
  tick = later;
  moves = inl (refl, refl, refl);
  history = λ h. h;
  limits = refl;
}

pub grant_lease-Grants :
    (s s' : InMemoryMetadataStore) (request : LeaseGrantRequest) (r : LeaseGrantResult)
    → grant_lease s request ≡ ok (s', r)
    → Grants s s' r
unfolding grant_lease granted_lease lease_record_locked
grant_lease-Grants s s' request r h =
    let (u, checked, h1) = >>=-eq-ok (check_grant s request) _ h in
    let (id, chosen, h2) = >>=-eq-ok (choose_lease_id s request.requested_id) _ h1 in
    let (_, free, h3) =
      >>=-eq-ok
        (throw_if (is_some (find id s.leases))
          (invalid_argument "requested lease ID is already live"))
        _ h2 in
    record {
      token = sym (
          ap (λ (p : InMemoryMetadataStore × LeaseGrantResult). p.1.lease.fencing_token)
            (ok-injective h3));
      used = sym (
          ap (λ (p : InMemoryMetadataStore × LeaseGrantResult). p.0.next_fencing_token)
            (ok-injective h3));
      serves =
          subst (Serves s) (ok-state h3)
            (granted-Serves s request id _ (grant_tick s request u checked));
    }

-- A renewal keeps the token.
renewed-Serves :
    (s : InMemoryMetadataStore) (request : LeaseKeepAliveRequest) (lease : StoredLease)
    → find request.id s.leases ≡ some lease
    → s.logical_tick ≤ request.tick
    → Serves s (record s {
      leases =
          assign request.id
            (record lease { expiry_tick = request.tick + lease.granted_ttl })
            s.leases;
      logical_tick = request.tick;
    })
renewed-Serves s request lease found later = record {
  tokens = omega arith;
  fenced = λ old. AreFenced-assign _ request.id _ s.leases (old request.id lease found) old;
  tick = later;
  moves = inl (refl, refl, refl);
  history = λ h. h;
  limits = refl;
}

renew_live-Serves :
    (s s' : InMemoryMetadataStore) (request : LeaseKeepAliveRequest) (lease : StoredLease)
    (r : LeaseLookupResult)
    → find request.id s.leases ≡ some lease
    → s.logical_tick ≤ request.tick
    → renew_live s request lease ≡ ok (s', r)
    → Serves s s'
unfolding renew_live
renew_live-Serves s s' request lease r found later h =
    elim (Bool-cases (not (lease.fencing_token == request.fencing_token))) [
      | inl stale ↦ subst (Serves s) (ok-state (rw stale at h)) (only_tick s request.tick later)
      | inr owned ↦ elim (Bool-cases (ltb (u64_max - lease.granted_ttl) request.tick)) [
        | inl over ↦ cc (rw (owned, over) at h)
        | inr fits ↦
            subst (Serves s) (ok-state (rw (owned, fits) at h))
              (renewed-Serves s request lease found later)
      ]
    ]

renew_found-Serves :
    (s s' : InMemoryMetadataStore) (request : LeaseKeepAliveRequest) (o : Option StoredLease)
    (r : LeaseLookupResult)
    → find request.id s.leases ≡ o
    → s.logical_tick ≤ request.tick
    → renew_found s request o ≡ ok (s', r)
    → Serves s s'
unfolding renew_found
renew_found-Serves s s' request none r found later h =
    subst (Serves s) (ok-state h) (only_tick s request.tick later)
renew_found-Serves s s' request (some lease) r found later h =
    elim (Bool-cases (leb lease.expiry_tick request.tick)) [
      | inl expired ↦ subst (Serves s) (ok-state (rw expired at h)) (only_tick s request.tick later)
      | inr alive ↦ renew_live-Serves s s' request lease r found later (rw alive at h)
    ]

pub keep_alive-Serves :
    (s s' : InMemoryMetadataStore) (request : LeaseKeepAliveRequest) (r : LeaseLookupResult)
    → keep_alive s request ≡ ok (s', r)
    → Serves s s'
unfolding keep_alive
keep_alive-Serves s s' request r h =
    let (u, ticks, h1) = >>=-eq-ok (validate_tick_locked s request.tick) _ h in
    let (_, _, h2) =
      >>=-eq-ok
        (throw_if (leb_ℤ request.id (pos 0) || request.fencing_token == 0)
          (invalid_argument "invalid keepalive ownership"))
        _ h1 in
    renew_found-Serves s s' request (find request.id s.leases) r refl
      (tick-le s request.tick u ticks) h2

AreFenced-erase_leases :
    (bound : ℕ) (ids : List LeaseId) (m : Map LeaseId StoredLease)
    → AreFenced bound m
    → AreFenced bound (erase_leases ids m)
unfolding erase_leases
AreFenced-erase_leases bound [] m old = old
AreFenced-erase_leases bound (id ∷ ids) m old =
    AreFenced-erase_leases bound ids (erase id m) (AreFenced-erase bound id m old)

remove_leases_locked-Serves :
    (s s' : InMemoryMetadataStore) (ids : List LeaseId) (code : LeaseResultCode)
    (r : LeaseCleanupResult)
    → remove_leases_locked s ids code ≡ ok (s', r)
    → Serves s s'
unfolding remove_leases_locked
remove_leases_locked-Serves s s' [] code r h = subst (Serves s) (ok-state h) (Serves-refl s)
remove_leases_locked-Serves s s' (id ∷ ids) code r h =
    let (found, _, h1) = >>=-eq-ok (collect_deleted s (id ∷ ids)) _ h in
    let (revision, counts, h2) = >>=-eq-ok (next_revision_locked s) _ h1 in
    subst (Serves s) (ok-state h2)
      (install-Serves s _ _ revision _ counts (AreFenced-erase_leases _ (id ∷ ids) s.leases))

revoke_found-Serves :
    (s s' : InMemoryMetadataStore) (request : LeaseRevokeRequest) (o : Option StoredLease)
    (r : LeaseCleanupResult)
    → s.logical_tick ≤ request.tick
    → revoke_found s request o ≡ ok (s', r)
    → Serves s s'
unfolding revoke_found
revoke_found-Serves s s' request none r later h =
    subst (Serves s) (ok-state h) (only_tick s request.tick later)
revoke_found-Serves s s' request (some lease) r later h =
    elim (Bool-cases (not (lease.fencing_token == request.fencing_token))) [
      | inl stale ↦ subst (Serves s) (ok-state (rw stale at h)) (only_tick s request.tick later)
      | inr owned ↦
          (let (p, removes, done) =
              >>=-eq-ok (remove_leases_locked s (request.id ∷ []) LeaseResultCode.ok) _
                (rw owned at h) in
            subst (Serves s) (ok-state done) (
              at_tick-Serves s p.0 request.tick later (
                remove_leases_locked-Serves s p.0 (request.id ∷ []) LeaseResultCode.ok p.1
                  removes)))
    ]

pub revoke_lease-Serves :
    (s s' : InMemoryMetadataStore) (request : LeaseRevokeRequest) (r : LeaseCleanupResult)
    → revoke_lease s request ≡ ok (s', r)
    → Serves s s'
unfolding revoke_lease
revoke_lease-Serves s s' request r h =
    let (u, ticks, h1) = >>=-eq-ok (validate_tick_locked s request.tick) _ h in
    let (_, _, h2) =
      >>=-eq-ok
        (throw_if (leb_ℤ request.id (pos 0) || request.fencing_token == 0)
          (invalid_argument "invalid revoke ownership"))
        _ h1 in
    revoke_found-Serves s s' request (find request.id s.leases) r (tick-le s request.tick u ticks)
      h2

pub expire_leases-Serves :
    (s s' : InMemoryMetadataStore) (tick : ℕ) (r : LeaseCleanupResult)
    → expire_leases s tick ≡ ok (s', r)
    → Serves s s'
unfolding expire_leases
expire_leases-Serves s s' tick r h =
    let (u, ticks, h1) = >>=-eq-ok (validate_tick_locked s tick) _ h in
    let (p, removes, done) =
      >>=-eq-ok (remove_leases_locked s (expired_leases tick s.leases) LeaseResultCode.ok) _ h1 in
    subst (Serves s) (ok-state done) (
      at_tick-Serves s p.0 tick (tick-le s tick u ticks) (
        remove_leases_locked-Serves s p.0 (expired_leases tick s.leases) LeaseResultCode.ok p.1
          removes))
