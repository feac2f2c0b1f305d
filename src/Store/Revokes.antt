-- ===== src/Store/Revokes.antt =====
-- `revoke_lease` of src/in_memory_metadata_store.cpp as a client sees it.
use kura_metadata_store.Prelude.{
  ◌≡◌, refl, false, Bool-cases, Option, none, some, [], ◌∷◌, arith, inl, inr, ◌⊎◌, ◌==◌, ◌||◌,
}
use kura_metadata_store.Prelude.Int.{pos, leb_ℤ}
use kura_metadata_store.Prelude.Exception.{ok, throw_if, invalid_argument, >>=-eq-ok}
use kura_metadata_store.Bytes.{bytes_ord, int_ord}
use kura_metadata_store.OrderedMap.{find, erase}
use kura_metadata_store.Store.Types.{
  InMemoryMetadataStore, StoredLease, LeaseRevokeRequest, LeaseCleanupResult, LeaseResultCode,
}
use kura_metadata_store.Store.Keys.{next_revision_locked, install}
use kura_metadata_store.Store.Lease.{
  validate_tick_locked, collect_deleted, erase_leases, remove_leases_locked, revoke_found,
  revoke_lease,
}
use kura_metadata_store.Store.Watch.{commit_watch_publication_locked}

-- A revocation that goes through, and one that is refused.
pub record Revoked (s s' : InMemoryMetadataStore) (request : LeaseRevokeRequest)
    (r : LeaseCleanupResult) : Type 0 where
  pub lease : StoredLease
  pub live : find request.id s.leases ≡ some lease
  pub owned : lease.fencing_token ≡ request.fencing_token
  pub leases : s'.leases ≡ erase request.id s.leases
  pub code : r.code ≡ LeaseResultCode.ok

pub record NotRevoked (s s' : InMemoryMetadataStore) (request : LeaseRevokeRequest)
    (r : LeaseCleanupResult) : Type 0 where
  pub stale :
      (lease : StoredLease)
      → find request.id s.leases ≡ some lease
      → (lease.fencing_token == request.fencing_token) ≡ false
  pub only_tick : s' ≡ record s { logical_tick = request.tick }
  pub deleted : r.deleted_keys ≡ []

revoke_found-outcome :
    (s s' : InMemoryMetadataStore) (request : LeaseRevokeRequest) (o : Option StoredLease)
    (r : LeaseCleanupResult)
    → find request.id s.leases ≡ o
    → revoke_found s request o ≡ ok (s', r)
    → Revoked s s' request r ⊎ NotRevoked s s' request r
unfolding revoke_found remove_leases_locked erase_leases install commit_watch_publication_locked
revoke_found-outcome s s' request none r found h =
    inr (record { stale = λ lease e. cc; only_tick = ground arith; deleted = ground arith })
revoke_found-outcome s s' request (some lease) r found h =
    elim (Bool-cases (lease.fencing_token == request.fencing_token)) [
      | inl owned ↦
          (let (p, removes, done) =
              >>=-eq-ok (remove_leases_locked s (request.id ∷ []) LeaseResultCode.ok) _
                (rw owned at h) in
            let (doomed, _, h1) = >>=-eq-ok (collect_deleted s (request.id ∷ [])) _ removes in
            let (revision, _, h2) = >>=-eq-ok (next_revision_locked s) _ h1 in
            inl (record {
              lease = lease;
              live = found;
              owned = ground arith;
              leases = ground arith;
              code = ground arith;
            }))
      | inr stale ↦
          inr (record {
            stale = λ x e. ground arith;
            only_tick = ground arith;
            deleted = ground arith;
          })
    ]

-- A revocation that returns either names a live lease and its fencing token, and then removes that
-- lease and no other, or it names no live lease or another token, and then changes the tick alone
-- and deletes no key.
pub revoke_lease-outcome :
    (s s' : InMemoryMetadataStore) (request : LeaseRevokeRequest) (r : LeaseCleanupResult)
    → revoke_lease s request ≡ ok (s', r)
    → Revoked s s' request r ⊎ NotRevoked s s' request r
unfolding revoke_lease
revoke_lease-outcome s s' request r h =
    let (_, _, h1) = >>=-eq-ok (validate_tick_locked s request.tick) _ h in
    let (_, _, h2) =
      >>=-eq-ok
        (throw_if (leb_ℤ request.id (pos 0) || request.fencing_token == 0)
          (invalid_argument "invalid revoke ownership"))
        _ h1 in
    revoke_found-outcome s s' request (find request.id s.leases) r refl h2
