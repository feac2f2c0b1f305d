-- ===== src/Examples/Leases.antt =====
-- Concrete runs of the store with leases, and the theorems about them.
use kura_metadata_store.Prelude.{◌+◌, ◌≡◌, refl, [], ◌<◌, ◌⊎◌}
use kura_metadata_store.Prelude.Int.{pos, inc_ℤ}
use kura_metadata_store.Bytes.{cmp_bytes, cmp_ℤ, bytes_ord, int_ord}
use kura_metadata_store.OrderedMap.{find, assign, erase, emplace, member, remove, insert}
use kura_metadata_store.Store.Types.{
  InMemoryMetadataStore, LeaseGrantRequest, LeaseGrantResult, LeaseRevokeRequest,
  LeaseCleanupResult, LeaseResultCode,
}
use kura_metadata_store.Store.Watch.{
  matching, watch_matches, filtered_out, event_value, value_in_watch, key_in_watch, enqueue_events,
  publish_live, publish_to, publish_all, trim_history, stage_watch_publication_locked,
  commit_watch_publication_locked,
}
use kura_metadata_store.Store.Keys.{install, next_revision_locked}
use kura_metadata_store.Store.Lease.{
  validate_tick_locked, check_grant, choose_lease_id, granted_lease, lease_record_locked,
  grant_lease, attached_value, attached_values, lease_keys, collect_deleted, insert_sorted,
  sort_by_key, erase_values, erase_leases, erase_events, remove_leases_locked, revoke_found,
  revoke_lease,
}
use kura_metadata_store.Store.Snapshot.{construct}
use kura_metadata_store.Store.Revokes.{Revoked, NotRevoked, revoke_lease-outcome}
use kura_metadata_store.Store.Fencing.Calls.{Calls, grant_call, revoke_call}
use kura_metadata_store.Store.Fencing.Runs.{
  Run, idle, and_call, Starts, empty_start, IsBounded, Run-IsBounded, tokens_increase,
  revision_fixes_values,
}
use kura_metadata_store.Examples.Stores.{empty_store, small_limits, value_or}

abbrev lease_request : LeaseGrantRequest
lease_request = record { requested_id = pos 0; ttl = 5; tick = 1 }

abbrev no_grant : LeaseGrantResult
no_grant = record {
  lease = record {
    id = pos 0;
    fencing_token = 0;
    granted_ttl = 0;
    expiry_tick = 0;
    attached_keys = [];
  };
  revision = pos 0;
}

granting : InMemoryMetadataStore → InMemoryMetadataStore × LeaseGrantResult
unfolding find emplace validate_tick_locked check_grant choose_lease_id granted_lease
    lease_record_locked grant_lease
granting s =
    value_or (s, no_grant) (grant_lease s (record lease_request { tick = s.logical_tick + 1 }))

abbrev one_lease : InMemoryMetadataStore
one_lease = (granting empty_store).0

abbrev revocation : LeaseRevokeRequest
revocation = record { id = pos 1; fencing_token = 1; tick = 2 }

revoking : InMemoryMetadataStore → InMemoryMetadataStore × LeaseCleanupResult
unfolding find assign erase member remove insert validate_tick_locked attached_value attached_values
    lease_keys collect_deleted insert_sorted sort_by_key erase_values erase_leases erase_events
    remove_leases_locked revoke_found revoke_lease next_revision_locked matching watch_matches
    filtered_out event_value value_in_watch key_in_watch enqueue_events publish_live publish_to
    publish_all trim_history stage_watch_publication_locked commit_watch_publication_locked install
    cmp_bytes
revoking s =
    value_or
      (s, record { code = LeaseResultCode.ok; leases = []; deleted_keys = []; revision = pos 0 })
      (revoke_lease s revocation)

revoke_lease-outcome_example :
    Revoked one_lease (revoking one_lease).0 revocation (revoking one_lease).1
    ⊎ NotRevoked one_lease (revoking one_lease).0 revocation (revoking one_lease).1
unfolding inc_ℤ cmp_ℤ granting revoking
revoke_lease-outcome_example =
    revoke_lease-outcome one_lease (revoking one_lease).0 revocation (revoking one_lease).1 refl

abbrev first_grant : Calls empty_store one_lease
unfolding inc_ℤ granting
first_grant = grant_call lease_request (granting empty_store).1 refl

abbrev granted_run : Run empty_store one_lease
granted_run = and_call idle first_grant

abbrev revoked_run : Run one_lease (revoking one_lease).0
unfolding inc_ℤ cmp_ℤ granting revoking
revoked_run = and_call idle (revoke_call revocation (revoking one_lease).1 refl)

abbrev started : Starts empty_store
unfolding construct
started = empty_start (pos 0) small_limits refl

Run-IsBounded_example : IsBounded one_lease
Run-IsBounded_example = Run-IsBounded empty_store one_lease started granted_run

revision_fixes_values_example : one_lease.values ≡ empty_store.values
unfolding granting
revision_fixes_values_example = revision_fixes_values empty_store one_lease granted_run refl

-- Two grants with a revocation between them.
tokens_increase_example :
    (granting empty_store).1.lease.fencing_token
    < (granting (revoking one_lease).0).1.lease.fencing_token
unfolding inc_ℤ cmp_ℤ granting revoking
tokens_increase_example =
    tokens_increase empty_store one_lease (revoking one_lease).0 (granting (revoking one_lease).0).0
      lease_request (record lease_request { tick = 3 }) (granting empty_store).1
      (granting (revoking one_lease).0).1 refl revoked_run refl
