-- ===== src/Examples/Stores.antt =====
-- Concrete stores, and the theorems about the in-memory metadata store at them.
use kura_metadata_store.Prelude.{refl, none, [], ◌∷◌, false}
use kura_metadata_store.Prelude.Int.{pos, inc_ℤ}
use kura_metadata_store.Prelude.Exception.{Result, ok, err}
use kura_metadata_store.Bytes.{ByteSequence, cmp_bytes, bytes_ord, int_ord}
use kura_metadata_store.Store.Types.{InMemoryMetadataStore, StoreLimits, KeyValue}
use kura_metadata_store.Store.Puts.{Puts}
use kura_metadata_store.Store.Writes.{
  put-Puts, Erases, erase_key-Erases, Swaps, compare_and_set-Swaps,
}
use kura_metadata_store.OrderedMap.{find, assign, erase, member, remove, insert}
use kura_metadata_store.Store.Types.{PutResult, DeleteResult, CompareAndSetResult}
use kura_metadata_store.Store.Snapshot.{fresh}
use kura_metadata_store.Store.Watch.{
  matching, watch_matches, filtered_out, event_value, value_in_watch, key_in_watch, enqueue_events,
  publish_live, publish_to, publish_all, trim_history, stage_watch_publication_locked,
  commit_watch_publication_locked,
}
use kura_metadata_store.Store.Keys.{
  install, validate_key, next_revision_locked, detach_from, detach_key, detach_previous, next_value,
  put_locked, put, erase_found, erase_key, revision_matches, swap_if, compare_and_set,
}

abbrev pub small_limits : StoreLimits
small_limits = record {
  max_key_bytes = 16;
  max_value_bytes = 16;
  max_transaction_operations = 4;
  max_watchers = 2;
  max_watch_history_revisions = 2;
  max_watch_pending_responses = 2;
  max_active_leases = 2;
}

abbrev pub empty_store : InMemoryMetadataStore
empty_store = fresh (pos 0) small_limits

-- What an operation gives, where it succeeds.
abbrev pub value_or {ℓ} : {A : Type ℓ} → A → Result A → A
value_or d (ok a) = a
value_or d (err x) = d

abbrev no_value : KeyValue
no_value = record {
  key = [];
  value = [];
  version = pos 0;
  create_revision = pos 0;
  mod_revision = pos 0;
  lease_id = pos 0;
}

-- One value under the key `7`.
putting : InMemoryMetadataStore → ByteSequence → ByteSequence → InMemoryMetadataStore × PutResult
unfolding find assign erase member remove insert validate_key next_revision_locked detach_from
    detach_key detach_previous next_value put_locked put matching watch_matches filtered_out
    event_value value_in_watch key_in_watch enqueue_events publish_live publish_to publish_all
    trim_history stage_watch_publication_locked commit_watch_publication_locked install cmp_bytes
putting s key value =
    value_or (s, record { current = no_value; previous = none; revision = pos 0 }) (put s key value)

abbrev one_key : InMemoryMetadataStore
one_key = (putting empty_store (7 ∷ []) (1 ∷ [])).0

erasing : InMemoryMetadataStore → ByteSequence → InMemoryMetadataStore × DeleteResult
unfolding find assign erase member remove insert validate_key next_revision_locked detach_from
    detach_key detach_previous erase_found erase_key matching watch_matches filtered_out event_value
    value_in_watch key_in_watch enqueue_events publish_live publish_to publish_all trim_history
    stage_watch_publication_locked commit_watch_publication_locked install cmp_bytes
erasing s key =
    value_or (s, record { deleted = false; previous = none; revision = pos 0 }) (erase_key s key)

swapping :
    InMemoryMetadataStore
    → ByteSequence
    → ByteSequence
    → InMemoryMetadataStore × CompareAndSetResult
unfolding find assign erase member remove insert validate_key next_revision_locked detach_from
    detach_key detach_previous next_value put_locked swap_if revision_matches compare_and_set
    matching watch_matches filtered_out event_value value_in_watch key_in_watch enqueue_events
    publish_live publish_to publish_all trim_history stage_watch_publication_locked
    commit_watch_publication_locked install cmp_bytes
swapping s key value =
    value_or (s, record { succeeded = false; current = none; revision = pos 0 })
      (compare_and_set s key (pos 1) value)

put-Puts_example :
    Puts one_key
      (putting one_key (7 ∷ []) (2 ∷ [])).0
      (7 ∷ [])
      (2 ∷ [])
      (putting one_key (7 ∷ []) (2 ∷ [])).1
unfolding inc_ℤ putting
put-Puts_example =
    put-Puts one_key (putting one_key (7 ∷ []) (2 ∷ [])).0 (7 ∷ []) (2 ∷ [])
      (putting one_key (7 ∷ []) (2 ∷ [])).1 refl

erase_key-Erases_example :
    Erases one_key (erasing one_key (7 ∷ [])).0 (7 ∷ []) (erasing one_key (7 ∷ [])).1
unfolding inc_ℤ putting erasing
erase_key-Erases_example =
    erase_key-Erases one_key (erasing one_key (7 ∷ [])).0 (7 ∷ []) (erasing one_key (7 ∷ [])).1 refl

compare_and_set-Swaps_example :
    Swaps one_key
      (swapping one_key (7 ∷ []) (2 ∷ [])).0
      (7 ∷ [])
      (2 ∷ [])
      (pos 1)
      (swapping one_key (7 ∷ []) (2 ∷ [])).1
unfolding inc_ℤ putting swapping
compare_and_set-Swaps_example =
    compare_and_set-Swaps one_key (swapping one_key (7 ∷ []) (2 ∷ [])).0 (7 ∷ []) (2 ∷ []) (pos 1)
      (swapping one_key (7 ∷ []) (2 ∷ [])).1 refl
