-- ===== src/Store/Fencing/Keys.antt =====
-- `put`, `erase` and `compare_and_set` of src/in_memory_metadata_store.cpp on the counters.
use kura_metadata_store.Prelude.{◌≡◌, subst, Bool, true, false, Option, none, some}
use kura_metadata_store.Prelude.Int.{ℤ, pos, ltb_ℤ}
use kura_metadata_store.Prelude.Exception.{
  ok, throw_if, overflow_error, invalid_argument, >>=-eq-ok,
}
use kura_metadata_store.Bytes.{ByteSequence, bytes_ord, int_ord}
use kura_metadata_store.OrderedMap.{find}
use kura_metadata_store.Store.Types.{
  InMemoryMetadataStore, KeyValue, PutResult, DeleteResult, CompareAndSetResult,
}
use kura_metadata_store.Store.Keys.{
  swap_if, version_exhausted, put, put_locked, erase_key, erase_found, compare_and_set,
  revision_matches, next_revision_locked, detach_previous, detach_key, validate_key,
}
use kura_metadata_store.Store.Fencing.{
  Serves, Serves-refl, install-Serves, ok-state, AreFenced-detach_previous, AreFenced-detach_key,
}

put_locked-Serves :
    (s s' : InMemoryMetadataStore) (key value : ByteSequence) (r : PutResult)
    → put_locked s key value ≡ ok (s', r)
    → Serves s s'
unfolding put_locked
put_locked-Serves s s' key value r h =
    let (revision, counts, h1) = >>=-eq-ok (next_revision_locked s) _ h in
    let (_, fits, h2) =
      >>=-eq-ok
        (throw_if (version_exhausted (find key s.values)) (overflow_error "key version exhausted"))
        _ h1 in
    let (leases, detaches, h3) = >>=-eq-ok (detach_previous s.leases (find key s.values)) _ h2 in
    subst (Serves s) (ok-state h3) (
      install-Serves s _ leases revision _ counts
        (λ old. AreFenced-detach_previous _ s.leases leases (find key s.values) old detaches))

pub put-Serves :
    (s s' : InMemoryMetadataStore) (key value : ByteSequence) (r : PutResult)
    → put s key value ≡ ok (s', r)
    → Serves s s'
unfolding put
put-Serves s s' key value r h =
    let (_, _, rest) = >>=-eq-ok (validate_key key) _ h in put_locked-Serves s s' key value r rest

erase_found-Serves :
    (s s' : InMemoryMetadataStore) (key : ByteSequence) (o : Option KeyValue) (r : DeleteResult)
    → erase_found s key o ≡ ok (s', r)
    → Serves s s'
unfolding erase_found
erase_found-Serves s s' key none r h = subst (Serves s) (ok-state h) (Serves-refl s)
erase_found-Serves s s' key (some v) r h =
    let (revision, counts, h1) = >>=-eq-ok (next_revision_locked s) _ h in
    let (leases, detaches, h2) = >>=-eq-ok (detach_key s.leases v) _ h1 in
    subst (Serves s) (ok-state h2) (
      install-Serves s _ leases revision _ counts
        (λ old. AreFenced-detach_key _ s.leases leases v old detaches))

pub erase_key-Serves :
    (s s' : InMemoryMetadataStore) (key : ByteSequence) (r : DeleteResult)
    → erase_key s key ≡ ok (s', r)
    → Serves s s'
unfolding erase_key
erase_key-Serves s s' key r h =
    let (_, _, rest) = >>=-eq-ok (validate_key key) _ h in
    erase_found-Serves s s' key (find key s.values) r rest

swap-Serves :
    (s s' : InMemoryMetadataStore) (key value : ByteSequence) (r : CompareAndSetResult) (b : Bool)
    → swap_if b s key value ≡ ok (s', r)
    → Serves s s'
unfolding swap_if
swap-Serves s s' key value r false h = subst (Serves s) (ok-state h) (Serves-refl s)
swap-Serves s s' key value r true h =
    let (p, puts, done) = >>=-eq-ok (put_locked s key value) _ h in
    subst (Serves s) (ok-state done) (put_locked-Serves s p.0 key value p.1 puts)

pub compare_and_set-Serves :
    (s s' : InMemoryMetadataStore) (key value : ByteSequence) (expected : ℤ)
    (r : CompareAndSetResult)
    → compare_and_set s key expected value ≡ ok (s', r)
    → Serves s s'
unfolding compare_and_set
compare_and_set-Serves s s' key value expected r h =
    let (_, _, h1) = >>=-eq-ok (validate_key key) _ h in
    let (_, _, h2) =
      >>=-eq-ok
        (throw_if (ltb_ℤ expected (pos 0))
          (invalid_argument "expected modification revision must not be negative"))
        _ h1 in
    swap-Serves s s' key value r (revision_matches (find key s.values) expected) h2
