-- ===== src/Store/Writes.antt =====
-- `put`, `erase` and `compare_and_set` of src/in_memory_metadata_store.cpp as a client sees them.
use kura_metadata_store.Prelude.{
  ◌≡◌, ◌≢◌, ◌⊎◌, inl, inr, Bool-cases, refl, subst, Bool, true, false, Option, none, some, arith,
  if◌then◌else◌,
}
use kura_metadata_store.Prelude.Int.{ℤ, pos, inc_ℤ, ltb_ℤ}
use kura_metadata_store.Prelude.Exception.{throw_if, invalid_argument, ok, >>=-eq-ok}
use kura_metadata_store.Bytes.{cmp_bytes_eq, ByteSequence, bytes_ord, int_ord}
use kura_metadata_store.OrderedMap.{Map, find, key_eq, find-erase}
use kura_metadata_store.Store.Types.{
  InMemoryMetadataStore, KeyValue, PutResult, DeleteResult, CompareAndSetResult,
}
use kura_metadata_store.Store.Watch.{commit_watch_publication_locked}
use kura_metadata_store.Store.Keys.{
  swap_if, put, put_locked, erase_key, erase_found, compare_and_set, next_revision_locked,
  detach_key, validate_key, revision_matches,
}
use kura_metadata_store.Store.Puts.{Puts, put_locked-Puts}

absent_key :
    (key k : ByteSequence) (m : Map ByteSequence KeyValue)
    → find key m ≡ none
    → find k m ≡ (if key_eq key k then none else find k m)
absent_key key k m h = ground (arith, cmp_bytes_eq key k)

-- A put that succeeds moves the revision on by one, reports the value that was there, stores the
-- next version (or the first) under the new revision and without a lease, and leaves every other key as it was.
pub put-Puts :
    (s s' : InMemoryMetadataStore) (key value : ByteSequence) (r : PutResult)
    → put s key value ≡ ok (s', r)
    → Puts s s' key value r
unfolding put
put-Puts s s' key value r h =
    let (_, _, rest) = >>=-eq-ok (validate_key key) _ h in put_locked-Puts s s' key value r rest

-- What an erase leaves behind.
pub record Erases (s s' : InMemoryMetadataStore) (key : ByteSequence) (r : DeleteResult)
    : Type 0 where
  pub previous : r.previous ≡ find key s.values
  pub reported : r.revision ≡ s'.revision
  pub absent : find key s.values ≡ none → (s' ≡ s) × (r.deleted ≡ false)
  pub present :
      (v : KeyValue)
      → find key s.values ≡ some v
      → (s'.revision ≡ inc_ℤ s.revision) × (r.deleted ≡ true)
  pub found :
      (k : ByteSequence) → find k s'.values ≡ (if key_eq key k then none else find k s.values)

erase_found-Erases :
    (s s' : InMemoryMetadataStore) (key : ByteSequence) (o : Option KeyValue) (r : DeleteResult)
    → find key s.values ≡ o
    → erase_found s key o ≡ ok (s', r)
    → Erases s s' key r
unfolding erase_found commit_watch_publication_locked
erase_found-Erases s s' key none r o h = record {
  previous = ground arith;
  reported = ground arith;
  absent = λ e. (ground arith, ground arith);
  present = λ v e. cc;
  found = λ k. ground (arith, absent_key key k s.values o);
}
erase_found-Erases s s' key (some v) r o h =
    let (revision, counts, h1) = >>=-eq-ok (next_revision_locked s) _ h in
    let (leases, detaches, h2) = >>=-eq-ok (detach_key s.leases v) _ h1 in
    let counted : inc_ℤ s.revision ≡ revision = ground arith in
    record {
      previous = ground arith;
      reported = ground arith;
      absent = λ e. cc;
      present = λ w e. (ground arith, ground arith);
      found = λ k. ground (arith, find-erase key k s.values);
    }

-- An erase that succeeds reports the value that was there and leaves every other key as it was.
-- Where the key is absent it changes nothing; where it is present the key goes, and the revision
-- moves on by one.
pub erase_key-Erases :
    (s s' : InMemoryMetadataStore) (key : ByteSequence) (r : DeleteResult)
    → erase_key s key ≡ ok (s', r)
    → Erases s s' key r
unfolding erase_key
erase_key-Erases s s' key r h =
    let (_, _, rest) = >>=-eq-ok (validate_key key) _ h in
    erase_found-Erases s s' key (find key s.values) r refl rest

-- What a compare-and-set leaves behind that writes, and one that does not.
pub record Swapped (s s' : InMemoryMetadataStore) (key value : ByteSequence)
    (r : CompareAndSetResult) : Type 0 where
  pub succeeded : r.succeeded ≡ true
  pub written : PutResult
  pub writes : Puts s s' key value written
  pub current : r.current ≡ some written.current
  pub revision : r.revision ≡ s'.revision

pub record Refused (s s' : InMemoryMetadataStore) (key : ByteSequence) (r : CompareAndSetResult)
    : Type 0 where
  pub succeeded : r.succeeded ≡ false
  pub same : s' ≡ s
  pub current : r.current ≡ find key s.values
  pub revision : r.revision ≡ s.revision

abbrev Swap :
    InMemoryMetadataStore
    → InMemoryMetadataStore
    → ByteSequence
    → ByteSequence
    → CompareAndSetResult
    → Bool
    → Type 0
Swap s s' key value r false = Refused s s' key r
Swap s s' key value r true = Swapped s s' key value r

-- The modification revision of a key, 0 where it is missing.
abbrev pub revision_of : Option KeyValue → ℤ
revision_of none = pos 0
revision_of (some v) = v.mod_revision

-- It writes where the revision is the expected one, and else it does not.
abbrev pub Swaps :
    InMemoryMetadataStore
    → InMemoryMetadataStore
    → ByteSequence
    → ByteSequence
    → ℤ
    → CompareAndSetResult
    → Type 0
Swaps s s' key value expected r =
    ((revision_of (find key s.values) ≡ expected) × Swapped s s' key value r)
    ⊎ ((revision_of (find key s.values) ≢ expected) × Refused s s' key r)

matches_true :
    (o : Option KeyValue) (expected : ℤ)
    → revision_matches o expected ≡ true
    → revision_of o ≡ expected
unfolding revision_matches
matches_true none expected h = ground arith
matches_true (some v) expected h = ground arith

matches_false :
    (o : Option KeyValue) (expected : ℤ)
    → revision_matches o expected ≡ false
    → revision_of o ≢ expected
unfolding revision_matches
matches_false none expected h = λ e. ground (arith, e)
matches_false (some v) expected h = λ e. ground (arith, e)

Swap-Swap :
    (s s' : InMemoryMetadataStore) (key value : ByteSequence) (r : CompareAndSetResult) (b : Bool)
    → swap_if b s key value ≡ ok (s', r)
    → Swap s s' key value r b
unfolding swap_if
Swap-Swap s s' key value r false h = record {
  succeeded = ground arith;
  same = ground arith;
  current = ground arith;
  revision = ground arith;
}
Swap-Swap s s' key value r true h =
    let (p, puts, done) = >>=-eq-ok (put_locked s key value) _ h in
    let same : p.0 ≡ s' = ground arith in
    let written : Puts s s' key value p.1 =
      subst (λ x. Puts s x key value p.1) same (put_locked-Puts s p.0 key value p.1 puts) in
    record {
      succeeded = ground arith;
      written = p.1;
      writes = written;
      current = ground arith;
      revision = ground (arith, written.reported);
    }

-- A compare-and-set that returns writes exactly when the key's modification revision, 0 for a
-- missing key, is the expected one; else it reports the current value and changes nothing.
pub compare_and_set-Swaps :
    (s s' : InMemoryMetadataStore) (key value : ByteSequence) (expected : ℤ)
    (r : CompareAndSetResult)
    → compare_and_set s key expected value ≡ ok (s', r)
    → Swaps s s' key value expected r
unfolding compare_and_set
compare_and_set-Swaps s s' key value expected r h =
    let (_, _, h1) = >>=-eq-ok (validate_key key) _ h in
    let (_, _, h2) =
      >>=-eq-ok
        (throw_if (ltb_ℤ expected (pos 0))
          (invalid_argument "expected modification revision must not be negative"))
        _ h1 in
    let o : Option KeyValue = find key s.values in
    elim (Bool-cases (revision_matches o expected)) [
      | inl same ↦ inl (
        matches_true o expected same,
        Swap-Swap s s' key value r true (subst (λ b. swap_if b s key value ≡ ok (s', r)) same h2),
      )
      | inr other ↦ inr (
        matches_false o expected other,
        Swap-Swap s s' key value r false (subst (λ b. swap_if b s key value ≡ ok (s', r)) other h2),
      )
    ]
