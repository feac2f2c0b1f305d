-- ===== src/Store/Puts.antt =====
-- What `put` of src/in_memory_metadata_store.cpp stores.
use kura_metadata_store.Prelude.{◌≡◌, refl, subst, Option, none, some, arith, if◌then◌else◌}
use kura_metadata_store.Prelude.Int.{ℤ, pos, inc_ℤ}
use kura_metadata_store.Prelude.Exception.{throw_if, overflow_error, ok, >>=-eq-ok}
use kura_metadata_store.Bytes.{ByteSequence, bytes_ord, int_ord}
use kura_metadata_store.OrderedMap.{find, key_eq, find-assign}
use kura_metadata_store.Store.Types.{InMemoryMetadataStore, KeyValue, PutResult}
use kura_metadata_store.Store.Watch.{commit_watch_publication_locked}
use kura_metadata_store.Store.Keys.{
  version_exhausted, put_locked, next_value, next_revision_locked, detach_previous,
}

-- The value that a put stores: the next version of the previous one, or a first version.
pub record NextVersion (key value : ByteSequence) (revision : ℤ) (previous : Option KeyValue)
    (current : KeyValue) : Type 0 where
  pub same_key : current.key ≡ key
  pub same_value : current.value ≡ value
  pub modified : current.mod_revision ≡ revision
  pub no_lease : current.lease_id ≡ pos 0
  pub first : previous ≡ none → (current.version ≡ pos 1) × (current.create_revision ≡ revision)
  pub later :
      (p : KeyValue)
      → previous ≡ some p
      → (current.version ≡ inc_ℤ p.version) × (current.create_revision ≡ p.create_revision)

next_value-NextVersion :
    (key value : ByteSequence) (revision : ℤ) (previous : Option KeyValue)
    → NextVersion key value revision previous (next_value key value revision (pos 0) previous)
unfolding next_value
next_value-NextVersion key value revision none = record {
  same_key = refl;
  same_value = refl;
  modified = refl;
  no_lease = refl;
  first = λ h. (refl, refl);
  later = λ p h. cc;
}
next_value-NextVersion key value revision (some q) = record {
  same_key = refl;
  same_value = refl;
  modified = refl;
  no_lease = refl;
  first = λ h. cc;
  later = λ p h. (ground (arith, h), ground (arith, h));
}

-- What a put leaves behind.
pub record Puts (s s' : InMemoryMetadataStore) (key value : ByteSequence) (r : PutResult)
    : Type 0 where
  pub revision : s'.revision ≡ inc_ℤ s.revision
  pub reported : r.revision ≡ s'.revision
  pub previous : r.previous ≡ find key s.values
  pub current : NextVersion key value s'.revision (find key s.values) r.current
  pub found :
      (k : ByteSequence)
      → find k s'.values ≡ (if key_eq key k then some r.current else find k s.values)

-- The same of `put_locked`, which a compare-and-set shares.
pub put_locked-Puts :
    (s s' : InMemoryMetadataStore) (key value : ByteSequence) (r : PutResult)
    → put_locked s key value ≡ ok (s', r)
    → Puts s s' key value r
unfolding put_locked commit_watch_publication_locked
put_locked-Puts s s' key value r h =
    let (revision, counts, h1) = >>=-eq-ok (next_revision_locked s) _ h in
    let (_, fits, h2) =
      >>=-eq-ok
        (throw_if (version_exhausted (find key s.values)) (overflow_error "key version exhausted"))
        _ h1 in
    let (leases, detaches, h3) = >>=-eq-ok (detach_previous s.leases (find key s.values)) _ h2 in
    let counted : inc_ℤ s.revision ≡ revision = ground arith in
    let moved : revision ≡ s'.revision = ground arith in
    let made : next_value key value revision (pos 0) (find key s.values) ≡ r.current =
      ground arith in
    record {
      revision = ground arith;
      reported = ground arith;
      previous = ground arith;
      current =
          subst (λ v. NextVersion key value s'.revision (find key s.values) v) made
            (subst
              (λ n.
                NextVersion key value n (find key s.values)
                  (next_value key value revision (pos 0) (find key s.values)))
              moved (next_value-NextVersion key value revision (find key s.values)));
      found = λ k. ground (arith, find-assign key k r.current s.values);
    }
