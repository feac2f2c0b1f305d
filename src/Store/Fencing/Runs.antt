-- ===== src/Store/Fencing/Runs.antt =====
-- What holds over every run of the store of src/in_memory_metadata_store.cpp.
use kura_metadata_store.Prelude.{
  ◌≡◌, refl, ◌∙◌, subst, true, false, List, [], ◌∷◌, arith, inl, inr, ◌⊎◌, ◌<◌, ◌≤◌, ◌||◌, ltb, leb,
  ◌==◌, length, zero, suc,
}
use kura_metadata_store.Prelude.Int.{ℤ, pos, negsuc, inc_ℤ, ltb_ℤ, leb_ℤ}
use kura_metadata_store.Prelude.Exception.{
  ok, throw_if, invalid_argument, store_error, >>=-eq-ok, ok-injective,
}
use kura_metadata_store.Prelude.Status.{StatusCode}
use kura_metadata_store.Bytes.{ByteSequence, bytes_ord, int_ord}
use kura_metadata_store.OrderedMap.{Map, find}
use kura_metadata_store.Store.Types.{
  InMemoryMetadataStore, InMemoryStoreSnapshot, StoreLimits, KeyValue, StoredLease, LeaseId,
  LeaseGrantRequest, LeaseGrantResult,
}
use kura_metadata_store.Store.Lease.{grant_lease}
use kura_metadata_store.Store.Snapshot.{
  construct, construct_from_values, construct_from_snapshot, load_initial, load_leases, load_values,
  check_leases, check_attached,
}
use kura_metadata_store.Store.Fencing.{AreFenced, IsTrimmed, Moves}
use kura_metadata_store.Store.Fencing.Leases.{grant_lease-Grants}
use kura_metadata_store.Store.Fencing.Calls.{Calls, Calls-Serves}

pub data Run (s : InMemoryMetadataStore) : InMemoryMetadataStore → Type 0 where
  idle : Run s s
  and_call : {t u : InMemoryMetadataStore} → Run s t → Calls t u → Run s u

run-tokens : {s t : InMemoryMetadataStore} → Run s t → s.next_fencing_token ≤ t.next_fencing_token
run-tokens idle = omega arith
run-tokens (and_call {t = t} {u = u} run call) =
    omega (arith, run-tokens run, (Calls-Serves t u call).tokens)

run-AreFenced :
    {s t : InMemoryMetadataStore}
    → Run s t
    → AreFenced s.next_fencing_token s.leases
    → AreFenced t.next_fencing_token t.leases
run-AreFenced idle h = h
run-AreFenced (and_call {t = t} {u = u} run call) h =
    (Calls-Serves t u call).fenced (run-AreFenced run h)

run-IsTrimmed : {s t : InMemoryMetadataStore} → Run s t → IsTrimmed s → IsTrimmed t
run-IsTrimmed idle h = h
run-IsTrimmed (and_call {t = t} {u = u} run call) h =
    (Calls-Serves t u call).history (run-IsTrimmed run h)

ltb_ℤ-trans : (a b c : ℤ) → ltb_ℤ a b ≡ true → ltb_ℤ b c ≡ true → ltb_ℤ a c ≡ true
ltb_ℤ-trans a b c h k = ground arith

below-inc : (a : ℤ) → ltb_ℤ a (inc_ℤ a) ≡ true
unfolding inc_ℤ
below-inc (pos n) = ground arith
below-inc (negsuc zero) = ground arith
below-inc (negsuc (suc n)) = ground arith

-- A store and a later one: the revision and the values stay, or the revision is higher.
abbrev Later : InMemoryMetadataStore → InMemoryMetadataStore → Type 0
Later s t =
    ((t.revision ≡ s.revision) × (t.values ≡ s.values)) ⊎ (ltb_ℤ s.revision t.revision ≡ true)

Later-Moves : (s t u : InMemoryMetadataStore) → Later s t → Moves t u → Later s u
Later-Moves s t u (inl (revision, values)) (inl (revision', values', history)) =
    inl (revision' ∙ revision, values' ∙ values)
Later-Moves s t u (inl (revision, values)) (inr moved) =
    inr (rw (moved, revision) (below-inc s.revision))
Later-Moves s t u (inr lower) (inl (revision, values, history)) = inr (rw revision lower)
Later-Moves s t u (inr lower) (inr moved) =
    inr
      (rw moved (ltb_ℤ-trans s.revision t.revision (inc_ℤ t.revision) lower (below-inc t.revision)))

run-Later : {s t : InMemoryMetadataStore} → Run s t → Later s t
run-Later idle = inl (refl, refl)
run-Later {s} (and_call {t = t} {u = u} run call) =
    Later-Moves s t u (run-Later run) (Calls-Serves t u call).moves

not_below : (a : ℤ) → ltb_ℤ a a ≡ false
not_below a = ground arith

-- Two reads of one store at the same revision are of the same values, whatever is called in
-- between.
pub revision_fixes_values :
    (s t : InMemoryMetadataStore) → Run s t → t.revision ≡ s.revision → t.values ≡ s.values
revision_fixes_values s t run same = elim (run-Later run) [
  | inl (revision, values) ↦ values
  | inr lower ↦ cc (lower, same, not_below s.revision)
]

-- The lease of a later grant has a greater fencing token than that of an earlier one, whatever is
-- called in between.
pub tokens_increase :
    (s s1 s2 s3 : InMemoryMetadataStore) (first second : LeaseGrantRequest)
    (r1 r2 : LeaseGrantResult)
    → grant_lease s first ≡ ok (s1, r1)
    → Run s1 s2
    → grant_lease s2 second ≡ ok (s3, r2)
    → r1.lease.fencing_token < r2.lease.fencing_token
tokens_increase s s1 s2 s3 first second r1 r2 h1 run h2 =
    let one = grant_lease-Grants s s1 first r1 h1 in
    let two = grant_lease-Grants s2 s3 second r2 h2 in
    omega (arith, one.token, one.used, two.token, run-tokens run)

-- How a store comes to be.
pub data Starts (s : InMemoryMetadataStore) : Type 0 where
  empty_start : (revision : ℤ) (limits : StoreLimits) → construct revision limits ≡ ok s → Starts s
  values_start :
      (values : List KeyValue) (revision : ℤ) (limits : StoreLimits)
      → construct_from_values values revision limits ≡ ok s
      → Starts s
  snapshot_start :
      (snap : InMemoryStoreSnapshot) (limits : StoreLimits)
      → construct_from_snapshot snap limits ≡ ok s
      → Starts s

checked-AreFenced :
    (snap : InMemoryStoreSnapshot) (values : Map ByteSequence KeyValue)
    (leases : Map LeaseId StoredLease) (u : Unit {0})
    → check_leases snap values leases ≡ ok u
    → AreFenced snap.next_fencing_token leases
unfolding check_leases find
checked-AreFenced snap values [] u h j x found = cc
checked-AreFenced snap values ((id, lease) ∷ rest) u h j x found =
    let (_, ahead, h1) =
      >>=-eq-ok
        (throw_if (leb_ℤ snap.next_lease_id id || leb snap.next_fencing_token lease.fencing_token)
          (invalid_argument "snapshot allocation counters are not ahead of leases"))
        _ h in
    let (_, _, h2) = >>=-eq-ok (check_attached values id lease.attached_keys) _ h1 in
    ground (arith, checked-AreFenced snap values rest _ h2 j x)

-- Of a store as a constructor makes it.
abbrev pub IsBounded : InMemoryMetadataStore → Type 0
IsBounded s = AreFenced s.next_fencing_token s.leases × IsTrimmed s

Starts-IsBounded : (s : InMemoryMetadataStore) → Starts s → IsBounded s
unfolding construct construct_from_values construct_from_snapshot find
Starts-IsBounded s (empty_start revision limits h) =
    let (_, _, done) =
      >>=-eq-ok
        (throw_if (ltb_ℤ revision (pos 0))
          (invalid_argument "initial revision must not be negative"))
        _ h in
    subst IsBounded (ok-injective done) (λ j x found. cc, omega arith)
Starts-IsBounded s (values_start values revision limits h) =
    let (_, _, h1) =
      >>=-eq-ok
        (throw_if (ltb_ℤ revision (pos 0))
          (invalid_argument "initial revision must not be negative"))
        _ h in
    let (_, _, done) = >>=-eq-ok (load_initial revision values []) _ h1 in
    subst IsBounded (ok-injective done) (λ j x found. cc, omega arith)
Starts-IsBounded s (snapshot_start snap limits h) =
    let (_, _, h1) =
      >>=-eq-ok
        (throw_if
          (ltb_ℤ snap.revision (pos 0)
            || (leb_ℤ snap.next_lease_id (pos 0) || snap.next_fencing_token == 0))
          (invalid_argument "invalid snapshot counters"))
        _ h in
    let (_, _, h2) =
      >>=-eq-ok
        (throw_if (ltb limits.max_active_leases (length snap.leases)) (
          store_error StatusCode.quota_exceeded "lease snapshot exceeds active lease limit"
            (pos 0)))
        _ h1 in
    let (leases, _, h3) = >>=-eq-ok (load_leases snap.leases []) _ h2 in
    let (values, _, h4) = >>=-eq-ok (load_values snap.revision leases snap.values []) _ h3 in
    let (u, checked, done) = >>=-eq-ok (check_leases snap values leases) _ h4 in
    subst IsBounded (ok-injective done)
      (checked-AreFenced snap values leases u checked, omega arith)

-- In every store that a constructor and any calls lead to, each live lease has a fencing token
-- below the next one to be granted, and the history is within its limit.
pub Run-IsBounded : (s t : InMemoryMetadataStore) → Starts s → Run s t → IsBounded t
Run-IsBounded s t starts run =
    let (fenced, trimmed) = Starts-IsBounded s starts in
    (run-AreFenced run fenced, run-IsTrimmed run trimmed)
