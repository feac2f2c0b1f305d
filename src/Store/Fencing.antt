-- ===== src/Store/Fencing.antt =====
-- The fencing tokens of the leases of src/in_memory_metadata_store.cpp, and how an operation may
-- move the counters of the store.
pub mod Keys
pub mod Leases
pub mod Effects
pub mod Transactions
pub mod Calls
pub mod Runs
use kura_metadata_store.Prelude.{
  ◌≡◌, refl, sym, ap, ◌∙◌, subst, Bool, true, false, Bool-cases, Option, none, some, List, [], ◌∷◌,
  ◌++◌, arith, if◌then◌else◌, inl, inr, ◌⊎◌, ℕ, ◌<◌, ◌≤◌, length, suc,
}
use kura_metadata_store.Prelude.Int.{ℤ, pos, inc_ℤ, eqb_ℤ}
use kura_metadata_store.Prelude.Exception.{Result, ok, err, ◌>>=◌, ◌>>◌, >>=-eq-ok, ok-injective}
use kura_metadata_store.Bytes.{ByteSequence, bytes_ord, int_ord}
use kura_metadata_store.OrderedMap.{
  Map, find, assign, erase, insert, remove, emplace, key_eq, find-assign, find-erase, find-emplace,
}
use kura_metadata_store.Store.Types.{
  InMemoryMetadataStore, KeyValue, StoredLease, LeaseId, EventBatch, WatchEvent,
}
use kura_metadata_store.Store.Watch.{
  trim_history, stage_watch_publication_locked, commit_watch_publication_locked,
}
use kura_metadata_store.Store.Transaction.{attach_if}
use kura_metadata_store.Store.Keys.{
  install, next_revision_locked, detach_from, detach_key, detach_previous, attach_to, attach_key,
}

-- Every lease holds a token below `bound`.
abbrev pub AreFenced : ℕ → Map LeaseId StoredLease → Type 0
AreFenced bound leases =
    (id : LeaseId) (lease : StoredLease) → find id leases ≡ some lease → lease.fencing_token < bound

pub AreFenced-assign :
    (bound : ℕ) (id : LeaseId) (lease : StoredLease) (m : Map LeaseId StoredLease)
    → lease.fencing_token < bound
    → AreFenced bound m
    → AreFenced bound (assign id lease m)
AreFenced-assign bound id lease m new old j x h = ground (arith, find-assign id j lease m, old j x)

pub AreFenced-erase :
    (bound : ℕ) (id : LeaseId) (m : Map LeaseId StoredLease)
    → AreFenced bound m
    → AreFenced bound (erase id m)
AreFenced-erase bound id m old j x h = ground (arith, find-erase id j m, old j x)

pub AreFenced-emplace :
    (bound : ℕ) (id : LeaseId) (lease : StoredLease) (m : Map LeaseId StoredLease)
    → lease.fencing_token < bound
    → AreFenced bound m
    → AreFenced bound (emplace id lease m)
AreFenced-emplace bound id lease m new old j x h =
    ground (arith, find-emplace id j lease x m h, old j x)

AreFenced-detach_from :
    (bound : ℕ) (m m' : Map LeaseId StoredLease) (id : LeaseId) (key : ByteSequence)
    (o : Option StoredLease)
    → find id m ≡ o
    → AreFenced bound m
    → detach_from m id key o ≡ ok m'
    → AreFenced bound m'
unfolding detach_from
AreFenced-detach_from bound m m' id key none found old h = cc
AreFenced-detach_from bound m m' id key (some lease) found old h =
    let held : StoredLease = record lease { attached_keys = remove key lease.attached_keys } in
    subst (AreFenced bound) (ground arith)
      (AreFenced-assign bound id held m (old id lease found) old)

pub AreFenced-detach_key :
    (bound : ℕ) (m m' : Map LeaseId StoredLease) (v : KeyValue)
    → AreFenced bound m
    → detach_key m v ≡ ok m'
    → AreFenced bound m'
unfolding detach_key
AreFenced-detach_key bound m m' v old h = elim (Bool-cases (eqb_ℤ v.lease_id (pos 0))) [
  | inl free ↦ subst (AreFenced bound) (ok-injective (rw free at h)) old
  | inr leased ↦
      AreFenced-detach_from bound m m' v.lease_id v.key (find v.lease_id m) refl old
        (rw leased at h)
]

pub AreFenced-detach_previous :
    (bound : ℕ) (m m' : Map LeaseId StoredLease) (o : Option KeyValue)
    → AreFenced bound m
    → detach_previous m o ≡ ok m'
    → AreFenced bound m'
unfolding detach_previous
AreFenced-detach_previous bound m m' none old h = subst (AreFenced bound) (ok-injective h) old
AreFenced-detach_previous bound m m' (some v) old h = AreFenced-detach_key bound m m' v old h

AreFenced-attach_to :
    (bound : ℕ) (m m' : Map LeaseId StoredLease) (id : LeaseId) (key : ByteSequence)
    (o : Option StoredLease)
    → find id m ≡ o
    → AreFenced bound m
    → attach_to m id key o ≡ ok m'
    → AreFenced bound m'
unfolding attach_to
AreFenced-attach_to bound m m' id key none found old h = cc
AreFenced-attach_to bound m m' id key (some lease) found old h =
    let held : StoredLease = record lease { attached_keys = insert key lease.attached_keys } in
    subst (AreFenced bound) (ground arith)
      (AreFenced-assign bound id held m (old id lease found) old)

pub AreFenced-attach_if :
    (bound : ℕ) (m m' : Map LeaseId StoredLease) (id : ℤ) (key : ByteSequence)
    → AreFenced bound m
    → attach_if m id key ≡ ok m'
    → AreFenced bound m'
unfolding attach_if attach_key
AreFenced-attach_if bound m m' id key old h = elim (Bool-cases (eqb_ℤ id (pos 0))) [
  | inl free ↦ subst (AreFenced bound) (ok-injective (rw free at h)) old
  | inr leased ↦ AreFenced-attach_to bound m m' id key (find id m) refl old (rw leased at h)
]

trim_history-le :
    (limit : ℕ) (compact : ℤ) (bs : List EventBatch)
    → length (trim_history limit compact bs).1 ≤ limit
unfolding trim_history
trim_history-le limit compact [] = omega arith
trim_history-le limit compact (b ∷ bs) = ground (arith, trim_history-le limit b.revision bs)

-- The history is within its limit.
abbrev pub IsTrimmed : InMemoryMetadataStore → Type 0
IsTrimmed s = length s.history ≤ s.limits.max_watch_history_revisions

-- The revision and what it stands for: both stay, or the revision goes on by one.
abbrev pub Moves : InMemoryMetadataStore → InMemoryMetadataStore → Type 0
Moves s s' =
    ((s'.revision ≡ s.revision) × (s'.values ≡ s.values) × (s'.history ≡ s.history))
    ⊎ (s'.revision ≡ inc_ℤ s.revision)

-- How an operation moves a store: the counters never go back, values and history
-- change with the revision only, and the leases stay fenced and the history within its limit.
pub record Serves (s s' : InMemoryMetadataStore) : Type 0 where
  pub tokens : s.next_fencing_token ≤ s'.next_fencing_token
  pub fenced : AreFenced s.next_fencing_token s.leases → AreFenced s'.next_fencing_token s'.leases
  pub tick : s.logical_tick ≤ s'.logical_tick
  pub moves : Moves s s'
  pub history : IsTrimmed s → IsTrimmed s'
  pub limits : s'.limits ≡ s.limits

pub Serves-refl : (s : InMemoryMetadataStore) → Serves s s
Serves-refl s = record {
  tokens = omega arith;
  fenced = λ h. h;
  tick = omega arith;
  moves = inl (refl, refl, refl);
  history = λ h. h;
  limits = refl;
}

-- The state of a result that is given.
pub ok-state {ℓ} :
    {A : Type ℓ} {s t : InMemoryMetadataStore} {a b : A}
    → ◌≡◌ {A = Result (InMemoryMetadataStore × A)} (ok (s, a)) (ok (t, b))
    → s ≡ t
ok-state {A} e = ap (λ (p : InMemoryMetadataStore × A). p.0) (ok-injective e)

-- The same at a later tick.
pub at_tick-Serves :
    (s s' : InMemoryMetadataStore) (tick : ℕ)
    → s.logical_tick ≤ tick
    → Serves s s'
    → Serves s (record s' { logical_tick = tick })
at_tick-Serves s s' tick later h = record {
  tokens = h.tokens;
  fenced = h.fenced;
  tick = later;
  moves = h.moves;
  history = h.history;
  limits = h.limits;
}

-- Installing leases that stay fenced, under the next revision.
pub install-Serves :
    (s : InMemoryMetadataStore) (values : Map ByteSequence KeyValue)
    (leases : Map LeaseId StoredLease) (revision : ℤ) (events : List WatchEvent)
    → next_revision_locked s ≡ ok revision
    → (AreFenced s.next_fencing_token s.leases → AreFenced s.next_fencing_token leases)
    → Serves s (install s values leases revision events)
unfolding install next_revision_locked stage_watch_publication_locked
    commit_watch_publication_locked
install-Serves s values leases revision events counts keeps = record {
  tokens = omega arith;
  fenced = keeps;
  tick = omega arith;
  moves = inr (ground arith);
  history = λ h. trim_history-le _ _ _;
  limits = refl;
}
