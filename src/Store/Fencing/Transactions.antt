-- ===== src/Store/Fencing/Transactions.antt =====
-- `transaction` of src/in_memory_metadata_store.cpp on the counters and the tokens.
use kura_metadata_store.Prelude.{
  ◌≡◌, refl, sym, ap, subst, Bool, true, false, Bool-cases, List, [], ◌∷◌, arith, if◌then◌else◌,
  inl, inr, ◌⊎◌, ℕ, ◌≤◌,
}
use kura_metadata_store.Prelude.Int.{ℤ}
use kura_metadata_store.Prelude.Exception.{ok, >>=-eq-ok, ok-injective}
use kura_metadata_store.Bytes.{bytes_ord, int_ord}
use kura_metadata_store.OrderedMap.{find}
use kura_metadata_store.Store.Types.{InMemoryMetadataStore, KeyValue, LeaseOwnership}
use kura_metadata_store.Store.Keys.{detach_key, detach_previous, install, lower_bound, below}
use kura_metadata_store.Store.Lease.{validate_tick_locked}
use kura_metadata_store.Store.Transaction.{
  RequestOperation, range_op, put_op, delete_op, PutRequest, DeleteRequest, TransactionRequest,
  TransactionResult, Working, attach_if, apply_put, delete_entries, apply_delete, apply_range,
  apply_operation, apply_all, transaction_revision, finish, no_ownership, check_ownership,
  compare_all, plan_all, transaction,
}
use kura_metadata_store.Store.Fencing.{
  AreFenced, AreFenced-detach_key, AreFenced-detach_previous, AreFenced-attach_if, Serves,
  install-Serves, at_tick-Serves, ok-state,
}
use kura_metadata_store.Store.Fencing.Leases.{tick-le}
use kura_metadata_store.Store.Fencing.Effects.{all-Still}

put-AreFenced :
    (bound : ℕ) (revision : ℤ) (q : PutRequest) (w w' : Working)
    → AreFenced bound w.leases
    → apply_put revision q w ≡ ok w'
    → AreFenced bound w'.leases
unfolding apply_put
put-AreFenced bound revision q w w' old h =
    let (detached, detaches, h1) = >>=-eq-ok (detach_previous w.leases (find q.key w.values)) _ h in
    let (attached, attaches, h2) = >>=-eq-ok (attach_if detached q.lease_id q.key) _ h1 in
    subst (AreFenced bound) (ap (λ (x : Working). x.leases) (ok-injective h2)) (
      AreFenced-attach_if bound detached attached q.lease_id q.key
        (AreFenced-detach_previous bound w.leases detached (find q.key w.values) old detaches)
        attaches)

entries-AreFenced :
    (bound : ℕ) (revision : ℤ) (vs : List KeyValue) (w w' : Working)
    → AreFenced bound w.leases
    → delete_entries revision vs w ≡ ok w'
    → AreFenced bound w'.leases
unfolding delete_entries
entries-AreFenced bound revision [] w w' old h =
    subst (AreFenced bound) (ap (λ (x : Working). x.leases) (ok-injective h)) old
entries-AreFenced bound revision (v ∷ vs) w w' old h =
    let (detached, detaches, h1) = >>=-eq-ok (detach_key w.leases v) _ h in
    entries-AreFenced bound revision vs _ w'
      (AreFenced-detach_key bound w.leases detached v old detaches) h1

delete-AreFenced :
    (bound : ℕ) (revision : ℤ) (q : DeleteRequest) (w w' : Working)
    → AreFenced bound w.leases
    → apply_delete revision q w ≡ ok w'
    → AreFenced bound w'.leases
unfolding apply_delete
delete-AreFenced bound revision q w w' old h =
    let doomed : List KeyValue = below q.range.stop (lower_bound q.range.start w.values) in
    let (t, deletes, h1) = >>=-eq-ok (delete_entries revision doomed w) _ h in
    subst (AreFenced bound) (ap (λ (x : Working). x.leases) (ok-injective h1))
      (entries-AreFenced bound revision doomed w t old deletes)

operation-AreFenced :
    (bound : ℕ) (revision : ℤ) (o : RequestOperation) (w w' : Working)
    → AreFenced bound w.leases
    → apply_operation revision o w ≡ ok w'
    → AreFenced bound w'.leases
unfolding apply_operation apply_range
operation-AreFenced bound revision (range_op q) w w' old h =
    subst (AreFenced bound) (ap (λ (x : Working). x.leases) (ok-injective h)) old
operation-AreFenced bound revision (put_op q) w w' old h = put-AreFenced bound revision q w w' old h
operation-AreFenced bound revision (delete_op q) w w' old h =
    delete-AreFenced bound revision q w w' old h

all-AreFenced :
    (bound : ℕ) (revision : ℤ) (os : List RequestOperation) (w w' : Working)
    → AreFenced bound w.leases
    → apply_all revision os w ≡ ok w'
    → AreFenced bound w'.leases
unfolding apply_all
all-AreFenced bound revision [] w w' old h =
    subst (AreFenced bound) (ap (λ (x : Working). x.leases) (ok-injective h)) old
all-AreFenced bound revision (o ∷ os) w w' old h =
    let (t, applies, rest) = >>=-eq-ok (apply_operation revision o w) _ h in
    all-AreFenced bound revision os t w' (operation-AreFenced bound revision o w t old applies) rest

-- What is installed, before the tick.
installed-Serves :
    (s : InMemoryMetadataStore) (revision : ℤ) (w : Working) (effective : Bool)
    → transaction_revision s effective ≡ ok revision
    → (AreFenced s.next_fencing_token s.leases → AreFenced s.next_fencing_token w.leases)
    → (effective ≡ false → w.values ≡ s.values)
    → Serves s (
        if effective
        then install s w.values w.leases revision w.events
        else record s { values = w.values; leases = w.leases; revision = revision })
unfolding transaction_revision
installed-Serves s revision w true counts keeps still = install-Serves s _ _ revision _ counts keeps
installed-Serves s revision w false counts keeps still = record {
  tokens = omega arith;
  fenced = keeps;
  tick = omega arith;
  moves = inl (sym (ok-injective counts), still refl, refl);
  history = λ h. h;
  limits = refl;
}

finish-Serves :
    (s : InMemoryMetadataStore) (request : TransactionRequest) (revision : ℤ) (w : Working)
    (effective : Bool)
    → (no_ownership request.lease_ownership ≡ true) ⊎ (s.logical_tick ≤ request.lease_tick)
    → transaction_revision s effective ≡ ok revision
    → (AreFenced s.next_fencing_token s.leases → AreFenced s.next_fencing_token w.leases)
    → (effective ≡ false → w.values ≡ s.values)
    → Serves s (finish s request effective revision w)
unfolding finish
finish-Serves s request revision w effective ticks counts keeps still =
    elim (Bool-cases (no_ownership request.lease_ownership)) [
      | inl unowned ↦ rw unowned (installed-Serves s revision w effective counts keeps still)
      | inr owned ↦ rw owned (
          at_tick-Serves s _ request.lease_tick (ground arith)
            (installed-Serves s revision w effective counts keeps still))
    ]

ownership-tick :
    (s : InMemoryMetadataStore) (request : TransactionRequest) (b : Bool)
    (verdict : Bool × List LeaseOwnership)
    → check_ownership s request b ≡ ok verdict
    → (no_ownership request.lease_ownership ≡ true) ⊎ (s.logical_tick ≤ request.lease_tick)
unfolding check_ownership
ownership-tick s request b verdict h = elim (Bool-cases (no_ownership request.lease_ownership)) [
  | inl unowned ↦ inl unowned
  | inr owned ↦
      (let (u, ticks, _) =
          >>=-eq-ok (validate_tick_locked s request.lease_tick) _ (rw owned at h) in
        inr (tick-le s request.lease_tick u ticks))
]

pub transaction-Serves :
    (s s' : InMemoryMetadataStore) (request : TransactionRequest) (r : TransactionResult)
    → transaction s request ≡ ok (s', r)
    → Serves s s'
unfolding transaction
transaction-Serves s s' request r h =
    let (compared, _, h1) = >>=-eq-ok (compare_all s.values true request.comparisons) _ h in
    let (verdict, owns, h2) = >>=-eq-ok (check_ownership s request compared) _ h1 in
    let operations : List RequestOperation =
      if verdict.0 then request.success else request.failure in
    let (plan, plans, h3) =
      >>=-eq-ok
        (plan_all s.values verdict.1 operations
          (record { put_keys = []; delete_ranges = []; has_effective_mutation = false }))
        _ h2 in
    let (revision, counts, h4) =
      >>=-eq-ok (transaction_revision s plan.has_effective_mutation) _ h3 in
    let start : Working = record {
      values = s.values;
      leases = s.leases;
      responses = [];
      events = [];
    } in
    let (w, applies, h5) = >>=-eq-ok (apply_all revision operations start) _ h4 in
    subst (Serves s) (ok-state h5) (
      finish-Serves s request revision w plan.has_effective_mutation
        (ownership-tick s request compared verdict owns) counts
        (λ old. all-AreFenced _ revision operations start w old applies)
        (λ none_effective.
          all-Still revision operations verdict.1 _ plan start w none_effective plans applies))
