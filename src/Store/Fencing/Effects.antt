-- ===== src/Store/Fencing/Effects.antt =====
-- A transaction of src/in_memory_metadata_store.cpp whose checks see no effect has none.
use kura_metadata_store.Prelude.{◌≡◌, refl, sym, ap, ◌∙◌, false, List, [], ◌∷◌, arith}
use kura_metadata_store.Prelude.Int.{ℤ}
use kura_metadata_store.Prelude.Exception.{ok, >>=-eq-ok, ok-injective}
use kura_metadata_store.Bytes.{ByteSequence, bytes_ord, int_ord}
use kura_metadata_store.OrderedMap.{Map}
use kura_metadata_store.Store.Types.{KeyValue, LeaseOwnership}
use kura_metadata_store.Store.Keys.{lower_bound, below, validate_key}
use kura_metadata_store.Store.Transaction.{
  RequestOperation, range_op, put_op, delete_op, DeleteRequest, Working, Plan, delete_entries,
  apply_delete, apply_range, apply_operation, apply_all, plan_all, plan_operation, plan_put,
  plan_delete, plan_range, starts_below, validate_range,
}

-- A plan that sees an effect stays so.
operation-effective :
    (values : Map ByteSequence KeyValue) (verified : List LeaseOwnership) (o : RequestOperation)
    (p p' : Plan)
    → plan_operation values verified o p ≡ ok p'
    → p'.has_effective_mutation ≡ false
    → p.has_effective_mutation ≡ false
unfolding plan_operation plan_put plan_delete plan_range validate_range validate_key
operation-effective values verified (range_op q) p p' h none_effective = ground arith
operation-effective values verified (put_op q) p p' h none_effective = ground arith
operation-effective values verified (delete_op q) p p' h none_effective = ground arith

all-effective :
    (values : Map ByteSequence KeyValue) (verified : List LeaseOwnership)
    (os : List RequestOperation) (p p' : Plan)
    → plan_all values verified os p ≡ ok p'
    → p'.has_effective_mutation ≡ false
    → p.has_effective_mutation ≡ false
unfolding plan_all
all-effective values verified [] p p' h none_effective = ground arith
all-effective values verified (o ∷ os) p p' h none_effective =
    let (q, plans, rest) = >>=-eq-ok (plan_operation values verified o p) _ h in
    operation-effective values verified o p q plans
      (all-effective values verified os q p' rest none_effective)

-- A delete without effect has nothing to delete.
below-empty :
    (stop : ByteSequence) (m : Map ByteSequence KeyValue)
    → starts_below stop m ≡ false
    → below stop m ≡ []
unfolding starts_below below
below-empty stop [] h = refl
below-empty stop ((k, v) ∷ m) h = ground arith

delete-empty :
    (values : Map ByteSequence KeyValue) (q : DeleteRequest) (p p' : Plan)
    → plan_delete values q p ≡ ok p'
    → p'.has_effective_mutation ≡ false
    → starts_below q.range.stop (lower_bound q.range.start values) ≡ false
unfolding plan_delete validate_range
delete-empty values q p p' h none_effective = ground arith

delete-Still :
    (revision : ℤ) (q : DeleteRequest) (w w' : Working)
    → below q.range.stop (lower_bound q.range.start w.values) ≡ []
    → apply_delete revision q w ≡ ok w'
    → w'.values ≡ w.values
unfolding apply_delete delete_entries
delete-Still revision q w w' empty h =
    sym (ap (λ (x : Working). x.values) (ok-injective (rw empty at h)))

operation-Still :
    (revision : ℤ) (o : RequestOperation) (verified : List LeaseOwnership) (p p' : Plan)
    (w w' : Working)
    → p'.has_effective_mutation ≡ false
    → plan_operation w.values verified o p ≡ ok p'
    → apply_operation revision o w ≡ ok w'
    → w'.values ≡ w.values
unfolding plan_operation apply_operation apply_range plan_put validate_key
operation-Still revision (range_op q) verified p p' w w' none_effective plans h =
    sym (ap (λ (x : Working). x.values) (ok-injective h))
operation-Still revision (put_op q) verified p p' w w' none_effective plans h = ground arith
operation-Still revision (delete_op q) verified p p' w w' none_effective plans h =
    delete-Still revision q w w'
      (below-empty q.range.stop (lower_bound q.range.start w.values)
        (delete-empty w.values q p p' plans none_effective))
      h

pub all-Still :
    (revision : ℤ) (os : List RequestOperation) (verified : List LeaseOwnership) (p p' : Plan)
    (w w' : Working)
    → p'.has_effective_mutation ≡ false
    → plan_all w.values verified os p ≡ ok p'
    → apply_all revision os w ≡ ok w'
    → w'.values ≡ w.values
unfolding plan_all apply_all
all-Still revision [] verified p p' w w' none_effective plans h =
    sym (ap (λ (x : Working). x.values) (ok-injective h))
all-Still revision (o ∷ os) verified p p' w w' none_effective plans h =
    let (q, planned, more) = >>=-eq-ok (plan_operation w.values verified o p) _ plans in
    let (t, applied, rest) = >>=-eq-ok (apply_operation revision o w) _ h in
    let still : t.values ≡ w.values =
      operation-Still revision o verified p q w t
        (all-effective w.values verified os q p' more none_effective) planned applied in
    all-Still revision os verified q p' t w' none_effective (rw still more) rest ∙ still
