-- ===== src/Storage/Wal/Validated.antt =====
-- What `validate_append` of src/durable_storage.cpp tells of the entries that it accepts.
use Prim.Native.Nat.{min}
use kura_metadata_store.Prelude.{
  ℕ, ◌+◌, ◌-◌, ◌^◌, ◌<◌, ◌≤◌, ◌≡◌, refl, sym, ◌∙◌, subst, Bool, true, false, ◌||◌, not, Option,
  none, some, List, [], ◌∷◌, ltb, ◌==◌, length, arith, String,
}
use kura_metadata_store.Prelude.Exception.{ok, throw_if, storage_error, >>=-eq-ok, ok-injective}
use kura_metadata_store.Storage.Codec.{StorageLimits}
use kura_metadata_store.Storage.Wal.Format.{WalEntry}
use kura_metadata_store.Storage.Wal.Scan.{index_after}
use kura_metadata_store.Storage.Wal.Append.{
  WriteAheadLog, validate_entries, first_expected, validate_append,
}
use kura_metadata_store.Storage.Wal.Kept.{Takes, Accepted}

-- The terms and the indices fit their fields, and no index is the greatest one.
abbrev pub EntriesFit : List WalEntry → Type 0
EntriesFit [] = Unit {0}
EntriesFit (e ∷ es) = (e.term < 2 ^ 64) × (e.index + 1 < 2 ^ 64) × EntriesFit es

not_thrown :
    (test : Bool) (message : String) (u : Unit {0})
    → throw_if test (storage_error message) ≡ ok u
    → test ≡ false
not_thrown true message u h = cc
not_thrown false message u h = refl

-- What one round of `validate_append` tells.
taken_entry :
    (limits : StorageLimits) (next count : ℕ) (e : WalEntry)
    → not (e.type == 1) ≡ false
    → (e.index == 0 || not (e.index == next)) ≡ false
    → (ltb limits.max_wal_payload_bytes (length e.payload)
        || ltb (limits.wal_segment_bytes - 40) (40 + length e.payload))
      ≡ false
    → count < limits.max_recovery_records
    → e.term < 2 ^ 64
    → e.index + 1 < 2 ^ 64
    → Takes limits next count e
taken_entry limits next count e type index size room term small = record {
  type = ground (arith, type);
  positive = ground (arith, index);
  index = ground (arith, index);
  payload = ground (arith, size);
  segment = ground (arith, size);
  room = room;
  term_fits = term;
  index_fits = small;
}

after_index : (index : ℕ) → index + 1 < 2 ^ 64 → index_after index ≡ some (index + 1)
after_index index h = ground arith

accepted :
    (limits : StorageLimits) (expected : Option ℕ) (next count : ℕ) (es : List WalEntry)
    (u : Unit {0})
    → expected ≡ some next
    → validate_entries limits expected es ≡ ok u
    → count + length es ≤ limits.max_recovery_records
    → EntriesFit es
    → Accepted limits next count es
unfolding validate_entries
accepted limits expected next count [] u h valid room fit = tt
accepted limits none next count (e ∷ es) u h valid room fit = cc
accepted limits (some n) next count (e ∷ es) u h valid room (term, small, fit) =
    let (u1, type, v1) =
      >>=-eq-ok (throw_if (not (e.type == 1)) (storage_error "unsupported WAL record type")) _
        valid in
    let (u2, index, v2) =
      >>=-eq-ok
        (throw_if (e.index == 0 || not (e.index == n))
          (storage_error "WAL append index is not the expected next index"))
        _ v1 in
    let (u3, size, v3) =
      >>=-eq-ok
        (throw_if
          (ltb limits.max_wal_payload_bytes (length e.payload)
            || ltb (limits.wal_segment_bytes - 40) (40 + length e.payload))
          (storage_error "WAL payload exceeds configured limit"))
        _ v2 in
    let same : n ≡ next = ground (arith, h) in
    (
      subst (λ m. Takes limits m count e) same
          (taken_entry limits n count e (not_thrown _ _ u1 type) (not_thrown _ _ u2 index)
            (not_thrown _ _ u3 size) (omega (arith, room)) term small),
      accepted limits (index_after e.index) (e.index + 1) (count + 1) es u
          (after_index e.index small) v3 (omega (arith, room)) fit,
    )

-- What `validate_append` tells.
pub valid_entries :
    (w : WriteAheadLog) (next count : ℕ) (e : WalEntry) (es : List WalEntry) (u : Unit {0})
    → first_expected w.expected_append w.last_index e ≡ ok (some next)
    → w.count ≡ count
    → validate_append w e es ≡ ok u
    → EntriesFit (e ∷ es)
    → Accepted w.limits next count (e ∷ es)
unfolding validate_append
valid_entries w next count e es u first counted valid fit =
    let (u1, room, v1) =
      >>=-eq-ok
        (throw_if
          (ltb (w.limits.max_recovery_records - min w.limits.max_recovery_records w.count)
            (length (e ∷ es)))
          (storage_error "WAL record count exceeds configured limit"))
        _ valid in
    let (expected, given, v2) = >>=-eq-ok (first_expected w.expected_append w.last_index e) _ v1 in
    accepted w.limits expected next count (e ∷ es) u (ok-injective (sym given ∙ first)) v2
      (ground (arith, not_thrown _ _ u1 room, counted)) fit
