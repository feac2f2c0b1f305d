-- ===== src/Storage/Wal/Appends.antt =====
-- `append` of src/durable_storage.cpp: `ensure_segment` and the write of one record keep the log.
use kura_metadata_store.Prelude.{
  ℕ, ◌+◌, ◌-◌, ◌<◌, ◌≤◌, ◌≡◌, refl, sym, ap, ◌∙◌, Bool, true, false, not, Bool-cases, inl, inr,
  Option, none, some, List, [], ◌∷◌, ◌++◌, leb, ◌==◌, if◌then◌else◌, length, arith, u64_max,
}
use kura_metadata_store.Storage.Codec.{StorageLimits}
use kura_metadata_store.Storage.HardState.Files.{Outcome, done, failed}
use kura_metadata_store.Storage.HardState.Persist.{◌and_then◌}
use kura_metadata_store.Storage.Wal.Format.{WalEntry, encode_record}
use kura_metadata_store.Storage.Wal.Scan.{Recovery}
use kura_metadata_store.Storage.Wal.Scans.{encode_all, taken, taken-offset}
use kura_metadata_store.Storage.Wal.Recover.{no_recovery, misses, start_scan}
use kura_metadata_store.Storage.Wal.RoundTrip.{Written, scan_of}
use kura_metadata_store.Storage.Wal.Logs.{is_empty_log}
use kura_metadata_store.Storage.Wal.Append.{
  WriteAheadLog, Device, last_sequence, create_segment, next_segment, ensure_segment,
}
use kura_metadata_store.Storage.Wal.Extend.{
  recovery_of, closed-snoc, log_entries-snoc, recovery_of-snoc, Interior-snoc, length-encode_record,
}
use kura_metadata_store.Storage.Wal.Kept.{Takes, IsOpen, IsEmpty, Holds, IsOpen-Holds, Ends}
use kura_metadata_store.Storage.Wal.Creates.{IsClosed, HasRoom, create_segment-Ends}

not_empty :
    (limits : StorageLimits) (r : Recovery) (last : Written) (es : List WalEntry) (size : ℕ)
    → last.entries ≡ es
    → (scan_of r last).offset ≡ size
    → 40 < size
    → is_empty_log last.entries ≡ false
unfolding encode_all
not_empty limits r last [] size h at_ more =
    let here : (scan_of r last).offset ≡ 40 =
      ap (λ (es : List WalEntry). (taken (start_scan r last.first_index) es).offset) h in
    ground (arith, here, at_, more)
not_empty limits r last (e ∷ es) size h at_ more = rw h refl

-- The last segment of an open log is closed once another follows it.
close_last :
    (limits : StorageLimits) (w : WriteAheadLog) (entries : List WalEntry) (next count : ℕ)
    (o : IsOpen limits w entries next count)
    → 40 < w.active_size
    → IsClosed limits
        (record w { is_open = false })
        (o.before ++ o.last ∷ [])
        entries
        next
        count
        (o.last.sequence + 1)
close_last limits w entries next count o more = record {
  same_limits = o.same_limits;
  files = o.files ∙ sym (closed-snoc o.before o.last);
  interior = Interior-snoc limits no_recovery o.before o.last o.interior o.fits (
      not_empty limits (recovery_of no_recovery o.before) o.last o.last.entries w.active_size refl
        (sym o.size) more);
  continues =
      ap (λ (r : Recovery). misses r.expected next) (recovery_of-snoc no_recovery o.before o.last)
      ∙ rw o.scanned (ground arith);
  counted = o.counted;
  recovered =
      ap (λ (r : Recovery). r.count) (recovery_of-snoc no_recovery o.before o.last) ∙ o.recovered;
  records = log_entries-snoc o.before o.last ∙ o.records;
  is_healthy = o.is_healthy;
}

next_segment-Ends :
    (device : Device) (limits : StorageLimits) (w : WriteAheadLog) (entries : List WalEntry)
    (next count : ℕ) (e : WalEntry) (o : IsOpen limits w entries next count)
    → Takes limits next count e
    → 40 < w.active_size
    → Ends
        (HasRoom limits entries next count e)
        (λ v. Holds limits v.files entries)
        (next_segment device e.index (last_sequence w.segments) (record w { is_open = false }))
next_segment-Ends device limits w entries next count e o t more =
    elim (Bool-cases (o.last.sequence == u64_max)) [
      | inl over ↦ rw (o.back, over) (IsOpen-Holds limits w entries next count o)
      | inr below ↦
          rw (o.back, below)
            (create_segment-Ends device limits (record w { is_open = false })
              (o.before ++ o.last ∷ []) entries next count (o.last.sequence + 1) e
              (close_last limits w entries next count o more) t
              (ground (arith, below, o.fits.numbered.sequence_fits)))
    ]

synchronized-Ends :
    (device : Device) (limits : StorageLimits) (w : WriteAheadLog) (entries : List WalEntry)
    (next count : ℕ) (e : WalEntry) (synced : Outcome) (o : IsOpen limits w entries next count)
    → Takes limits next count e
    → 40 < w.active_size
    → Ends
        (HasRoom limits entries next count e)
        (λ v. Holds limits v.files entries)
        ((w, synced) and_then (λ v.
          next_segment device e.index (last_sequence v.segments) (record v { is_open = false })))
synchronized-Ends device limits w entries next count e done o t more =
    next_segment-Ends device limits w entries next count e o t more
synchronized-Ends device limits w entries next count e (failed x) o t more =
    IsOpen-Holds limits w entries next count o

-- The tests of `ensure_segment`.
if_open :
    (P : WriteAheadLog × Outcome → Type 0) (is_open fits : Bool) (x y z : WriteAheadLog × Outcome)
    → is_open ≡ true
    → (fits ≡ true → P y)
    → (fits ≡ false → P z)
    → P (if not is_open then x else if fits then y else z)
if_open P false fits x y z h y_fits y_full = cc
if_open P true true x y z h y_fits y_full = y_fits refl
if_open P true false x y z h y_fits y_full = y_full refl

if_closed :
    (P : WriteAheadLog × Outcome → Type 0) (is_open : Bool) (x y : WriteAheadLog × Outcome)
    → is_open ≡ false
    → P x
    → P (if not is_open then x else y)
if_closed P false x y h there = there
if_closed P true x y h there = cc

next_none :
    (P : WriteAheadLog × Outcome → Type 0) (device : Device) (first_index : ℕ) (last : Option ℕ)
    (w : WriteAheadLog)
    → last ≡ none
    → P (create_segment device 1 first_index w)
    → P (next_segment device first_index last w)
next_none P device first_index none w h there = there
next_none P device first_index (some n) w h there = cc

empty-IsClosed :
    (limits : StorageLimits) (w : WriteAheadLog) (next : ℕ)
    → IsEmpty limits w
    → IsClosed limits w [] [] next 0 1
empty-IsClosed limits w next o = record {
  same_limits = o.same_limits;
  files = o.files;
  interior = tt;
  continues = refl;
  counted = o.counted;
  recovered = refl;
  records = refl;
  is_healthy = o.is_healthy;
}

pub ensure_open-Ends :
    (device : Device) (limits : StorageLimits) (w : WriteAheadLog) (entries : List WalEntry)
    (next count : ℕ) (e : WalEntry) (o : IsOpen limits w entries next count)
    → Takes limits next count e
    → Ends
        (HasRoom limits entries next count e)
        (λ v. Holds limits v.files entries)
        (ensure_segment device e.index (length (encode_record e)) w)
unfolding ensure_segment
ensure_open-Ends device limits w entries next count e o t =
    let size : length (encode_record e) ≡ 40 + length e.payload = length-encode_record e in
    let at_least : 40 ≤ w.active_size = omega (
      arith,
      o.size,
      taken-offset (start_scan (recovery_of no_recovery o.before) o.last.first_index)
          o.last.entries,
    ) in
    if_open (λ p. Ends (HasRoom limits entries next count e) (λ v. Holds limits v.files entries) p)
      w.is_open (leb (length (encode_record e)) (w.limits.wal_segment_bytes - w.active_size)) _ _ _
      o.open_file
      (λ fits. record { open_log = o; room = ground (arith, fits, size, o.same_limits) })
      (λ full.
        synchronized-Ends device limits w entries next count e (device.synchronizes e.index) o t
          (ground (arith, full, size, o.same_limits, t.segment, at_least)))

pub ensure_first-Ends :
    (device : Device) (limits : StorageLimits) (w : WriteAheadLog) (e : WalEntry)
    → IsEmpty limits w
    → Takes limits e.index 0 e
    → Ends
        (HasRoom limits [] e.index 0 e)
        (λ v. Holds limits v.files [])
        (ensure_segment device e.index (length (encode_record e)) w)
unfolding ensure_segment
ensure_first-Ends device limits w e o t =
    if_closed (λ p. Ends (HasRoom limits [] e.index 0 e) (λ v. Holds limits v.files []) p) w.is_open
      _ _ o.closed_file
      (next_none (λ p. Ends (HasRoom limits [] e.index 0 e) (λ v. Holds limits v.files []) p) device
        e.index (last_sequence w.segments) w (ap last_sequence o.segments)
        (create_segment-Ends device limits w [] [] e.index 0 1 e (empty-IsClosed limits w e.index o)
          t (omega arith)))
