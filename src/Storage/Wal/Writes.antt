-- ===== src/Storage/Wal/Writes.antt =====
-- The write of one record by `append` of src/durable_storage.cpp, whole or cut off.
use kura_metadata_store.Prelude.{
  ℕ, ◌+◌, ◌^◌, ◌<◌, ◌≤◌, ◌≡◌, refl, sym, ap, ◌∙◌, true, none, some, List, [], ◌∷◌, ◌++◌, length,
  length-append, arith,
}
use mathlib.Core.List.{append_assoc, append-nil}
use kura_metadata_store.Storage.Codec.{StorageLimits}
use kura_metadata_store.Storage.Wal.Format.{WalEntry, encode_record, make_segment_header}
use kura_metadata_store.Storage.Wal.Scan.{
  Recovery, SegmentScan, is_none, place_of, index_after, take_record,
}
use kura_metadata_store.Storage.Wal.Records.{FitsAt}
use kura_metadata_store.Storage.Wal.Scans.{encode_all, taken, taken-offset}
use kura_metadata_store.Storage.Wal.Recover.{SegmentInfo, no_recovery, start_scan}
use kura_metadata_store.Storage.Wal.RoundTrip.{Written, contents, SegmentFits, scan_of}
use kura_metadata_store.Storage.Wal.Logs.{log_entries, taken-maximum}
use kura_metadata_store.Storage.Wal.Append.{
  WriteAheadLog, Device, last_sequence, write_last, update_last, write_entry,
}
use kura_metadata_store.Storage.Wal.Extend.{
  taken-snoc, AllFit-snoc, encode_all-snoc, closed, recovery_of, length-encode_record,
}
use kura_metadata_store.Storage.Wal.Kept.{Takes, IsOpen}
use kura_metadata_store.Storage.Wal.Creates.{HasRoom}

first_entry :
    (first_index next : ℕ) (r : Recovery) (es : List WalEntry)
    → (taken (start_scan r first_index) es).recovery.expected ≡ some next
    → is_none (taken (start_scan r first_index) es).maximum_index ≡ true
    → next ≡ first_index
first_entry first_index next r [] h first = ground arith
first_entry first_index next r (e ∷ es) h first =
    ground (arith, taken-maximum (start_scan r first_index) e es, first)

pub Takes-FitsAt :
    (limits : StorageLimits) (w : WriteAheadLog) (entries : List WalEntry) (next count : ℕ)
    (e : WalEntry) (o : IsOpen limits w entries next count)
    → Takes limits next count e
    → limits.wal_segment_bytes < 2 ^ 64
    → FitsAt limits
        (place_of o.last.first_index (scan_of (recovery_of no_recovery o.before) o.last))
        e
Takes-FitsAt limits w entries next count e o t small = record {
  type = t.type;
  index = o.scanned ∙ ap some (sym t.index);
  positive = t.positive;
  first = λ first.
      t.index
      ∙ first_entry o.last.first_index next (recovery_of no_recovery o.before) o.last.entries
          o.scanned first;
  term_fits = t.term_fits;
  index_fits = omega (arith, t.index_fits);
  payload = t.payload;
  segment = omega (arith, t.segment);
  segment_fits = small;
  count = omega (arith, t.room, o.recovered);
}

-- A segment with one more record.
abbrev pub longer : Written → WalEntry → Written
longer last e = record last { entries = last.entries ++ e ∷ [] }

write_last-snoc :
    (before : List (ℕ × List ℕ)) (sequence : ℕ) (bytes more : List ℕ)
    → write_last more (before ++ (sequence, bytes) ∷ []) ≡ before ++ (sequence, bytes ++ more) ∷ []
write_last-snoc [] sequence bytes more = refl
write_last-snoc (f ∷ []) sequence bytes more = refl
write_last-snoc (f ∷ g ∷ fs) sequence bytes more =
    ap (λ (xs : List (ℕ × List ℕ)). f ∷ xs) (write_last-snoc (g ∷ fs) sequence bytes more)

contents-tail : (last : Written) (tail : List ℕ) → contents last [] ++ tail ≡ contents last tail
contents-tail last tail =
    append_assoc (make_segment_header last.sequence last.first_index) _ tail ∙ rw append-nil refl

contents-longer :
    (last : Written) (e : WalEntry) → contents last (encode_record e) ≡ contents (longer last e) []
contents-longer last e = rw (encode_all-snoc, append-nil) refl

pub written_files :
    (files : List (ℕ × List ℕ)) (before : List Written) (last : Written) (tail : List ℕ)
    → files ≡ closed before ++ (last.sequence, contents last []) ∷ []
    → write_last tail files ≡ closed before ++ (last.sequence, contents last tail) ∷ []
written_files files before last tail h =
    ap (write_last tail) h
    ∙ write_last-snoc (closed before) last.sequence (contents last []) tail
    ∙ rw (contents-tail last tail) refl

last_sequence-update_last :
    (size index : ℕ) (ss : List SegmentInfo)
    → last_sequence (update_last size index ss) ≡ last_sequence ss
last_sequence-update_last size index [] = refl
last_sequence-update_last size index (s ∷ []) = refl
last_sequence-update_last size index (s ∷ t ∷ []) = refl
last_sequence-update_last size index (s ∷ t ∷ u ∷ ss) =
    last_sequence-update_last size index (t ∷ u ∷ ss)

longer_room :
    (size room : ℕ) (es : List WalEntry) (e : WalEntry)
    → size ≡ 40 + length (encode_all es)
    → size + (40 + length e.payload) ≤ room
    → 40 + length (encode_all (es ++ e ∷ []) ++ []) ≤ room
longer_room size room es e h fits = omega (
  arith,
  h,
  fits,
  ap (λ (bs : List ℕ). length (bs ++ [])) (encode_all-snoc es e),
  length-append (encode_all es ++ encode_record e) [],
  length-append (encode_all es) (encode_record e),
  length-encode_record e,
)

longer-SegmentFits :
    (limits : StorageLimits) (r : Recovery) (last : Written) (e : WalEntry) (size : ℕ)
    → SegmentFits limits r last []
    → FitsAt limits (place_of last.first_index (scan_of r last)) e
    → e.index + 1 < 2 ^ 64
    → size ≡ (scan_of r last).offset
    → size + (40 + length e.payload) ≤ limits.wal_segment_bytes
    → SegmentFits limits r (longer last e) []
longer-SegmentFits limits r last e size s fits low at_ room = record {
  numbered = record {
    sequence_positive = s.numbered.sequence_positive;
    sequence_fits = s.numbered.sequence_fits;
    first_positive = s.numbered.first_positive;
    first_fits = s.numbered.first_fits;
  };
  continues = s.continues;
  fit =
      AllFit-snoc limits last.first_index (start_scan r last.first_index) last.entries e s.fit fits
        low;
  room =
      longer_room size limits.wal_segment_bytes last.entries e
        (at_ ∙ taken-offset (start_scan r last.first_index) last.entries) room;
}

after_index : (index : ℕ) → index + 1 < 2 ^ 64 → index_after index ≡ some (index + 1)
after_index index h = ground arith

-- A record that was written whole.
pub whole-IsOpen :
    (device : Device) (limits : StorageLimits) (w : WriteAheadLog) (entries : List WalEntry)
    (next count : ℕ) (e : WalEntry)
    → HasRoom limits entries next count e w
    → Takes limits next count e
    → limits.wal_segment_bytes < 2 ^ 64
    → IsOpen limits (write_entry device e none w).0 (entries ++ e ∷ []) (e.index + 1) (count + 1)
whole-IsOpen device limits w entries next count e h t small =
    let o = h.open_log in
    let r : Recovery = recovery_of no_recovery o.before in
    let scan : scan_of r (longer o.last e)
        ≡ take_record (scan_of r o.last) e (40 + length e.payload) =
      taken-snoc (start_scan r o.last.first_index) o.last.entries e in
    record {
      before = o.before;
      last = longer o.last e;
      same_limits = o.same_limits;
      files =
          written_files w.files o.before o.last (encode_record e) o.files
          ∙ rw (contents-longer o.last e) refl;
      interior = o.interior;
      fits =
          longer-SegmentFits limits r o.last e w.active_size o.fits
            (Takes-FitsAt limits w entries next count e o t small) t.index_fits o.size h.room;
      open_file = o.open_file;
      back =
          last_sequence-update_last (w.active_size + length (encode_record e)) e.index w.segments
          ∙ o.back;
      size = omega (arith, o.size, length-encode_record e, ap (λ (s : SegmentScan). s.offset) scan);
      expected = after_index e.index t.index_fits;
      scanned =
          ap (λ (s : SegmentScan). s.recovery.expected) scan ∙ after_index e.index t.index_fits;
      counted = ap (λ (n : ℕ). n + 1) o.counted;
      recovered =
          ap (λ (s : SegmentScan). s.recovery.count) scan ∙ ap (λ (n : ℕ). n + 1) o.recovered;
      records =
          sym (append_assoc (log_entries o.before) o.last.entries (e ∷ []))
          ∙ ap (λ (es : List WalEntry). es ++ e ∷ []) o.records;
      is_healthy = o.is_healthy;
    }
