-- ===== src/Storage/Wal/Extend.antt =====
-- Logs of src/durable_storage.cpp that grow at their end, by a record or by a segment.
use kura_metadata_store.Prelude.{
  ℕ, zero, suc, ◌+◌, ◌^◌, ◌<◌, ◌≡◌, refl, sym, ap, ◌∙◌, false, List, [], ◌∷◌, ◌++◌, length, take,
  drop, arith,
}
use mathlib.Core.List.{append_assoc, append-nil}
use kura_metadata_store.Storage.Codec.{StorageLimits, le_bytes}
use kura_metadata_store.Storage.Wal.Format.{WalEntry, encode_record, record_fields}
use kura_metadata_store.Storage.Wal.Scan.{Recovery, SegmentScan, place_of, take_record}
use kura_metadata_store.Storage.Wal.Records.{FitsAt}
use kura_metadata_store.Storage.Wal.Scans.{encode_all, taken, AllFit}
use kura_metadata_store.Storage.Wal.RoundTrip.{Written, contents, IsTail, SegmentFits, scan_of}
use kura_metadata_store.Storage.Wal.Logs.{log_files, log_entries, is_empty_log, LogFits}

pub take-drop : (n : ℕ) (xs : List ℕ) → xs ≡ take n xs ++ drop n xs
take-drop zero xs = refl
take-drop (suc n) [] = refl
take-drop (suc n) (x ∷ xs) = ap (λ (ys : List ℕ). x ∷ ys) (take-drop n xs)

pub taken-snoc :
    (scan : SegmentScan) (es : List WalEntry) (e : WalEntry)
    → taken scan (es ++ e ∷ []) ≡ take_record (taken scan es) e (40 + length e.payload)
taken-snoc scan [] e = refl
taken-snoc scan (f ∷ es) e = taken-snoc (take_record scan f (40 + length f.payload)) es e

pub AllFit-snoc :
    (limits : StorageLimits) (first_index : ℕ) (scan : SegmentScan) (es : List WalEntry)
    (e : WalEntry)
    → AllFit limits first_index scan es
    → FitsAt limits (place_of first_index (taken scan es)) e
    → e.index + 1 < 2 ^ 64
    → AllFit limits first_index scan (es ++ e ∷ [])
AllFit-snoc limits first_index scan [] e all fits small = (fits, small, tt)
AllFit-snoc limits first_index scan (f ∷ es) e (here, low, all) fits small = (
  here,
  low,
  AllFit-snoc limits first_index (take_record scan f (40 + length f.payload)) es e all fits small,
)

pub encode_all-snoc :
    (es : List WalEntry) (e : WalEntry)
    → encode_all (es ++ e ∷ []) ≡ encode_all es ++ encode_record e
unfolding encode_all
encode_all-snoc [] e = append-nil (encode_record e)
encode_all-snoc (f ∷ es) e =
    ap (λ (bs : List ℕ). encode_record f ++ bs) (encode_all-snoc es e)
    ∙ sym (append_assoc (encode_record f) (encode_all es) (encode_record e))

pub length-encode_record : (e : WalEntry) → length (encode_record e) ≡ 40 + length e.payload
unfolding encode_record record_fields le_bytes
length-encode_record e = omega arith

-- Segments that are closed: each has its records and nothing else.
abbrev pub closed : List Written → List (ℕ × List ℕ)
closed [] = []
closed (w ∷ ws) = (w.sequence, contents w []) ∷ closed ws

-- The recovery after some segments.
abbrev pub recovery_of : Recovery → List Written → Recovery
recovery_of r [] = r
recovery_of r (w ∷ ws) = recovery_of (scan_of r w).recovery ws

-- The sequence of the first segment, or of the one that is to come.
abbrev pub first_sequence : List Written → ℕ → ℕ
first_sequence [] next = next
first_sequence (w ∷ ws) next = w.sequence

-- Segments that are closed, up to one of the sequence `next`.
abbrev pub Interior : StorageLimits → Recovery → List Written → ℕ → Type 0
Interior limits r [] next = Unit {0}
Interior limits r (w ∷ ws) next =
    SegmentFits limits r w []
    × (is_empty_log w.entries ≡ false)
    × (first_sequence ws next ≡ w.sequence + 1)
    × Interior limits (scan_of r w).recovery ws next

first_sequence-snoc :
    (ws : List Written) (last : Written) (next : ℕ)
    → first_sequence (ws ++ last ∷ []) next ≡ first_sequence ws last.sequence
first_sequence-snoc [] last next = refl
first_sequence-snoc (w ∷ ws) last next = refl

pub log_files-snoc :
    (before : List Written) (last : Written) (tail : List ℕ)
    → log_files (before ++ last ∷ []) tail
      ≡ closed before ++ (last.sequence, contents last tail) ∷ []
log_files-snoc [] last tail = refl
log_files-snoc (w ∷ []) last tail = refl
log_files-snoc (w ∷ v ∷ ws) last tail =
    ap (λ (fs : List (ℕ × List ℕ)). (w.sequence, contents w []) ∷ fs)
      (log_files-snoc (v ∷ ws) last tail)

pub closed-snoc :
    (before : List Written) (last : Written)
    → closed (before ++ last ∷ []) ≡ closed before ++ (last.sequence, contents last []) ∷ []
closed-snoc [] last = refl
closed-snoc (w ∷ ws) last =
    ap (λ (fs : List (ℕ × List ℕ)). (w.sequence, contents w []) ∷ fs) (closed-snoc ws last)

pub log_entries-snoc :
    (before : List Written) (last : Written)
    → log_entries (before ++ last ∷ []) ≡ log_entries before ++ last.entries
log_entries-snoc [] last = append-nil last.entries
log_entries-snoc (w ∷ ws) last =
    ap (λ (es : List WalEntry). w.entries ++ es) (log_entries-snoc ws last)
    ∙ sym (append_assoc w.entries (log_entries ws) last.entries)

pub recovery_of-snoc :
    (r : Recovery) (before : List Written) (last : Written)
    → recovery_of r (before ++ last ∷ []) ≡ (scan_of (recovery_of r before) last).recovery
recovery_of-snoc r [] last = refl
recovery_of-snoc r (w ∷ ws) last = recovery_of-snoc (scan_of r w).recovery ws last

pub Interior-snoc :
    (limits : StorageLimits) (r : Recovery) (before : List Written) (last : Written)
    → Interior limits r before last.sequence
    → SegmentFits limits (recovery_of r before) last []
    → is_empty_log last.entries ≡ false
    → Interior limits r (before ++ last ∷ []) (last.sequence + 1)
Interior-snoc limits r [] last inside fits full = (fits, full, refl, tt)
Interior-snoc limits r (w ∷ ws) last (here, one, order, inside) fits full = (
  here,
  one,
  first_sequence-snoc ws last (last.sequence + 1) ∙ order,
  Interior-snoc limits (scan_of r w).recovery ws last inside fits full,
)

pub log_fits :
    (limits : StorageLimits) (r : Recovery) (before : List Written) (last : Written) (tail : List ℕ)
    → Interior limits r before last.sequence
    → SegmentFits limits (recovery_of r before) last tail
    → IsTail limits last.first_index (scan_of (recovery_of r before) last) tail
    → LogFits limits r (before ++ last ∷ []) tail
log_fits limits r [] last tail inside fits ends = (fits, ends)
log_fits limits r (w ∷ []) last tail (here, one, order, inside) fits ends =
    (here, one, order, (fits, ends))
log_fits limits r (w ∷ v ∷ ws) last tail (here, one, order, inside) fits ends =
    (here, one, order, log_fits limits (scan_of r w).recovery (v ∷ ws) last tail inside fits ends)
