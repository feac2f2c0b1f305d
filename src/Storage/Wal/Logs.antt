-- ===== src/Storage/Wal/Logs.antt =====
-- The recovery of a whole log of src/durable_storage.cpp, with a torn end or without.
use kura_metadata_store.Prelude.{
  ℕ, ◌+◌, ◌≡◌, refl, sym, ap, ◌∙◌, Bool, true, false, ◌&&◌, not, List, [], ◌∷◌, ◌++◌, length, arith,
}
use mathlib.Core.List.{append_assoc, append-nil}
use kura_metadata_store.Prelude.Exception.{ok}
use kura_metadata_store.Storage.Codec.{StorageLimits}
use kura_metadata_store.Storage.Wal.Format.{WalEntry}
use kura_metadata_store.Storage.Wal.Scan.{Recovery, SegmentScan, is_none}
use kura_metadata_store.Storage.Wal.Scans.{encode_all, taken, taken-entries, taken-offset}
use kura_metadata_store.Storage.Wal.Recover.{SegmentInfo, start_scan, is_last, recover_segments}
use kura_metadata_store.Storage.Wal.Scan.{take_record}
use kura_metadata_store.Storage.Wal.RoundTrip.{
  Written, contents, IsTail, SegmentFits, scan_of, info_of, scan_tail, scan_nothing,
  recover_segment-written,
}

-- The files of a log; `tail` stands at the end of the last one.
abbrev pub log_files : List Written → List ℕ → List (ℕ × List ℕ)
log_files [] tail = []
log_files (w ∷ []) tail = (w.sequence, contents w tail) ∷ []
log_files (w ∷ v ∷ ws) tail = (w.sequence, contents w []) ∷ log_files (v ∷ ws) tail

abbrev pub log_entries : List Written → List WalEntry
log_entries [] = []
log_entries (w ∷ ws) = w.entries ++ log_entries ws

abbrev pub log_sizes : List Written → List ℕ
log_sizes [] = []
log_sizes (w ∷ ws) = (40 + length (encode_all w.entries)) ∷ log_sizes ws

abbrev pub sizes_of : List SegmentInfo → List ℕ
sizes_of [] = []
sizes_of (i ∷ is) = i.size ∷ sizes_of is

abbrev pub is_empty_log : List WalEntry → Bool
is_empty_log [] = true
is_empty_log (e ∷ es) = false

-- Each segment continues those before it, in its records and in its sequence, and only the last one
-- may be empty.
abbrev pub LogFits : StorageLimits → Recovery → List Written → List ℕ → Type 0
LogFits limits r [] tail = Unit {0}
LogFits limits r (w ∷ []) tail =
    SegmentFits limits r w tail × IsTail limits w.first_index (scan_of r w) tail
LogFits limits r (w ∷ v ∷ ws) tail =
    SegmentFits limits r w []
    × (is_empty_log w.entries ≡ false)
    × (v.sequence ≡ w.sequence + 1)
    × LogFits limits (scan_of r w).recovery (v ∷ ws) tail

pub taken-maximum :
    (scan : SegmentScan) (e : WalEntry) (es : List WalEntry)
    → is_none (taken scan (e ∷ es)).maximum_index ≡ false
taken-maximum scan e [] = refl
taken-maximum scan e (f ∷ es) = taken-maximum (take_record scan e (40 + length e.payload)) f es

interior-maximum :
    (r : Recovery) (w : Written) (es : List WalEntry)
    → w.entries ≡ es
    → is_empty_log es ≡ false
    → is_none (scan_of r w).maximum_index ≡ false
interior-maximum r w [] h full = cc
interior-maximum r w (e ∷ es) h full = rw h (taken-maximum (start_scan r w.first_index) e es)

interior :
    (r : Recovery) (w : Written)
    → is_empty_log w.entries ≡ false
    → (is_none (scan_of r w).maximum_index && not false) ≡ false
interior r w full = rw (interior-maximum r w w.entries refl full) refl

is_last-log_files :
    (v : Written) (ws : List Written) (tail : List ℕ) → is_last (log_files (v ∷ ws) tail) ≡ false
is_last-log_files v [] tail = refl
is_last-log_files v (w ∷ ws) tail = refl

-- What the recovery of a log comes to.
pub record Recovers (limits : StorageLimits) (r : Recovery) (ws : List Written) (tail : List ℕ)
    : Type 0 where
  pub recovery : Recovery
  pub segments : List SegmentInfo
  pub recovers : recover_segments limits r (log_files ws tail) ≡ ok (recovery, segments)
  pub entries : recovery.entries ≡ r.entries ++ log_entries ws
  pub sizes : sizes_of segments ≡ log_sizes ws

info-size : (r : Recovery) (w : Written) → (info_of r w).size ≡ 40 + length (encode_all w.entries)
info-size r w = taken-offset (start_scan r w.first_index) w.entries

scan_of-entries :
    (r : Recovery) (w : Written) → (scan_of r w).recovery.entries ≡ r.entries ++ w.entries
scan_of-entries r w = taken-entries (start_scan r w.first_index) w.entries

-- The recovery of a log that was written segment by segment, each record at its place, gives the
-- records of all segments in order. A record that was cut off at the end of the last segment is
-- dropped, and the size of that segment then ends before it.
pub recover_segments-log :
    (limits : StorageLimits) (r : Recovery) (ws : List Written) (tail : List ℕ)
    → LogFits limits r ws tail
    → Recovers limits r ws tail
unfolding recover_segments
recover_segments-log limits r [] tail fits = record {
  recovery = r;
  segments = [];
  recovers = refl;
  entries = sym (append-nil r.entries);
  sizes = refl;
}
recover_segments-log limits r (w ∷ []) tail (s, ends) = record {
  recovery = (scan_of r w).recovery;
  segments = info_of r w ∷ [];
  recovers =
      rw
        (recover_segment-written limits true r w tail s
          (λ k long. scan_tail k limits w.first_index (scan_of r w) tail ends long) (ground arith))
        refl;
  entries = scan_of-entries r w ∙ rw append-nil refl;
  sizes = rw (info-size r w) refl;
}
recover_segments-log limits r (w ∷ v ∷ ws) tail (s, full, order, fits) =
    let rest = recover_segments-log limits (scan_of r w).recovery (v ∷ ws) tail fits in
    record {
      recovery = rest.recovery;
      segments = info_of r w ∷ rest.segments;
      recovers =
          rw
            (
              is_last-log_files v ws tail,
              recover_segment-written limits false r w [] s
                  (λ k long. scan_nothing k limits false w.first_index (scan_of r w))
                  (interior r w full),
              rest.recovers,
            )
            refl;
      entries =
          rest.entries
          ∙ ap (λ (t : List WalEntry). t ++ log_entries (v ∷ ws)) (scan_of-entries r w)
          ∙ append_assoc r.entries w.entries (log_entries (v ∷ ws));
      sizes = rw (info-size r w, rest.sizes) refl;
    }
