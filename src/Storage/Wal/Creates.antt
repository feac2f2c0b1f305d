-- ===== src/Storage/Wal/Creates.antt =====
-- `create_segment` and `ensure_segment` of src/durable_storage.cpp keep the log.
use kura_metadata_store.Prelude.{
  ℕ, ◌+◌, ◌^◌, ◌<◌, ◌≤◌, ◌≡◌, refl, sym, ap, ◌∙◌, true, false, ◌||◌, Bool-cases, inl, inr, some,
  List, [], ◌∷◌, ◌++◌, ◌==◌, length, arith,
}
use mathlib.Core.List.{append-nil}
use kura_metadata_store.Storage.Codec.{StorageLimits}
use kura_metadata_store.Storage.Wal.Format.{WalEntry, make_segment_header}
use kura_metadata_store.Storage.Wal.Scan.{Recovery}
use kura_metadata_store.Storage.Wal.Scans.{encode_all}
use kura_metadata_store.Storage.Wal.Recover.{SegmentInfo, no_recovery, misses}
use kura_metadata_store.Storage.Wal.RoundTrip.{Written, contents, whole, SegmentFits, scan_of}
use kura_metadata_store.Storage.Wal.Logs.{log_files, log_entries, LogFits}
use kura_metadata_store.Storage.Wal.Append.{
  WriteAheadLog, Device, Creation, created, not_created, left_behind, not_opened, last_sequence,
  has_segment, add_segment, finish_creation, create_segment,
}
use kura_metadata_store.Storage.Wal.Extend.{closed, recovery_of, Interior}
use kura_metadata_store.Storage.Wal.Kept.{Takes, IsOpen, Holds, IsOpen-Holds, Ends}

-- A log whose segments are all closed, each with records.
pub record IsClosed (limits : StorageLimits) (w : WriteAheadLog) (ws : List Written)
    (entries : List WalEntry) (next count sequence : ℕ) : Type 0 where
  pub same_limits : w.limits ≡ limits
  pub files : w.files ≡ closed ws
  pub interior : Interior limits no_recovery ws sequence
  pub continues : misses (recovery_of no_recovery ws).expected next ≡ false
  pub counted : w.count ≡ count
  pub recovered : (recovery_of no_recovery ws).count ≡ count
  pub records : log_entries ws ≡ entries
  pub is_healthy : w.healthy ≡ true

closed_files : (ws : List Written) → log_files ws [] ≡ closed ws
closed_files [] = refl
closed_files (w ∷ []) = refl
closed_files (w ∷ v ∷ ws) =
    ap (λ (fs : List (ℕ × List ℕ)). (w.sequence, contents w []) ∷ fs) (closed_files (v ∷ ws))

closed_fits :
    (limits : StorageLimits) (r : Recovery) (ws : List Written) (next : ℕ)
    → Interior limits r ws next
    → LogFits limits r ws []
closed_fits limits r [] next inside = tt
closed_fits limits r (w ∷ []) next (here, one, order, inside) = (here, whole refl)
closed_fits limits r (w ∷ v ∷ ws) next (here, one, order, inside) =
    (here, one, order, closed_fits limits (scan_of r w).recovery (v ∷ ws) next inside)

IsClosed-Holds :
    (limits : StorageLimits) (w : WriteAheadLog) (ws : List Written) (entries : List WalEntry)
    (next count sequence : ℕ)
    → IsClosed limits w ws entries next count sequence
    → Holds limits w.files entries
IsClosed-Holds limits w ws entries next count sequence o = record {
  segments = ws;
  tail = [];
  same_files = o.files ∙ sym (closed_files ws);
  fits = closed_fits limits no_recovery ws sequence o.interior;
  same_records = o.records;
}

-- The segment that a creation makes.
abbrev fresh : ℕ → ℕ → Written
fresh sequence first_index = record { sequence = sequence; first_index = first_index; entries = [] }

contents-fresh :
    (sequence first_index : ℕ)
    → contents (fresh sequence first_index) [] ≡ make_segment_header sequence first_index
unfolding encode_all
contents-fresh sequence first_index = append-nil (make_segment_header sequence first_index)

fresh_files :
    (files : List (ℕ × List ℕ)) (ws : List Written) (sequence first_index : ℕ)
    → files ≡ closed ws
    → files ++ (sequence, make_segment_header sequence first_index) ∷ []
      ≡ closed ws ++ (sequence, contents (fresh sequence first_index) []) ∷ []
fresh_files files ws sequence first_index h = rw (h, contents-fresh sequence first_index) refl

fresh-SegmentFits :
    (limits : StorageLimits) (r : Recovery) (sequence next count : ℕ) (e : WalEntry)
    → Takes limits next count e
    → 0 < sequence
    → sequence < 2 ^ 64
    → misses r.expected next ≡ false
    → SegmentFits limits r (fresh sequence e.index) []
unfolding encode_all
fresh-SegmentFits limits r sequence next count e t positive small goes_on = record {
  numbered = record {
    sequence_positive = positive;
    sequence_fits = small;
    first_positive = t.positive;
    first_fits = omega (arith, t.index_fits);
  };
  continues = rw t.index goes_on;
  fit = tt;
  room = omega (arith, t.segment);
}

last_sequence-snoc :
    (ss : List SegmentInfo) (s : SegmentInfo) → last_sequence (ss ++ s ∷ []) ≡ some s.sequence
last_sequence-snoc [] s = refl
last_sequence-snoc (t ∷ []) s = refl
last_sequence-snoc (t ∷ u ∷ ss) s = last_sequence-snoc (u ∷ ss) s

-- An open log whose last segment has room for the entry.
pub record HasRoom (limits : StorageLimits) (entries : List WalEntry) (next count : ℕ)
    (e : WalEntry) (w : WriteAheadLog) : Type 0 where
  pub open_log : IsOpen limits w entries next count
  pub room : w.active_size + (40 + length e.payload) ≤ limits.wal_segment_bytes

add_segment-IsOpen :
    (limits : StorageLimits) (w : WriteAheadLog) (ws : List Written) (entries : List WalEntry)
    (next count sequence : ℕ) (e : WalEntry)
    → IsClosed limits w ws entries next count sequence
    → Takes limits next count e
    → 0 < sequence
    → sequence < 2 ^ 64
    → IsOpen limits (add_segment w sequence e.index) entries next count
add_segment-IsOpen limits w ws entries next count sequence e o t positive small = record {
  before = ws;
  last = fresh sequence e.index;
  same_limits = o.same_limits;
  files = fresh_files w.files ws sequence e.index o.files;
  interior = o.interior;
  fits =
      fresh-SegmentFits limits (recovery_of no_recovery ws) sequence next count e t positive small
        o.continues;
  open_file = refl;
  back = last_sequence-snoc w.segments _;
  size = refl;
  expected = ap some t.index;
  scanned = ap some t.index;
  counted = o.counted;
  recovered = o.recovered;
  records = append-nil (log_entries ws) ∙ o.records;
  is_healthy = o.is_healthy;
}

left_behind-Holds :
    (limits : StorageLimits) (w : WriteAheadLog) (ws : List Written) (entries : List WalEntry)
    (next count sequence : ℕ) (e : WalEntry)
    → IsClosed limits w ws entries next count sequence
    → Takes limits next count e
    → 0 < sequence
    → sequence < 2 ^ 64
    → Holds limits (w.files ++ (sequence, make_segment_header sequence e.index) ∷ []) entries
left_behind-Holds limits w ws entries next count sequence e o t positive small =
    IsOpen-Holds limits (add_segment w sequence e.index) entries next count
      (add_segment-IsOpen limits w ws entries next count sequence e o t positive small)

finish-Ends :
    (device : Device) (limits : StorageLimits) (w : WriteAheadLog) (ws : List Written)
    (entries : List WalEntry) (next count sequence : ℕ) (e : WalEntry) (c : Creation)
    → IsClosed limits w ws entries next count sequence
    → Takes limits next count e
    → 0 < sequence
    → sequence < 2 ^ 64
    → Ends
        (HasRoom limits entries next count e)
        (λ v. Holds limits v.files entries)
        (finish_creation device w sequence e.index c)
finish-Ends device limits w ws entries next count sequence e created o t positive small = record {
  open_log = add_segment-IsOpen limits w ws entries next count sequence e o t positive small;
  room = omega (arith, t.segment);
}
finish-Ends device limits w ws entries next count sequence e not_created o t positive small =
    IsClosed-Holds limits w ws entries next count sequence o
finish-Ends device limits w ws entries next count sequence e left_behind o t positive small =
    left_behind-Holds limits w ws entries next count sequence e o t positive small
finish-Ends device limits w ws entries next count sequence e not_opened o t positive small =
    left_behind-Holds limits w ws entries next count sequence e o t positive small

pub create_segment-Ends :
    (device : Device) (limits : StorageLimits) (w : WriteAheadLog) (ws : List Written)
    (entries : List WalEntry) (next count sequence : ℕ) (e : WalEntry)
    → IsClosed limits w ws entries next count sequence
    → Takes limits next count e
    → sequence < 2 ^ 64
    → Ends
        (HasRoom limits entries next count e)
        (λ v. Holds limits v.files entries)
        (create_segment device sequence e.index w)
unfolding create_segment
create_segment-Ends device limits w ws entries next count sequence e o t small =
    elim (Bool-cases (sequence == 0 || e.index == 0)) [
      | inl zero_number ↦ rw zero_number (IsClosed-Holds limits w ws entries next count sequence o)
      | inr numbered ↦ elim (Bool-cases (has_segment w.files sequence)) [
        | inl there ↦
            rw (numbered, there) (IsClosed-Holds limits w ws entries next count sequence o)
        | inr missing ↦
            rw (numbered, missing)
              (finish-Ends device limits w ws entries next count sequence e
                (device.creates sequence) o t (ground (arith, numbered)) small)
      ]
    ]
