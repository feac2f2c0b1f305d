-- ===== src/Storage/Wal/Kept.antt =====
-- What the write-ahead log of src/durable_storage.cpp keeps: its files hold the records that were
-- appended, and its members are what a recovery of the files would set.
use kura_metadata_store.Prelude.{
  ℕ, ◌+◌, ◌^◌, ◌<◌, ◌≤◌, ◌≡◌, refl, sym, ap, ◌∙◌, true, false, none, some, List, [], ◌∷◌, ◌++◌,
  length,
}
use mathlib.Core.List.{append_assoc, append-nil}
use kura_metadata_store.Storage.Codec.{StorageLimits}
use kura_metadata_store.Storage.HardState.Files.{Outcome, done, failed}
use kura_metadata_store.Storage.HardState.Persist.{◌and_then◌}
use kura_metadata_store.Storage.Wal.Format.{WalEntry}
use kura_metadata_store.Storage.Wal.Recover.{no_recovery}
use kura_metadata_store.Storage.Wal.RoundTrip.{
  Written, contents, IsTail, whole, SegmentFits, scan_of,
}
use kura_metadata_store.Storage.Wal.Logs.{log_files, log_entries, LogFits}
use kura_metadata_store.Storage.Wal.Append.{WriteAheadLog, last_sequence}
use kura_metadata_store.Storage.Wal.Extend.{
  closed, recovery_of, Interior, log_files-snoc, log_entries-snoc, log_fits,
}

-- An entry that `validate_append` takes at its place; its term fits its field, and its index is not
-- the greatest one.
pub record Takes (limits : StorageLimits) (next count : ℕ) (e : WalEntry) : Type 0 where
  pub type : e.type ≡ 1
  pub positive : 0 < e.index
  pub index : e.index ≡ next
  pub payload : length e.payload ≤ limits.max_wal_payload_bytes
  pub segment : 80 + length e.payload ≤ limits.wal_segment_bytes
  pub room : count < limits.max_recovery_records
  pub term_fits : e.term < 2 ^ 64
  pub index_fits : e.index + 1 < 2 ^ 64

abbrev pub Accepted : StorageLimits → ℕ → ℕ → List WalEntry → Type 0
Accepted limits next count [] = Unit {0}
Accepted limits next count (e ∷ es) =
    Takes limits next count e × Accepted limits (e.index + 1) (count + 1) es

-- An open log: the segments before the last one, and the last one.
pub record IsOpen (limits : StorageLimits) (w : WriteAheadLog) (entries : List WalEntry)
    (next count : ℕ) : Type 0 where
  pub before : List Written
  pub last : Written
  pub same_limits : w.limits ≡ limits
  pub files : w.files ≡ closed before ++ (last.sequence, contents last []) ∷ []
  pub interior : Interior limits no_recovery before last.sequence
  pub fits : SegmentFits limits (recovery_of no_recovery before) last []
  pub open_file : w.is_open ≡ true
  pub back : last_sequence w.segments ≡ some last.sequence
  pub size : w.active_size ≡ (scan_of (recovery_of no_recovery before) last).offset
  pub expected : w.expected_append ≡ some next
  pub scanned : (scan_of (recovery_of no_recovery before) last).recovery.expected ≡ some next
  pub counted : w.count ≡ count
  pub recovered : (scan_of (recovery_of no_recovery before) last).recovery.count ≡ count
  pub records : log_entries before ++ last.entries ≡ entries
  pub is_healthy : w.healthy ≡ true

-- A log without segments.
pub record IsEmpty (limits : StorageLimits) (w : WriteAheadLog) : Type 0 where
  pub same_limits : w.limits ≡ limits
  pub files : w.files ≡ []
  pub segments : w.segments ≡ []
  pub closed_file : w.is_open ≡ false
  pub expected : w.expected_append ≡ none
  pub last_index : w.last_index ≡ none
  pub counted : w.count ≡ 0
  pub is_healthy : w.healthy ≡ true

-- Files that recovery reads as a log of these records.
pub record Holds (limits : StorageLimits) (files : List (ℕ × List ℕ)) (entries : List WalEntry)
    : Type 0 where
  pub segments : List Written
  pub tail : List ℕ
  pub same_files : files ≡ log_files segments tail
  pub fits : LogFits limits no_recovery segments tail
  pub same_records : log_entries segments ≡ entries

pub Holds-last :
    (limits : StorageLimits) (files : List (ℕ × List ℕ)) (entries : List WalEntry)
    (before : List Written) (last : Written) (tail : List ℕ)
    → files ≡ closed before ++ (last.sequence, contents last tail) ∷ []
    → Interior limits no_recovery before last.sequence
    → SegmentFits limits (recovery_of no_recovery before) last tail
    → IsTail limits last.first_index (scan_of (recovery_of no_recovery before) last) tail
    → log_entries before ++ last.entries ≡ entries
    → Holds limits files entries
Holds-last limits files entries before last tail same inside fits ends records = record {
  segments = before ++ last ∷ [];
  tail = tail;
  same_files = same ∙ sym (log_files-snoc before last tail);
  fits = log_fits limits no_recovery before last tail inside fits ends;
  same_records = log_entries-snoc before last ∙ records;
}

pub IsOpen-Holds :
    (limits : StorageLimits) (w : WriteAheadLog) (entries : List WalEntry) (next count : ℕ)
    → IsOpen limits w entries next count
    → Holds limits w.files entries
IsOpen-Holds limits w entries next count o =
    Holds-last limits w.files entries o.before o.last [] o.files o.interior o.fits (whole refl)
      o.records

pub IsEmpty-Holds :
    (limits : StorageLimits) (w : WriteAheadLog) → IsEmpty limits w → Holds limits w.files []
IsEmpty-Holds limits w o = record {
  segments = [];
  tail = [];
  same_files = o.files;
  fits = tt;
  same_records = refl;
}

-- Files that hold the records so far and the first of some more.
pub record HoldsSome (limits : StorageLimits) (entries more : List WalEntry)
    (files : List (ℕ × List ℕ)) : Type 0 where
  pub written : List WalEntry
  pub unwritten : List WalEntry
  pub split : more ≡ written ++ unwritten
  pub holds : Holds limits files (entries ++ written)

pub Holds-none :
    (limits : StorageLimits) (entries more : List WalEntry) (files : List (ℕ × List ℕ))
    → Holds limits files entries
    → HoldsSome limits entries more files
Holds-none limits entries more files h = record {
  written = [];
  unwritten = more;
  split = refl;
  holds = rw (append-nil entries) h;
}

pub holds_one_more :
    (limits : StorageLimits) (entries more : List WalEntry) (e : WalEntry)
    (files : List (ℕ × List ℕ))
    → HoldsSome limits (entries ++ e ∷ []) more files
    → HoldsSome limits entries (e ∷ more) files
holds_one_more limits entries more e files h = record {
  written = e ∷ h.written;
  unwritten = h.unwritten;
  split = ap (λ (es : List WalEntry). e ∷ es) h.split;
  holds = rw (sym (append_assoc entries (e ∷ []) h.written)) h.holds;
}

-- How a chain of statements ends: a property of the state where they are done, and one where a
-- statement threw.
abbrev pub Ends :
    (WriteAheadLog → Type 0) → (WriteAheadLog → Type 0) → WriteAheadLog × Outcome → Type 0
Ends Done Failed (w, done) = Done w
Ends Done Failed (w, failed e) = Failed w

pub and_then-Ends :
    (Done Next Failed : WriteAheadLog → Type 0) (p : WriteAheadLog × Outcome)
    (next : WriteAheadLog → WriteAheadLog × Outcome)
    → Ends Done Failed p
    → ((w : WriteAheadLog) → Done w → Ends Next Failed (next w))
    → Ends Next Failed (p and_then next)
and_then-Ends Done Next Failed (w, done) next h go = go w h
and_then-Ends Done Next Failed (w, failed e) next h go = h

pub Ends-failed :
    (Done Failed Failed' : WriteAheadLog → Type 0) (p : WriteAheadLog × Outcome)
    → Ends Done Failed p
    → ((w : WriteAheadLog) → Failed w → Failed' w)
    → Ends Done Failed' p
Ends-failed Done Failed Failed' (w, done) h go = h
Ends-failed Done Failed Failed' (w, failed e) h go = go w h
