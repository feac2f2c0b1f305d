-- ===== src/Storage/Wal/Loop.antt =====
-- The loop of `append` in src/durable_storage.cpp, whichever of its calls throws.
use kura_metadata_store.Prelude.{
  ℕ, zero, suc, ◌+◌, ◌-◌, ◌^◌, ◌<◌, ◌≤◌, ◌≡◌, refl, sym, ap, ◌∙◌, subst, Bool-cases, inl, inr,
  Option, none, some, List, [], ◌∷◌, ◌++◌, ltb, length, length-append, length-drop, length-take,
  take, drop, arith,
}
use mathlib.Core.List.{append_assoc, append-nil}
use kura_metadata_store.Storage.Codec.{StorageLimits}
use kura_metadata_store.Storage.HardState.Persist.{◌and_then◌}
use kura_metadata_store.Storage.Wal.Format.{WalEntry, encode_record}
use kura_metadata_store.Storage.Wal.Scan.{Recovery, SegmentScan, place_of}
use kura_metadata_store.Storage.Wal.Records.{FitsAt}
use kura_metadata_store.Storage.Wal.Scans.{encode_all, taken-offset}
use kura_metadata_store.Storage.Wal.Recover.{no_recovery, start_scan}
use kura_metadata_store.Storage.Wal.RoundTrip.{Written, IsTail, cut, SegmentFits, scan_of}
use kura_metadata_store.Storage.Wal.Append.{
  WriteAheadLog, Device, ensure_segment, write_last, write_entry, append_entry, append_entries,
}
use kura_metadata_store.Storage.Wal.Extend.{take-drop, recovery_of, length-encode_record}
use kura_metadata_store.Storage.Wal.Kept.{
  Takes, Accepted, IsOpen, Holds, Holds-last, IsOpen-Holds, HoldsSome, Holds-none, holds_one_more,
  Ends, and_then-Ends, Ends-failed,
}
use kura_metadata_store.Storage.Wal.Creates.{HasRoom}
use kura_metadata_store.Storage.Wal.Appends.{ensure_open-Ends}
use kura_metadata_store.Storage.Wal.Writes.{Takes-FitsAt, written_files, whole-IsOpen}

take-all : (n : ℕ) (xs : List ℕ) → length xs ≤ n → take n xs ≡ xs
take-all zero [] h = refl
take-all zero (x ∷ xs) h = ground arith
take-all (suc n) [] h = refl
take-all (suc n) (x ∷ xs) h = ap (λ (ys : List ℕ). x ∷ ys) (take-all n xs (omega arith))

cut-IsTail :
    (limits : StorageLimits) (first_index : ℕ) (scan : SegmentScan) (e : WalEntry) (n : ℕ)
    (left : List ℕ)
    → FitsAt limits (place_of first_index scan) e
    → n < length (encode_record e)
    → drop n (encode_record e) ≡ left
    → IsTail limits first_index scan (take n (encode_record e))
cut-IsTail limits first_index scan e n [] fits short h =
    let none_left : length (encode_record e) - n ≡ 0 =
      sym (length-drop n (encode_record e)) ∙ ap (λ (xs : List ℕ). length xs) h in
    ground (arith, none_left, short)
cut-IsTail limits first_index scan e n (x ∷ back) fits short h =
    cut e x back fits
      (take-drop n (encode_record e) ∙ ap (λ (ys : List ℕ). take n (encode_record e) ++ ys) h)

tail_room :
    (size room n : ℕ) (es : List WalEntry) (e : WalEntry)
    → size ≡ 40 + length (encode_all es)
    → size + (40 + length e.payload) ≤ room
    → 40 + length (encode_all es ++ take n (encode_record e)) ≤ room
tail_room size room n es e h fits = omega (
  arith,
  h,
  fits,
  length-append (encode_all es) (take n (encode_record e)),
  length-take n (encode_record e),
  length-encode_record e,
)

tail-SegmentFits :
    (limits : StorageLimits) (r : Recovery) (last : Written) (e : WalEntry) (size n : ℕ)
    → SegmentFits limits r last []
    → size ≡ (scan_of r last).offset
    → size + (40 + length e.payload) ≤ limits.wal_segment_bytes
    → SegmentFits limits r last (take n (encode_record e))
tail-SegmentFits limits r last e size n s at_ room = record {
  numbered = s.numbered;
  continues = s.continues;
  fit = s.fit;
  room =
      tail_room size limits.wal_segment_bytes n last.entries e
        (at_ ∙ taken-offset (start_scan r last.first_index) last.entries) room;
}

-- A write that throws after some bytes.
torn-HoldsSome :
    (device : Device) (limits : StorageLimits) (w : WriteAheadLog) (entries more : List WalEntry)
    (next count n : ℕ) (e : WalEntry)
    → HasRoom limits entries next count e w
    → Takes limits next count e
    → limits.wal_segment_bytes < 2 ^ 64
    → HoldsSome limits entries (e ∷ more) (write_last (take n (encode_record e)) w.files)
torn-HoldsSome device limits w entries more next count n e h t small =
    let o = h.open_log in
    let r : Recovery = recovery_of no_recovery o.before in
    elim (Bool-cases (ltb n (length (encode_record e)))) [
      | inl short ↦ Holds-none limits entries (e ∷ more) _ (
          Holds-last limits _ entries o.before o.last (take n (encode_record e))
            (written_files w.files o.before o.last (take n (encode_record e)) o.files) o.interior
            (tail-SegmentFits limits r o.last e w.active_size n o.fits o.size h.room)
            (cut-IsTail limits o.last.first_index (scan_of r o.last) e n _
              (Takes-FitsAt limits w entries next count e o t small) (ground (arith, short)) refl)
            o.records)
      | inr long ↦ record {
        written = e ∷ [];
        unwritten = more;
        split = refl;
        holds = rw (take-all n (encode_record e) (ground (arith, long))) (
            IsOpen-Holds limits (write_entry device e none w).0 (entries ++ e ∷ []) (e.index + 1)
              (count + 1) (whole-IsOpen device limits w entries next count e h t small));
      }
    ]

write_entry-Ends :
    (device : Device) (limits : StorageLimits) (w : WriteAheadLog) (entries more : List WalEntry)
    (next count : ℕ) (e : WalEntry) (stop : Option ℕ)
    → HasRoom limits entries next count e w
    → Takes limits next count e
    → limits.wal_segment_bytes < 2 ^ 64
    → Ends
        (λ v. IsOpen limits v (entries ++ e ∷ []) (e.index + 1) (count + 1))
        (λ v. HoldsSome limits entries (e ∷ more) v.files)
        (write_entry device e stop w)
write_entry-Ends device limits w entries more next count e none h t small =
    whole-IsOpen device limits w entries next count e h t small
write_entry-Ends device limits w entries more next count e (some n) h t small =
    torn-HoldsSome device limits w entries more next count n e h t small

pub append_entry-Ends :
    (device : Device) (limits : StorageLimits) (w : WriteAheadLog) (entries more : List WalEntry)
    (next count : ℕ) (e : WalEntry)
    → Ends
        (HasRoom limits entries next count e)
        (λ v. Holds limits v.files entries)
        (ensure_segment device e.index (length (encode_record e)) w)
    → Takes limits next count e
    → limits.wal_segment_bytes < 2 ^ 64
    → Ends
        (λ v. IsOpen limits v (entries ++ e ∷ []) (e.index + 1) (count + 1))
        (λ v. HoldsSome limits entries (e ∷ more) v.files)
        (append_entry device e w)
unfolding append_entry
append_entry-Ends device limits w entries more next count e h t small =
    and_then-Ends (HasRoom limits entries next count e)
      (λ v. IsOpen limits v (entries ++ e ∷ []) (e.index + 1) (count + 1))
      (λ v. HoldsSome limits entries (e ∷ more) v.files)
      (ensure_segment device e.index (length (encode_record e)) w)
      (write_entry device e (device.stops e.index))
      (Ends-failed (HasRoom limits entries next count e) (λ v. Holds limits v.files entries)
        (λ v. HoldsSome limits entries (e ∷ more) v.files)
        (ensure_segment device e.index (length (encode_record e)) w) h
        (λ v held. Holds-none limits entries (e ∷ more) v.files held))
      (λ v room.
        write_entry-Ends device limits v entries more next count e (device.stops e.index) room t
          small)

-- The log is open and holds these records.
abbrev pub OpenWith : StorageLimits → List WalEntry → WriteAheadLog → Type 0
OpenWith limits entries w = (next : ℕ) × (count : ℕ) × IsOpen limits w entries next count

pub rest-Ends :
    (device : Device) (limits : StorageLimits) (entries es : List WalEntry) (e : WalEntry)
    (count : ℕ) (w : WriteAheadLog)
    → ((v : WriteAheadLog)
        → IsOpen limits v (entries ++ e ∷ []) (e.index + 1) (count + 1)
        → Ends
            (OpenWith limits ((entries ++ e ∷ []) ++ es))
            (λ u. HoldsSome limits (entries ++ e ∷ []) es u.files)
            (append_entries device es v))
    → Ends
        (λ v. IsOpen limits v (entries ++ e ∷ []) (e.index + 1) (count + 1))
        (λ v. HoldsSome limits entries (e ∷ es) v.files)
        (append_entry device e w)
    → Ends
        (OpenWith limits (entries ++ e ∷ es))
        (λ v. HoldsSome limits entries (e ∷ es) v.files)
        (append_entry device e w and_then append_entries device es)
rest-Ends device limits entries es e count w go first =
    and_then-Ends (λ v. IsOpen limits v (entries ++ e ∷ []) (e.index + 1) (count + 1))
      (OpenWith limits (entries ++ e ∷ es)) (λ v. HoldsSome limits entries (e ∷ es) v.files)
      (append_entry device e w) (append_entries device es) first
      (λ v o.
        Ends-failed (OpenWith limits (entries ++ e ∷ es))
          (λ u. HoldsSome limits (entries ++ e ∷ []) es u.files)
          (λ u. HoldsSome limits entries (e ∷ es) u.files) (append_entries device es v)
          (subst
            (λ (all : List WalEntry).
              Ends (OpenWith limits all) (λ u. HoldsSome limits (entries ++ e ∷ []) es u.files)
                (append_entries device es v))
            (append_assoc entries (e ∷ []) es) (go v o))
          (λ u held. holds_one_more limits entries es e u.files held))

pub append_entries-Ends :
    (device : Device) (limits : StorageLimits) (es entries : List WalEntry) (next count : ℕ)
    (w : WriteAheadLog)
    → IsOpen limits w entries next count
    → Accepted limits next count es
    → limits.wal_segment_bytes < 2 ^ 64
    → Ends
        (OpenWith limits (entries ++ es))
        (λ v. HoldsSome limits entries es v.files)
        (append_entries device es w)
unfolding append_entries
append_entries-Ends device limits [] entries next count w o all small =
    (next, count, rw (append-nil entries) o)
append_entries-Ends device limits (e ∷ es) entries next count w o (t, all) small =
    rest-Ends device limits entries es e count w
      (λ v opened.
        append_entries-Ends device limits es (entries ++ e ∷ []) (e.index + 1) (count + 1) v opened
          all small)
      (append_entry-Ends device limits w entries es next count e
        (ensure_open-Ends device limits w entries next count e o t) t small)
