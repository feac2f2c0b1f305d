-- ===== src/Storage/Wal/Named.antt =====
-- `segment_paths` of src/durable_storage.cpp finds the segments of a log by the names of its files,
-- in whatever order the directory lists them.
use kura_metadata_store.Prelude.{ℕ, ◌-◌, ◌^◌, ◌<◌, ◌≤◌, ◌≡◌, refl, sym, List, [], ◌∷◌, arith}
use kura_metadata_store.Prelude.Exception.{ok}
use kura_metadata_store.Storage.Names.{decimal_name, parse_decimal_name-decimal_name}
use kura_metadata_store.Storage.Wal.Recover.{
  wal_prefix, wal_suffix, segment_of, find_segments, insert_segment, sort_segments, check_sequence,
  check_sequences, segment_paths,
}
use kura_metadata_store.Storage.Wal.Sorted.{
  AllNumbered, LacksSequence, Distinct, AllNumbered-Reordered, insert_front, sort-Reordered, After,
  InSequence, Reordered,
}

-- The files of a directory under the names of their sequences.
abbrev pub named : List (ℕ × List ℕ) → List (List ℕ × List ℕ)
named [] = []
named ((s, contents) ∷ files) = (decimal_name wal_prefix s wal_suffix, contents) ∷ named files

find_segments-named :
    (files : List (ℕ × List ℕ)) → AllNumbered files → find_segments (named files) ≡ ok files
unfolding find_segments segment_of
find_segments-named [] all = refl
find_segments-named ((s, contents) ∷ files) (positive, fits, all) =
    rw (parse_decimal_name-decimal_name wal_prefix wal_suffix s fits, find_segments-named files all)
      (ground (arith, positive))

After-AllNumbered : (s : ℕ) (files : List (ℕ × List ℕ)) → After s files → AllNumbered files
After-AllNumbered s [] h = tt
After-AllNumbered s ((t, contents) ∷ files) (next, fits, h) =
    (omega (arith, next), fits, After-AllNumbered t files h)

After-Lacks : (s t : ℕ) (files : List (ℕ × List ℕ)) → s ≤ t → After t files → LacksSequence s files
After-Lacks s t [] le h = tt
After-Lacks s t ((u, contents) ∷ files) le (next, fits, h) =
    (omega (arith, next, le), After-Lacks s u files (omega (arith, next, le)) h)

After-Distinct : (s : ℕ) (files : List (ℕ × List ℕ)) → After s files → Distinct files
After-Distinct s [] h = tt
After-Distinct s ((t, contents) ∷ files) (next, fits, h) =
    (After-Lacks t t files (omega arith) h, After-Distinct t files h)

After-sorted : (s : ℕ) (files : List (ℕ × List ℕ)) → After s files → sort_segments files ≡ files
unfolding sort_segments insert_segment
After-sorted s [] h = refl
After-sorted s ((t, contents) ∷ []) (next, fits, h) = refl
After-sorted s ((t, contents) ∷ (u, more) ∷ files) (next, fits, h) =
    rw (After-sorted t ((u, more) ∷ files) h)
      (insert_front (t, contents) (u, more) files (ground (arith, h.0)))

After-checked :
    (s : ℕ) (files : List (ℕ × List ℕ))
    → s < 2 ^ 64
    → After s files
    → check_sequence s files ≡ ok tt
unfolding check_sequence
After-checked s [] small h = refl
After-checked s ((t, contents) ∷ files) small (next, fits, h) =
    rw (After-checked t files fits h) (ground (arith, next, fits))

In-AllNumbered : (files : List (ℕ × List ℕ)) → InSequence files → AllNumbered files
In-AllNumbered [] h = tt
In-AllNumbered ((s, contents) ∷ files) (positive, fits, h) =
    (positive, fits, After-AllNumbered s files h)

In-Distinct : (files : List (ℕ × List ℕ)) → InSequence files → Distinct files
In-Distinct [] h = tt
In-Distinct ((s, contents) ∷ files) (positive, fits, h) =
    (After-Lacks s s files (omega arith) h, After-Distinct s files h)

In-sorted : (files : List (ℕ × List ℕ)) → InSequence files → sort_segments files ≡ files
unfolding sort_segments
In-sorted [] h = refl
In-sorted ((s, contents) ∷ files) (positive, fits, h) =
    After-sorted (s - 1) ((s, contents) ∷ files) (omega (arith, positive), fits, h)

In-checked : (files : List (ℕ × List ℕ)) → InSequence files → check_sequences files ≡ ok tt
unfolding check_sequences
In-checked [] h = refl
In-checked ((s, contents) ∷ files) (positive, fits, h) = After-checked s files fits h

-- The segments of a directory, found by their names and put in order.
pub segment_paths-named :
    (files dir : List (ℕ × List ℕ))
    → InSequence files
    → Reordered files dir
    → segment_paths (named dir) ≡ ok files
unfolding segment_paths
segment_paths-named files dir h r =
    rw
      (
        find_segments-named dir (AllNumbered-Reordered r (In-AllNumbered files h)),
        sym (sort-Reordered r (In-Distinct files h)),
        In-sorted files h,
        In-checked files h,
      )
      refl
