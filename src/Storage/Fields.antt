-- ===== src/Storage/Fields.antt =====
-- A field that `append_le` writes is what `read_le` reads, wherever it stands; of
-- src/durable_storage.cpp and src/raft_hard_state_store.cpp.
use kura_metadata_store.Prelude.{
  String, ℕ, zero, suc, ◌/◌, ◌%◌, ◌^◌, ◌<◌, ◌≡◌, refl, ap, List, [], ◌∷◌, ◌++◌, arith, length,
  length-append, take, drop,
}
use native.Mathlib.Nat.{pow-suc}
use kura_metadata_store.Prelude.Exception.{ok}
use kura_metadata_store.Storage.Codec.{le_bytes, from_le, read_le, crc32c, crc_finish}

pub from_le-le_bytes :
    (width value : ℕ) → value < 256 ^ width → from_le (le_bytes width value) ≡ value
unfolding from_le le_bytes
from_le-le_bytes zero value h = omega arith
from_le-le_bytes (suc width) value h =
    omega (arith, from_le-le_bytes width (value / 256) (omega (arith, pow-suc 256 width)))

pub length-le_bytes : (width value : ℕ) → length (le_bytes width value) ≡ width
unfolding le_bytes
length-le_bytes zero value = refl
length-le_bytes (suc width) value = omega (arith, length-le_bytes width (value / 256))

pub drop-append : (xs ys : List ℕ) → drop (length xs) (xs ++ ys) ≡ ys
drop-append [] ys = refl
drop-append (x ∷ xs) ys = drop-append xs ys

pub take-append : (xs ys : List ℕ) → take (length xs) (xs ++ ys) ≡ xs
take-append [] ys = refl
take-append (x ∷ xs) ys = ap (λ (t : List ℕ). x ∷ t) (take-append xs ys)

take-le_bytes :
    (width value : ℕ) (after : List ℕ)
    → take width (le_bytes width value ++ after) ≡ le_bytes width value
unfolding le_bytes
take-le_bytes zero value after = refl
take-le_bytes (suc width) value after =
    ap (λ (t : List ℕ). value % 256 ∷ t) (take-le_bytes width (value / 256) after)

-- The field that stands after `before`.
pub read_le-le_bytes :
    (message : String) (width value : ℕ) (before after : List ℕ)
    → value < 256 ^ width
    → read_le message width (before ++ (le_bytes width value ++ after)) (length before) ≡ ok value
unfolding read_le
read_le-le_bytes message width value before after h =
    rw
      (
        length-append before (le_bytes width value ++ after),
        length-append (le_bytes width value) after,
        length-le_bytes width value,
        drop-append before (le_bytes width value ++ after),
        take-le_bytes width value after,
        from_le-le_bytes width value h,
      )
      (ground arith)

pub crc32c-lt : (bytes : List ℕ) → crc32c bytes < 2 ^ 32
unfolding crc32c crc_finish
crc32c-lt bytes = omega arith
