-- ===== src/Storage/Codec.antt =====
-- Little-endian fields and checksums of src/durable_storage.cpp and src/raft_hard_state_store.cpp,
-- which declare `append_le` and `read_le` alike, and `StorageLimits`. A byte is a number below 256.
use Prim.Native.Nat.{bit_and, bit_xor}
use kura_metadata_store.Prelude.{
  ℕ, zero, suc, ◌+◌, ◌-◌, ◌*◌, ◌/◌, ◌%◌, ◌^◌, String, Bool, ◌||◌, List, [], ◌∷◌, leb, ltb, ◌==◌,
  true, if◌then◌else◌, length, take, drop, u64_max,
}
use kura_metadata_store.Prelude.Exception.{Result, ok, err, storage_error}

pub record StorageLimits : Type 0 where
  pub wal_segment_bytes : ℕ
  pub max_wal_payload_bytes : ℕ
  pub max_recovery_records : ℕ
  pub max_snapshot_bytes : ℕ
  pub max_raft_hard_state_bytes : ℕ
  pub max_snapshot_members : ℕ
  pub snapshot_interval_entries : ℕ
  pub backend_quota_bytes : ℕ

-- `fail`.
abbrev pub fail {ℓ} : {A : Type ℓ} → String → Result A
fail message = err (storage_error message)

-- The bytes that `append_le` pushes for an integer of `width` bytes.
unfoldable pub le_bytes : ℕ → ℕ → List ℕ
le_bytes zero value = []
le_bytes (suc width) value = value % 256 ∷ le_bytes width (value / 256)

-- The loop of `read_le`: the bits of each byte are above those before, so the or is a sum.
unfoldable pub from_le : List ℕ → ℕ
from_le [] = 0
from_le (b ∷ bs) = b + 256 * from_le bs

-- `read_le<Integer>(bytes, offset)` with `width` for `sizeof(Integer)`, and the message that each of
-- the two files has for a field that is cut off.
unfoldable pub read_le : String → ℕ → List ℕ → ℕ → Result ℕ
unfolding from_le
read_le message width bytes offset =
    if ltb (length bytes) offset || ltb (length bytes - offset) width
    then fail message
    else ok (from_le (take width (drop offset bytes)))

-- `checked_add` and `checked_multiply`: whether the result fits, and the result.
abbrev pub add_fits : ℕ → ℕ → Bool
add_fits left right = leb right (u64_max - left)

abbrev pub multiply_fits : ℕ → ℕ → Bool
multiply_fits left right = if left == 0 then true else leb right (u64_max / left)

-- One round of the inner loop of `Crc32cAccumulator::update`; the mask is `0U - (value_ & 1U)`.
unfoldable pub crc_bit : ℕ → ℕ
crc_bit value = bit_xor (value / 2) (bit_and 0x82f63b78 ((2 ^ 32 - bit_and value 1) % 2 ^ 32))

unfoldable pub crc_bits : ℕ → ℕ → ℕ
unfolding crc_bit
crc_bits zero value = value
crc_bits (suc n) value = crc_bits n (crc_bit value)

unfoldable pub crc_update : ℕ → List ℕ → ℕ
unfolding crc_bits
crc_update value [] = value
crc_update value (b ∷ bs) = crc_update (crc_bits 8 (bit_xor value b)) bs

-- `finish`; the result is a `std::uint32_t`.
unfoldable pub crc_finish : ℕ → ℕ
crc_finish value = bit_xor value 0xffffffff % 2 ^ 32

unfoldable pub crc32c : List ℕ → ℕ
unfolding crc_update crc_finish
crc32c bytes = crc_finish (crc_update 0xffffffff bytes)
