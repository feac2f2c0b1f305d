-- ===== src/Bytes.antt =====
-- src/byte_sequence.cpp and src/key_range.cpp: binary keys, their order, and the end of a prefix's
-- range. A byte is a number below 256.
pub mod Prefix
use Prim.Native.Nat.{compare, Ordering}
use kura_metadata_store.Prelude.{
  ℕ, ◌+◌, ◌≡◌, ◌↔◌, Bool, true, false, Option, none, some, List, [], ◌∷◌, arith, ◌==◌,
  if◌then◌else◌,
}
use kura_metadata_store.Prelude.Int.{ℤ, pos_part, neg_part}
use kura_metadata_store.OrderedMap.{Ord}

abbrev pub ByteSequence : Type 0
ByteSequence = List ℕ

-- The defaulted `<=>` of a vector of bytes: lexicographic.
unfoldable pub cmp_bytes : ByteSequence → ByteSequence → Ordering
cmp_bytes [] [] = Ordering.eq
cmp_bytes [] (y ∷ ys) = Ordering.lt
cmp_bytes (x ∷ xs) [] = Ordering.gt
cmp_bytes (x ∷ xs) (y ∷ ys) = elim (compare x y) [
  | Ordering.lt ↦ Ordering.lt
  | Ordering.eq ↦ cmp_bytes xs ys
  | Ordering.gt ↦ Ordering.gt
]

pub cmp_bytes_eq : (a b : ByteSequence) → (cmp_bytes a b ≡ Ordering.eq) ↔ (a ≡ b)
unfolding cmp_bytes
cmp_bytes_eq [] [] = ground arith
cmp_bytes_eq [] (y ∷ ys) = ground arith
cmp_bytes_eq (x ∷ xs) [] = ground arith
cmp_bytes_eq (x ∷ xs) (y ∷ ys) = ground (arith, cmp_bytes_eq xs ys)

instance abbrev pub bytes_ord : Ord ByteSequence
bytes_ord = record { cmp = cmp_bytes; cmp_eq = cmp_bytes_eq }

abbrev pub is_lt : Ordering → Bool
is_lt Ordering.lt = true
is_lt _ = false

-- `a < b` and `a <= b`.
abbrev pub ltb_bytes : ByteSequence → ByteSequence → Bool
ltb_bytes a b = is_lt (cmp_bytes a b)

abbrev is_le : Ordering → Bool
is_le Ordering.gt = false
is_le _ = true

abbrev pub leb_bytes : ByteSequence → ByteSequence → Bool
leb_bytes a b = is_le (cmp_bytes a b)

-- `ByteSequence::empty`.
abbrev pub is_empty_bytes : ByteSequence → Bool
is_empty_bytes [] = true
is_empty_bytes (x ∷ xs) = false

abbrev is_same : Ordering → Bool
is_same Ordering.eq = true
is_same _ = false

-- `a == b`.
abbrev pub key_is : ByteSequence → ByteSequence → Bool
key_is a b = is_same (cmp_bytes a b)

pub record KeyRange : Type 0 where
  pub start : ByteSequence
  pub stop : ByteSequence

abbrev incremented : ℕ → Option ByteSequence → Option ByteSequence
incremented x none = if x == 255 then none else some ((x + 1) ∷ [])
incremented x (some rest) = some (x ∷ rest)

-- `prefix_range_end`: the last byte below 255 is incremented, and what follows it goes. The loop
-- goes down from the end; so does this recursion.
unfoldable pub prefix_range_end : ByteSequence → Option ByteSequence
prefix_range_end [] = none
prefix_range_end (x ∷ xs) = incremented x (prefix_range_end xs)

-- The order of `std::int64_t` keys.
unfoldable pub cmp_ℤ : ℤ → ℤ → Ordering
cmp_ℤ a b = compare (pos_part a + neg_part b) (pos_part b + neg_part a)

pub cmp_ℤ_eq : (a b : ℤ) → (cmp_ℤ a b ≡ Ordering.eq) ↔ (a ≡ b)
unfolding cmp_ℤ
cmp_ℤ_eq a b = ground arith

instance abbrev pub int_ord : Ord ℤ
int_ord = record { cmp = cmp_ℤ; cmp_eq = cmp_ℤ_eq }
