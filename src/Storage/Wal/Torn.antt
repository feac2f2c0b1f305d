-- ===== src/Storage/Wal/Torn.antt =====
-- A record of src/durable_storage.cpp that was cut off while it was written.
use kura_metadata_store.Prelude.{
  ℕ, zero, suc, ◌+◌, ◌<◌, ◌≤◌, ◌≡◌, refl, sym, ap, ◌∙◌, true, Bool-cases, inl, inr, List, [], ◌∷◌,
  ◌++◌, ltb, length, length-append, take, arith,
}
use mathlib.Core.List.{append-nil}
use kura_metadata_store.Prelude.Exception.{ok}
use kura_metadata_store.Storage.Codec.{StorageLimits}
use kura_metadata_store.Storage.Wal.Format.{
  WalEntry, encode_record, Place, sized_record, next_record, torn,
}
use kura_metadata_store.Storage.Wal.Records.{
  FitsAt, record_header, header_of, header_parts, read_header-header, check_header-fits, cuts,
}

take-prefix : (n : ℕ) (xs ys : List ℕ) → n ≤ length xs → take n (xs ++ ys) ≡ take n xs
take-prefix zero xs ys h = refl
take-prefix (suc n) [] ys h = absurd (omega arith)
take-prefix (suc n) (x ∷ xs) ys h = ap (λ (t : List ℕ). x ∷ t) (take-prefix n xs ys (omega arith))

whole_header :
    (e : WalEntry) (front back : List ℕ)
    → encode_record e ≡ front ++ back
    → 40 ≤ length front
    → take 40 front ≡ record_header e
whole_header e front back h long =
    sym (take-prefix 40 front back long)
    ∙ ap (λ (t : List ℕ). take 40 t) (sym h ∙ sym (append-nil (encode_record e)))
    ∙ (cuts e []).header

cut_short :
    (e : WalEntry) (x : ℕ) (front back : List ℕ)
    → encode_record e ≡ front ++ (x ∷ back)
    → length front < 40 + length e.payload
cut_short e x front back h = omega (
  arith,
  (cuts e []).size,
  ap length (append-nil (encode_record e)),
  ap length h,
  length-append front (x ∷ back),
)

sized_torn :
    (limits : StorageLimits) (place : Place) (e : WalEntry) (front : List ℕ)
    → length front < 40 + length e.payload
    → sized_record limits true place (header_of e) front ≡ ok torn
unfolding sized_record header_of
sized_torn limits place e front h = ground arith

-- Any proper beginning of a record that fits its place reads as torn at the end of the final
-- segment.
pub next_record_torn :
    (limits : StorageLimits) (place : Place) (e : WalEntry) (x : ℕ) (front back : List ℕ)
    → FitsAt limits place e
    → encode_record e ≡ front ++ (x ∷ back)
    → next_record limits true place front ≡ ok torn
unfolding next_record
next_record_torn limits place e x front back fits h = elim (Bool-cases (ltb (length front) 40)) [
  | inl short ↦ rw short refl
  | inr long ↦
      rw
        (
          long,
          whole_header e front (x ∷ back) h (ground arith),
          read_header-header e (header_parts limits place e fits),
          check_header-fits limits place e fits,
        )
        (sized_torn limits place e front (cut_short e x front back h))
]
