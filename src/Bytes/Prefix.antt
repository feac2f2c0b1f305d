-- ===== src/Bytes/Prefix.antt =====
-- `prefix_range_end` of src/key_range.cpp against the prefixes that it stands for.
use kura_metadata_store.Prelude.{
  ◌<◌, ◌≡◌, refl, Bool, true, false, none, some, [], ◌∷◌, arith, ◌&&◌, ◌==◌, Option-cases, inl, inr,
}
use kura_metadata_store.Bytes.{ByteSequence, cmp_bytes, ltb_bytes, leb_bytes, prefix_range_end}

-- Every element is a byte.
abbrev pub AreBytes : ByteSequence → Type 0
AreBytes [] = Unit {0}
AreBytes (x ∷ xs) = (x < 256) × AreBytes xs

-- `key` begins with `prefix`.
unfoldable pub starts_with : ByteSequence → ByteSequence → Bool
starts_with [] key = true
starts_with (p ∷ ps) [] = false
starts_with (p ∷ ps) (k ∷ ks) = (p == k) && starts_with ps ks

-- No upper bound: the prefix is all 255, and every key from it on has it.
prefix_none :
    (p k : ByteSequence) → AreBytes k → prefix_range_end p ≡ none → leb_bytes p k ≡ starts_with p k
unfolding prefix_range_end starts_with cmp_bytes
prefix_none [] [] b h = refl
prefix_none [] (k ∷ ks) b h = refl
prefix_none (p ∷ ps) [] b h = refl
prefix_none (p ∷ ps) (k ∷ ks) b h = ground (arith, prefix_none ps ks)

not_below_empty : (ks : ByteSequence) → ltb_bytes ks [] ≡ false
unfolding cmp_bytes
not_below_empty [] = refl
not_below_empty (k ∷ ks) = refl

prefix_some :
    (p k e : ByteSequence)
    → AreBytes p
    → AreBytes k
    → prefix_range_end p ≡ some e
    → (leb_bytes p k && ltb_bytes k e) ≡ starts_with p k
unfolding prefix_range_end starts_with cmp_bytes
prefix_some [] k e bp bk h = cc
prefix_some (p ∷ ps) [] e bp bk h = ground arith
prefix_some (p ∷ ps) (k ∷ ks) e bp bk h = elim (Option-cases (prefix_range_end ps)) [
  | inl ends ↦ ground (arith, prefix_none ps ks, not_below_empty ks)
  | inr (rest, goes_on) ↦ ground (arith, prefix_some ps ks rest)
]

-- The range that starts at a prefix and stops at its `prefix_range_end` holds exactly the keys that
-- begin with the prefix; where there is no end, all keys from the prefix on do.
pub prefix_range_end-exact :
    (prefix key : ByteSequence)
    → AreBytes prefix
    → AreBytes key
    → elim (prefix_range_end prefix) [
      | none ↦ leb_bytes prefix key
      | some stop ↦ leb_bytes prefix key && ltb_bytes key stop
    ]
      ≡ starts_with prefix key
prefix_range_end-exact prefix key bp bk = elim (Option-cases (prefix_range_end prefix)) [
  | inl ends ↦ rw ends (prefix_none prefix key bk ends)
  | inr (stop, found) ↦ rw found (prefix_some prefix key stop bp bk found)
]
