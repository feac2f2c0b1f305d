-- ===== src/Examples/Keys.antt =====
-- The range of a prefix at a concrete prefix and key.
use kura_metadata_store.Prelude.{◌≡◌, [], ◌∷◌, arith, none, some, ◌&&◌}
use kura_metadata_store.Bytes.{prefix_range_end, leb_bytes, ltb_bytes, ByteSequence}
use kura_metadata_store.Bytes.Prefix.{prefix_range_end-exact, starts_with}

abbrev a_prefix : ByteSequence
a_prefix = 7 ∷ 255 ∷ []

abbrev a_key : ByteSequence
a_key = 7 ∷ 255 ∷ 1 ∷ []

prefix_range_end-exact_example :
    elim (prefix_range_end a_prefix) [
      | none ↦ leb_bytes a_prefix a_key
      | some stop ↦ leb_bytes a_prefix a_key && ltb_bytes a_key stop
    ]
    ≡ starts_with a_prefix a_key
prefix_range_end-exact_example =
    prefix_range_end-exact a_prefix a_key (omega arith, (omega arith, tt))
      (omega arith, (omega arith, (omega arith, tt)))
