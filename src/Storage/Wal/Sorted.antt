-- ===== src/Storage/Wal/Sorted.antt =====
-- The order of the segments in src/durable_storage.cpp: `std::ranges::sort` in `segment_paths` does
-- not depend on the order of the directory.
use kura_metadata_store.Prelude.{
  ◌≢◌, ℕ, ◌+◌, ◌^◌, ◌<◌, ◌≡◌, refl, sym, ap, ◌∙◌, true, false, Bool-cases, inl, inr, List, [], ◌∷◌,
  leb, arith,
}
use kura_metadata_store.Storage.Wal.Recover.{insert_segment, sort_segments}

-- Sequences one after the other, from the one after `before` on.
abbrev pub After : ℕ → List (ℕ × List ℕ) → Type 0
After before [] = Unit {0}
After before ((s, contents) ∷ files) = (s ≡ before + 1) × (s < 2 ^ 64) × After s files

abbrev pub InSequence : List (ℕ × List ℕ) → Type 0
InSequence [] = Unit {0}
InSequence ((s, contents) ∷ files) = (0 < s) × (s < 2 ^ 64) × After s files

-- The same files in another order.
pub data Reordered : List (ℕ × List ℕ) → List (ℕ × List ℕ) → Type 0 where
  no_files : Reordered [] []
  same_first :
      {xs ys : List (ℕ × List ℕ)} (f : ℕ × List ℕ) → Reordered xs ys → Reordered (f ∷ xs) (f ∷ ys)
  swapped : {xs : List (ℕ × List ℕ)} (f g : ℕ × List ℕ) → Reordered (f ∷ g ∷ xs) (g ∷ f ∷ xs)
  in_turn : {xs ys zs : List (ℕ × List ℕ)} → Reordered xs ys → Reordered ys zs → Reordered xs zs

-- The sequences are numbers of a file name.
abbrev pub AllNumbered : List (ℕ × List ℕ) → Type 0
AllNumbered [] = Unit {0}
AllNumbered ((s, contents) ∷ files) = (0 < s) × (s < 2 ^ 64) × AllNumbered files

-- No file has the sequence.
abbrev pub LacksSequence : ℕ → List (ℕ × List ℕ) → Type 0
LacksSequence s [] = Unit {0}
LacksSequence s ((t, contents) ∷ files) = (s ≢ t) × LacksSequence s files

abbrev pub Distinct : List (ℕ × List ℕ) → Type 0
Distinct [] = Unit {0}
Distinct ((s, contents) ∷ files) = LacksSequence s files × Distinct files

Lacks-Reordered :
    (s : ℕ) {xs ys : List (ℕ × List ℕ)} → Reordered xs ys → LacksSequence s xs → LacksSequence s ys
Lacks-Reordered s no_files h = h
Lacks-Reordered s (same_first f r) (h, rest) = (h, Lacks-Reordered s r rest)
Lacks-Reordered s (swapped f g) (h, (k, rest)) = (k, (h, rest))
Lacks-Reordered s (in_turn r q) h = Lacks-Reordered s q (Lacks-Reordered s r h)

pub Distinct-Reordered : {xs ys : List (ℕ × List ℕ)} → Reordered xs ys → Distinct xs → Distinct ys
Distinct-Reordered no_files d = d
Distinct-Reordered (same_first f r) (h, d) = (Lacks-Reordered f.0 r h, Distinct-Reordered r d)
Distinct-Reordered (swapped f g) ((h, k), (l, d)) = (((λ e. h (sym e)), l), (k, d))
Distinct-Reordered (in_turn r q) d = Distinct-Reordered q (Distinct-Reordered r d)

pub AllNumbered-Reordered :
    {xs ys : List (ℕ × List ℕ)} → Reordered xs ys → AllNumbered xs → AllNumbered ys
AllNumbered-Reordered no_files a = a
AllNumbered-Reordered (same_first f r) (h, k, a) = (h, k, AllNumbered-Reordered r a)
AllNumbered-Reordered (swapped f g) (h, k, (l, m, a)) = (l, m, (h, k, a))
AllNumbered-Reordered (in_turn r q) a = AllNumbered-Reordered q (AllNumbered-Reordered r a)

pub insert_front :
    (f g : ℕ × List ℕ) (xs : List (ℕ × List ℕ))
    → leb f.0 g.0 ≡ true
    → insert_segment f (g ∷ xs) ≡ f ∷ g ∷ xs
unfolding insert_segment
insert_front f g xs h = rw h refl

insert_behind :
    (f g : ℕ × List ℕ) (xs : List (ℕ × List ℕ))
    → leb f.0 g.0 ≡ false
    → insert_segment f (g ∷ xs) ≡ g ∷ insert_segment f xs
unfolding insert_segment
insert_behind f g xs h = rw h refl

-- Two insertions in either order, in front of `xs`.
both_front :
    (f g : ℕ × List ℕ) (xs : List (ℕ × List ℕ))
    → f.0 ≢ g.0
    → insert_segment f xs ≡ f ∷ xs
    → insert_segment g xs ≡ g ∷ xs
    → insert_segment f (g ∷ xs) ≡ insert_segment g (f ∷ xs)
both_front f g xs other first second = elim (Bool-cases (leb f.0 g.0)) [
  | inl below ↦
      insert_front f g xs below
      ∙ sym (insert_behind g f xs (ground (arith, below, other)) ∙ ap (λ ys. f ∷ ys) second)
  | inr above ↦
      insert_behind f g xs above
      ∙ ap (λ ys. g ∷ ys) first
      ∙ sym (insert_front g f xs (ground (arith, above)))
]

insert_none : (f : ℕ × List ℕ) → insert_segment f [] ≡ f ∷ []
unfolding insert_segment
insert_none f = refl

insert-insert :
    (f g : ℕ × List ℕ) (xs : List (ℕ × List ℕ))
    → f.0 ≢ g.0
    → insert_segment f (insert_segment g xs) ≡ insert_segment g (insert_segment f xs)
insert-insert f g [] other =
    rw (insert_none f, insert_none g) (both_front f g [] other (insert_none f) (insert_none g))
insert-insert f g (t ∷ ts) other = elim (Bool-cases (leb f.0 t.0)) [
  | inl f_first ↦ elim (Bool-cases (leb g.0 t.0)) [
    | inl g_first ↦
        rw (insert_front g t ts g_first, insert_front f t ts f_first)
          (both_front f g (t ∷ ts) other (insert_front f t ts f_first)
            (insert_front g t ts g_first))
    | inr g_later ↦
        rw (insert_behind g t ts g_later, insert_front f t ts f_first)
          (insert_front f t (insert_segment g ts) f_first
            ∙ sym (
                insert_behind g f (t ∷ ts) (ground (arith, f_first, g_later))
                ∙ ap (λ ys. f ∷ ys) (insert_behind g t ts g_later)))
  ]
  | inr f_later ↦ elim (Bool-cases (leb g.0 t.0)) [
    | inl g_first ↦
        rw (insert_front g t ts g_first, insert_behind f t ts f_later)
          (insert_behind f g (t ∷ ts) (ground (arith, g_first, f_later))
            ∙ ap (λ ys. g ∷ ys) (insert_behind f t ts f_later)
            ∙ sym (insert_front g t (insert_segment f ts) g_first))
    | inr g_later ↦
        rw (insert_behind g t ts g_later, insert_behind f t ts f_later)
          (insert_behind f t (insert_segment g ts) f_later
            ∙ ap (λ ys. t ∷ ys) (insert-insert f g ts other)
            ∙ sym (insert_behind g t (insert_segment f ts) g_later))
  ]
]

pub sort-Reordered :
    {xs ys : List (ℕ × List ℕ)}
    → Reordered xs ys
    → Distinct xs
    → sort_segments xs ≡ sort_segments ys
unfolding sort_segments
sort-Reordered no_files d = refl
sort-Reordered (same_first f r) (h, d) = ap (insert_segment f) (sort-Reordered r d)
sort-Reordered (swapped {xs} f g) ((h, k), (l, d)) = insert-insert f g (sort_segments xs) h
sort-Reordered (in_turn r q) d = sort-Reordered r d ∙ sort-Reordered q (Distinct-Reordered r d)
