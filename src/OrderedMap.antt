-- ===== src/OrderedMap.antt =====
-- `std::map` and `std::set`: associations in the order of their keys, as an iteration shows them.
-- The balanced tree below them is the C++ library's; what the code relies on is the order of the
-- iteration, one entry for each key, and the laws of `find` that are proved here.
use Prim.Native.Nat.{compare, Ordering}
use kura_metadata_store.Prelude.{
  ℕ, ◌≡◌, refl, ◌↔◌, ◌⊎◌, Bool, true, false, ◌||◌, Option, none, some, List, [], ◌∷◌, arith,
  if◌then◌else◌,
}

pub record Ord {κ} (Key : Type κ) : Type κ where
  pub cmp : Key → Key → Ordering
  pub cmp_eq : (a b : Key) → (cmp a b ≡ Ordering.eq) ↔ (a ≡ b)

pub compare_eq : (a b : ℕ) → (compare a b ≡ Ordering.eq) ↔ (a ≡ b)
compare_eq a b = ground arith

instance abbrev pub nat_ord : Ord ℕ
nat_ord = record { cmp = compare; cmp_eq = compare_eq }

abbrev is_eq : Ordering → Bool
is_eq Ordering.eq = true
is_eq _ = false

abbrev pub Map {ℓ κ} : Type ℓ → Type κ → Type (ℓ ⊔ κ)
Map K V = List (K × V)

abbrev pub Set {ℓ} : Type ℓ → Type ℓ
Set K = List K

module _ {ℓ} {K : Type ℓ} ⦃o : Ord K⦄ where
  -- `a == b` of a type whose `<=>` is defaulted.
  abbrev pub key_eq : K → K → Bool
  key_eq a b = is_eq (o.cmp a b)

  -- `std::set::insert`.
  unfoldable pub insert : K → Set K → Set K
  insert a [] = a ∷ []
  insert a (x ∷ xs) = elim (o.cmp a x) [
    | Ordering.lt ↦ a ∷ x ∷ xs
    | Ordering.eq ↦ x ∷ xs
    | Ordering.gt ↦ x ∷ insert a xs
  ]

  unfoldable pub member : K → Set K → Bool
  member a [] = false
  member a (x ∷ xs) = key_eq x a || member a xs

  -- `std::set::erase` of a key.
  unfoldable pub remove : K → Set K → Set K
  remove a [] = []
  remove a (x ∷ xs) = let rest = remove a xs in if key_eq x a then rest else x ∷ rest

module _ {ℓ κ} {K : Type ℓ} {V : Type κ} ⦃o : Ord K⦄ where
  unfoldable pub find : K → Map K V → Option V
  find k [] = none
  find k ((j, v) ∷ m) = if key_eq j k then some v else find k m

  -- `std::map::insert_or_assign`.
  unfoldable pub assign : K → V → Map K V → Map K V
  assign k v [] = (k, v) ∷ []
  assign k v ((j, w) ∷ m) = elim (o.cmp k j) [
    | Ordering.lt ↦ (k, v) ∷ (j, w) ∷ m
    | Ordering.eq ↦ (k, v) ∷ m
    | Ordering.gt ↦ (j, w) ∷ assign k v m
  ]

  -- `std::map::emplace`: an entry that is there stays.
  unfoldable pub emplace : K → V → Map K V → Map K V
  emplace k v [] = (k, v) ∷ []
  emplace k v ((j, w) ∷ m) = elim (o.cmp k j) [
    | Ordering.lt ↦ (k, v) ∷ (j, w) ∷ m
    | Ordering.eq ↦ (j, w) ∷ m
    | Ordering.gt ↦ (j, w) ∷ emplace k v m
  ]

  -- `std::map::erase` of a key.
  unfoldable pub erase : K → Map K V → Map K V
  erase k [] = []
  erase k ((j, v) ∷ m) = let rest = erase k m in if key_eq j k then rest else (j, v) ∷ rest

  pub find-assign :
      (k j : K) (v : V) (m : Map K V)
      → find j (assign k v m) ≡ (if key_eq k j then some v else find j m)
  unfolding find assign
  find-assign k j v [] = refl
  find-assign k j v ((i, w) ∷ m) =
      ground (arith, find-assign k j v m, o.cmp_eq k i, o.cmp_eq i j, o.cmp_eq k j)

  pub find-erase :
      (k j : K) (m : Map K V) → find j (erase k m) ≡ (if key_eq k j then none else find j m)
  unfolding find erase
  find-erase k j [] = ground arith
  find-erase k j ((i, w) ∷ m) =
      ground (arith, find-erase k j m, o.cmp_eq i k, o.cmp_eq i j, o.cmp_eq k j)

  -- What an entry of a map is after an `emplace`: the new one, or one that was there.
  pub find-emplace :
      (k j : K) (v x : V) (m : Map K V)
      → find j (emplace k v m) ≡ some x
      → (x ≡ v) ⊎ (find j m ≡ some x)
  unfolding find emplace
  find-emplace k j v x [] h = ground arith
  find-emplace k j v x ((i, w) ∷ m) h = ground (arith, find-emplace k j v x m)
