-- ===== src/Storage/Names.antt =====
-- File names of src/durable_storage.cpp: `decimal_name` and `parse_decimal_name`. A name is the list
-- of its characters' codes.
use kura_metadata_store.Prelude.{
  ℕ, zero, suc, ◌+◌, ◌-◌, ◌*◌, ◌/◌, ◌%◌, ◌^◌, ◌<◌, ◌≡◌, refl, sym, ap, ◌∙◌, Bool, true, ◌||◌, ◌&&◌,
  not, Option, none, some, List, [], ◌∷◌, ◌++◌, ltb, ◌==◌, if◌then◌else◌, length, length-append,
  take, drop, u64_max, arith, subst,
}
use native.Mathlib.Nat.{pow-suc}
use mathlib.Core.List.{append_assoc, append-nil}
use kura_metadata_store.Bytes.Prefix.{starts_with}
use kura_metadata_store.Storage.Fields.{take-append, drop-append}

-- `std::setw(width)` with fill '0': the last `width` digits, which are all for a number below
-- 10 ^ width.
unfoldable pub decimal_digits : ℕ → ℕ → List ℕ
decimal_digits zero value = []
decimal_digits (suc width) value = decimal_digits width (value / 10) ++ (48 + value % 10) ∷ []

unfoldable pub decimal_name : List ℕ → ℕ → List ℕ → List ℕ
decimal_name before value after = before ++ (decimal_digits 20 value ++ after)

-- `name.ends_with(suffix)`.
unfoldable pub ends_with : List ℕ → List ℕ → Bool
ends_with suffix name =
    not (ltb (length name) (length suffix))
    && starts_with suffix (drop (length name - length suffix) name)

-- The loop over the digits.
unfoldable pub parse_digits : ℕ → List ℕ → Option ℕ
parse_digits value [] = some value
parse_digits value (c ∷ cs) =
    let rest = parse_digits (value * 10 + (c - 48)) cs in
    if ltb c 48 || ltb 57 c
    then none
    else if ltb ((u64_max - (c - 48)) / 10) value
    then none
    else rest

unfoldable pub parse_decimal_name : List ℕ → List ℕ → List ℕ → Option ℕ
parse_decimal_name name before after =
    if not (length name == length before + 20 + length after)
      || (not (starts_with before name) || not (ends_with after name))
    then none
    else parse_digits 0 (take 20 (drop (length before) name))

starts_with-append : (xs ys : List ℕ) → starts_with xs (xs ++ ys) ≡ true
unfolding starts_with
starts_with-append [] ys = refl
starts_with-append (x ∷ xs) ys = ground (arith, starts_with-append xs ys)

length-decimal_digits : (width value : ℕ) → length (decimal_digits width value) ≡ width
unfolding decimal_digits
length-decimal_digits zero value = refl
length-decimal_digits (suc width) value =
    length-append (decimal_digits width (value / 10)) _
    ∙ omega (arith, length-decimal_digits width (value / 10))

one_digit :
    (value digit : ℕ) (more : List ℕ)
    → digit < 10
    → value * 10 + digit < 2 ^ 64
    → parse_digits value ((48 + digit) ∷ more) ≡ parse_digits (value * 10 + digit) more
unfolding parse_digits
one_digit value digit more small fits = ground arith

-- Reading the digits of `value` after `start`, then `more`.
parse_digits-decimal_digits :
    (width value start : ℕ) (more : List ℕ)
    → value < 10 ^ width
    → start * 10 ^ width + value < 2 ^ 64
    → parse_digits start (decimal_digits width value ++ more)
      ≡ parse_digits (start * 10 ^ width + value) more
unfolding decimal_digits
parse_digits-decimal_digits zero value start more small fits =
    ap (λ (v : ℕ). parse_digits v more) (omega arith)
parse_digits-decimal_digits (suc width) value start more small fits =
    let power : start * 10 ^ suc width ≡ 10 * (start * 10 ^ width) =
      omega (arith, ap (λ (t : ℕ). start * t) (pow-suc 10 width)) in
    rw append_assoc (
      parse_digits-decimal_digits width (value / 10) start ((48 + value % 10) ∷ more)
        (omega (arith, pow-suc 10 width)) (omega (arith, power))
      ∙ (one_digit (start * 10 ^ width + value / 10) (value % 10) more (omega arith)
            (omega (arith, power))
          ∙ ap (λ (v : ℕ). parse_digits v more) (omega (arith, power))))

whole_self : (xs : List ℕ) → starts_with xs xs ≡ true
unfolding starts_with
whole_self [] = refl
whole_self (x ∷ xs) = ground (arith, whole_self xs)

length-name :
    (before digits after : List ℕ)
    → length digits ≡ 20
    → length (before ++ (digits ++ after)) ≡ length before + 20 + length after
length-name before digits after d =
    omega (arith, length-append before (digits ++ after), length-append digits after)

ends_with-append : (front after : List ℕ) → ends_with after (front ++ after) ≡ true
unfolding ends_with
ends_with-append front after =
    let size : length (front ++ after) ≡ length front + length after = length-append front after in
    let at_front : length (front ++ after) - length after ≡ length front = omega (arith, size) in
    rw (at_front, drop-append front after) (ground (arith, whole_self after))

name_digits :
    (before digits after : List ℕ)
    → length digits ≡ 20
    → take 20 (drop (length before) (before ++ (digits ++ after))) ≡ digits
name_digits before digits after d =
    rw drop-append (subst (λ n. take n (digits ++ after) ≡ digits) d (take-append digits after))

digits_end : (value : ℕ) → parse_digits (0 * 10 ^ 20 + value) [] ≡ some value
unfolding parse_digits
digits_end value = ap some (omega arith)

-- A file name that `decimal_name` makes is parsed back to its number.
pub parse_decimal_name-decimal_name :
    (before after : List ℕ) (value : ℕ)
    → value < 2 ^ 64
    → parse_decimal_name (decimal_name before value after) before after ≡ some value
unfolding parse_decimal_name decimal_name
parse_decimal_name-decimal_name before after value h =
    let digits : List ℕ = decimal_digits 20 value in
    let size : length digits ≡ 20 = length-decimal_digits 20 value in
    let ends : ends_with after (before ++ (digits ++ after)) ≡ true =
      rw (sym (append_assoc before digits after)) (ends_with-append (before ++ digits) after) in
    let parsed : parse_digits 0 digits ≡ some value =
      rw (append-nil digits) at
        (parse_digits-decimal_digits 20 value 0 [] (omega arith) (omega arith))
      ∙ digits_end value in
    rw
      (
        length-name before digits after size,
        starts_with-append before (digits ++ after),
        ends,
        name_digits before digits after size,
        parsed,
      )
      (ground arith)
