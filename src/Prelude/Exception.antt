-- ===== src/Prelude/Exception.antt =====
-- C++ exceptions as values: a function that may throw returns a `Result`. A throw loses what the
-- function wrote to its local state, so the state stands inside the result.
use mathlib.Core.Path.{◌≡◌, refl, ap}
use mathlib.Core.Bool.{Bool, true, false}
use Prim.Native.String.{String}
use package.kura_metadata_store.Prelude.Status.{StatusCode}
use package.kura_metadata_store.Prelude.Int.{ℤ}

-- `store_error` is include/kura/metadata/core/store_error.hpp, `storage_error` is
-- include/kura/metadata/storage/storage_error.hpp.
-- `undefined_behaviour` stands for what C++ leaves undefined, such as reading an empty optional.
pub data Exception : Type 0 where
  invalid_argument overflow_error logic_error out_of_range : String → Exception
  store_error : StatusCode → String → ℤ → Exception
  storage_error : String → Exception
  undefined_behaviour : Exception

pub data Result {ℓ} (Value : Type ℓ) : Type ℓ where
  ok : Value → Result Value
  err : Exception → Result Value

-- `if (test) throw e;`
abbrev pub throw_if : Bool → Exception → Result (Unit {0})
throw_if true thrown = err thrown
throw_if false thrown = ok tt

-- One statement after another: a throw skips the rest.
infixl 5 ◌>>◌
infixl 5 ◌>>=◌
abbrev pub ◌>>=◌ {α β} :
    {First : Type α} {Then : Type β} → Result First → (First → Result Then) → Result Then
◌>>=◌ (err thrown) rest = err thrown
◌>>=◌ (ok value) rest = rest value

abbrev pub ◌>>◌ {β} : {Then : Type β} → Result (Unit {0}) → Result Then → Result Then
◌>>◌ statement rest = statement >>= (λ done. rest)

-- A statement and its continuation that end well: what the statement gave, and that the
-- continuation ends well from there.
pub >>=-eq-ok {α β} :
    {First : Type α} {Then : Type β}
    → (statement : Result First) (rest : First → Result Then) {last : Then}
    → (statement >>= rest) ≡ ok last
    → (given : First) × (statement ≡ ok given) × (rest given ≡ ok last)
>>=-eq-ok (err thrown) rest ends = cc
>>=-eq-ok (ok given) rest ends = (given, refl, ends)

-- A rule for a block that succeeds: what the first part ensures is handed to the rest.
abbrev pub Ensures {ℓ κ} : {A : Type ℓ} → (A → Type κ) → Result A → Type (ℓ ⊔ κ)
Ensures {A} P r = (a : A) → r ≡ ok a → P a

value_or {ℓ} : {A : Type ℓ} → A → Result A → A
value_or d (ok a) = a
value_or d (err x) = d

pub ok-injective {ℓ} : {A : Type ℓ} {a b : A} → ok a ≡ ok b → a ≡ b
unfolding value_or
ok-injective {a = a} e = ap (value_or a) e
