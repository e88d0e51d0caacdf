-- ===== src/Base/Result.antt =====
-- A call with a `GError**`: its value, or the code of the error that it sets. The message is display
-- text and is left out. `aborted` stands for a failed `g_assert` or a read through NULL.
use mathlib.Core.Bool.{Bool, true, false}
use mathlib.Core.Logic.{◌⊎◌, inl, inr}
use mathlib.Core.Option.{Option, none, some}
use mathlib.Core.Path.{◌≡◌, refl}
use native.Mathlib.Omega.{arith}

pub data IoError : Type 0 where
  invalid_argument not_supported invalid_data aborted : IoError

pub data Result {ℓ} (A : Type ℓ) : Type ℓ where
  ok : A → Result A
  err : IoError → Result A

infixl 5 ◌>>=◌ ◌>>◌
abbrev pub ◌>>=◌ {ℓ κ} : {T : Type ℓ} {U : Type κ} → Result T → (T → Result U) → Result U
ok value >>= rest = rest value
err code >>= rest = err code

abbrev pub ◌>>◌ {ℓ} : {U : Type ℓ} → Result (Unit {0}) → Result U → Result U
first >> rest = first >>= λ _. rest

-- Go on if the test passes, else set the error and return.
abbrev pub require : Bool → IoError → Result (Unit {0})
require true e = ok tt
require false e = err e

-- A pointer that the code takes to be set.
abbrev pub present {ℓ} : {A : Type ℓ} → Option A → IoError → Result A
present none e = err e
present (some a) e = ok a

pub present-eq-ok {ℓ} :
    {A : Type ℓ} (o : Option A) (e : IoError) {a : A} → present o e ≡ ok a → o ≡ some a
present-eq-ok none e h = absurd (ground arith)
present-eq-ok (some b) e h = ground arith

pub Result-cases {ℓ} :
    {A : Type ℓ} (r : Result A) → ((a : A) × (r ≡ ok a)) ⊎ ((e : IoError) × (r ≡ err e))
Result-cases (ok a) = inl (a, refl)
Result-cases (err e) = inr (e, refl)
