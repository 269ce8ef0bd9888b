-- ===== src/Prelude/Results.antt =====
-- Exceptions and undefined behaviour as values.
use mathlib.Core.Path.{◌≡◌}
use mathlib.Core.Option.{Option, none, some}

-- `std::runtime_error`, the exception of `at`, an access outside an array by `[]`, a loop that is
-- not done with its fuel, and `exit`.
pub data Error : Type 0 where
  runtime_error out_of_range undefined_access out_of_fuel exited : Error

module _ {ℓ} where
  -- The outcome of a call.
  pub data Result (A : Type ℓ) : Type ℓ where
    err : Error → Result A
    ok : A → Result A

  -- An array access that may fail.
  abbrev pub orelse : {A : Type ℓ} → Option A → Error → Result A
  orelse (some a) e = ok a
  orelse none e = err e

  -- A call that returns, with a property of what it returns.
  abbrev pub Returns {κ} : {A : Type ℓ} → Result A → (A → Type κ) → Type (ℓ ⊔ κ)
  Returns {A} call P = (value : A) × (call ≡ ok value) × P value

module _ {ℓ κ} {A : Type ℓ} {B : Type κ} where
  infixl 5 ◌>>=◌
  -- The rest of a body does not run after an exception.
  abbrev pub ◌>>=◌ : Result A → (A → Result B) → Result B
  err thrown >>= rest = err thrown
  ok value >>= rest = rest value
