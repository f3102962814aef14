-- ===== src/Common/Faults.antt =====
-- The result of code that may panic or, in the model, run out of fuel.
use mathlib.Core.Option.{Option, none, some}

pub data Run {ℓ} (A : Type ℓ) : Type ℓ where
  done : A → Run A
  panic out_of_fuel : Run A

infixl 5 ◌>>=◌
abbrev pub ◌>>=◌ {ℓ κ} : {A : Type ℓ} {B : Type κ} → Run A → (A → Run B) → Run B
done a >>= f = f a
panic >>= f = panic
out_of_fuel >>= f = out_of_fuel

-- A value that must be there: its absence is a panic.
abbrev pub of_option {ℓ} : {A : Type ℓ} → Option A → Run A
of_option none = panic
of_option (some a) = done a
