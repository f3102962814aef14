-- ===== src/Common/Tables.antt =====
-- Statements about every number below a bound, proved by computing both sides.
use Prim.Native.Nat.{ℕ, zero, suc, ◌<◌}
use mathlib.Core.Path.{◌≡◌, ap}
use mathlib.Core.List.{List, [], ◌∷◌}
use native.Mathlib.Omega.{arith}
use native.Mathlib.Decide.{ℕ_discrete}

module _ {ℓ} {A : Type ℓ} where
  -- `f (n - 1) ∷ … ∷ f 0 ∷ []`
  abbrev pub table : ℕ → (ℕ → A) → List A
  table zero f = []
  table (suc n) f = f n ∷ table n f

  head_or : A → List A → A
  head_or d [] = d
  head_or d (x ∷ xs) = x

  tail_of : List A → List A
  tail_of [] = []
  tail_of (x ∷ xs) = xs

  -- Two functions with one table agree at each number that the table holds.
  pub table_ext : (n : ℕ) (f g : ℕ → A) (x : ℕ) → table n f ≡ table n g → x < n → f x ≡ g x
  unfolding head_or tail_of
  table_ext zero f g x e h = absurd (omega arith)
  table_ext (suc n) f g x e h = elim (ℕ_discrete x n) [
    | yes p ↦ rw p (ap (head_or (f n)) e)
    | no p ↦ table_ext n f g x (ap tail_of e) (omega arith)
  ]
