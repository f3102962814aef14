-- ===== src/Common/Bits.antt =====
-- Bounds of the operations on binary digits, for any number of digits.
mod Digits
pub use Digits.*
use Prim.Native.Nat.{
  ℕ, zero, suc, ◌*◌, ◌/◌, ◌%◌, ◌^◌, ◌≤◌, ◌<◌, min, max, differ, digits, bit_and, bit_or, bit_xor,
  bit_and-bitwise, bit_or-bitwise, bit_xor-bitwise,
}
use mathlib.Core.Path.{◌≡◌, refl}
use native.Mathlib.Numerals.{unary_clauses}
use native.Mathlib.Omega.{arith}

module _ (z : ℕ → ℕ) (f : ℕ → ℕ → ℕ) (rest : (b : ℕ) → z b ≤ b)
    (digit : (x y : ℕ) → x < 2 → y < 2 → f x y < 2) where
  digits-lt : (k n a b : ℕ) → a < 2 ^ k → b < 2 ^ k → digits z f n a b < 2 ^ k
  digits-lt k zero a b h l = omega (arith, rest b)
  digits-lt k (suc n) zero b h l = omega (arith, rest b)
  digits-lt zero (suc n) (suc a) b h l = absurd (omega arith)
  digits-lt (suc k) (suc n) (suc a) b h l =
      let double : 2 ^ suc k ≡ 2 ^ k * 2 = simp unary_clauses refl in
      let high =
        digits-lt k n (suc a / 2) (b / 2) (omega (arith, double)) (omega (arith, double)) in
      let low = digit (suc a % 2) (b % 2) (omega arith) (omega arith) in omega (arith, double)

min-digit : (x y : ℕ) → x < 2 → y < 2 → min x y < 2
min-digit x y h l = omega arith

max-digit : (x y : ℕ) → x < 2 → y < 2 → max x y < 2
max-digit x y h l = omega arith

differ-digit : (x y : ℕ) → x < 2 → y < 2 → differ x y < 2
differ-digit zero y h l = l
differ-digit (suc x) zero h l = h
differ-digit (suc zero) (suc y) h l = omega arith
differ-digit (suc (suc x)) (suc y) h l = absurd (omega arith)

pub bit_and-lt : (k a b : ℕ) → a < 2 ^ k → b < 2 ^ k → bit_and a b < 2 ^ k
bit_and-lt k a b h l =
    simp bit_and-bitwise (digits-lt (λ _. 0) min (λ _. omega arith) min-digit k a a b h l)

pub bit_or-lt : (k a b : ℕ) → a < 2 ^ k → b < 2 ^ k → bit_or a b < 2 ^ k
bit_or-lt k a b h l =
    simp bit_or-bitwise (digits-lt (λ b. b) max (λ _. omega arith) max-digit k a a b h l)

pub bit_xor-lt : (k a b : ℕ) → a < 2 ^ k → b < 2 ^ k → bit_xor a b < 2 ^ k
bit_xor-lt k a b h l =
    simp bit_xor-bitwise (digits-lt (λ b. b) differ (λ _. omega arith) differ-digit k a a b h l)
