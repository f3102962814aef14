-- ===== src/Common/Bits/Digits.antt =====
-- The binary digits of a conjunction and of an exclusive or, one at a time.
use Prim.Native.Nat.{
  ℕ, zero, suc, ◌+◌, ◌*◌, ◌/◌, ◌%◌, ◌≤◌, ◌<◌, min, differ, digits, bitwise, bit_and, bit_xor,
  bit_and-bitwise, bit_xor-bitwise,
}
use mathlib.Core.Path.{◌≡◌, refl, ap, ◌∙◌}
use native.Mathlib.Omega.{arith}

module _ (z : ℕ → ℕ) (f : ℕ → ℕ → ℕ) where
  -- The count of digits matters only as a bound.
  digits-enough : (n k a b : ℕ) → a ≤ n → a ≤ k → digits z f n a b ≡ digits z f k a b
  digits-enough (suc n) (suc k) (suc a) b h l =
      ap (λ x. x * 2 + f (suc a % 2) (b % 2))
        (digits-enough n k (suc a / 2) (b / 2) (omega arith) (omega arith))
  digits-enough (suc n) (suc k) zero b h l = refl
  digits-enough zero k (suc a) b h l = absurd (omega arith)
  digits-enough n zero (suc a) b h l = absurd (omega arith)
  digits-enough zero zero zero b h l = refl
  digits-enough zero (suc k) zero b h l = refl
  digits-enough (suc n) zero zero b h l = refl

  lowest :
      (a b : ℕ)
      → bitwise z f (suc a) b ≡ f (suc a % 2) (b % 2) + 2 * bitwise z f (suc a / 2) (b / 2)
  lowest a b =
      omega (arith, digits-enough a (suc a / 2) (suc a / 2) (b / 2) (omega arith) (omega arith))

differ-add : (x y : ℕ) → x < 2 → y < 2 → differ x y ≡ (x + y) % 2
differ-add zero y h l = omega arith
differ-add (suc zero) zero h l = refl
differ-add (suc zero) (suc zero) h l = refl
differ-add (suc zero) (suc (suc y)) h l = absurd (omega arith)
differ-add (suc (suc x)) y h l = absurd (omega arith)

and_lowest : (a b : ℕ) → bit_and a b ≡ min (a % 2) (b % 2) + 2 * bit_and (a / 2) (b / 2)
and_lowest zero b = simp bit_and-bitwise (omega arith)
and_lowest (suc a) b = simp bit_and-bitwise (lowest (λ _. 0) min a b)

xor_lowest : (a b : ℕ) → bit_xor a b ≡ (a % 2 + b % 2) % 2 + 2 * bit_xor (a / 2) (b / 2)
xor_lowest zero b = simp bit_xor-bitwise (omega arith)
xor_lowest (suc a) b = simp bit_xor-bitwise (
    omega (
      arith,
      lowest (λ x. x) differ a b,
      differ-add (suc a % 2) (b % 2) (omega arith) (omega arith),
    ))

-- Without the last `j` digits.
abbrev pub shifted : ℕ → ℕ → ℕ
shifted zero a = a
shifted (suc j) a = shifted j (a / 2)

shifted-bit_xor : (j a b : ℕ) → shifted j (bit_xor a b) ≡ bit_xor (shifted j a) (shifted j b)
shifted-bit_xor zero a b = refl
shifted-bit_xor (suc j) a b =
    let half : bit_xor a b / 2 ≡ bit_xor (a / 2) (b / 2) = omega (arith, xor_lowest a b) in
    ap (shifted j) half ∙ shifted-bit_xor j (a / 2) (b / 2)

-- A digit of an exclusive or is the last digit of the sum.
pub bit_xor-digit : (j a b : ℕ) → shifted j (bit_xor a b) % 2 ≡ (shifted j a + shifted j b) % 2
bit_xor-digit j a b = omega (arith, shifted-bit_xor j a b, xor_lowest (shifted j a) (shifted j b))

bit_and-zero_below : (n a : ℕ) → a ≤ n → bit_and a 0 ≡ 0
bit_and-zero_below zero a h = let e : a ≡ 0 = omega arith in rw e refl
bit_and-zero_below (suc n) a h =
    omega (arith, and_lowest a 0, bit_and-zero_below n (a / 2) (omega arith))

bit_and-one : (a : ℕ) → bit_and a 1 ≡ a % 2
bit_and-one a = omega (arith, and_lowest a 1, bit_and-zero_below (a / 2) (a / 2) (omega arith))

pub bit_and-sixteen : (a : ℕ) → bit_and a 16 ≡ shifted 4 a % 2 * 16
bit_and-sixteen a = omega (
  arith,
  and_lowest a 16,
  and_lowest (a / 2) 8,
  and_lowest (a / 2 / 2) 4,
  and_lowest (a / 2 / 2 / 2) 2,
  bit_and-one (a / 2 / 2 / 2 / 2),
)

pub bit_and-256 : (a : ℕ) → bit_and a 256 ≡ shifted 8 a % 2 * 256
bit_and-256 a = omega (
  arith,
  and_lowest a 256,
  and_lowest (a / 2) 128,
  and_lowest (a / 2 / 2) 64,
  and_lowest (a / 2 / 2 / 2) 32,
  bit_and-sixteen (a / 2 / 2 / 2 / 2),
)

bit_and-fifteen : (a : ℕ) → bit_and a 15 ≡ a % 16
bit_and-fifteen a = omega (
  arith,
  and_lowest a 15,
  and_lowest (a / 2) 7,
  and_lowest (a / 2 / 2) 3,
  bit_and-one (a / 2 / 2 / 2),
)

bit_and-255 : (a : ℕ) → bit_and a 0xFF ≡ a % 256
bit_and-255 a = omega (
  arith,
  and_lowest a 255,
  and_lowest (a / 2) 127,
  and_lowest (a / 2 / 2) 63,
  and_lowest (a / 2 / 2 / 2) 31,
  bit_and-fifteen (a / 2 / 2 / 2 / 2),
)

-- A mask of twelve ones.
pub bit_and-4095 : (a : ℕ) → bit_and a 0x0FFF ≡ a % 4096
bit_and-4095 a = omega (
  arith,
  and_lowest a 4095,
  and_lowest (a / 2) 2047,
  and_lowest (a / 2 / 2) 1023,
  and_lowest (a / 2 / 2 / 2) 511,
  bit_and-255 (a / 2 / 2 / 2 / 2),
)
