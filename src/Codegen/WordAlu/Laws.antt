-- ===== src/Codegen/WordAlu/Laws.antt =====
-- The emitted arithmetic on 16 bits against that of the manual.
use gbrc.Common.{
  ap, true, false, Bool-cases, inl, inr, ℕ, ◌+◌, ◌*◌, ◌/◌, ◌%◌, ◌^◌, ◌<◌, ◌≡◌, refl, ◌∙◌, ltb, leb,
  ◌==◌, not, bit_and, bit_xor, some, arith, bit_and-sixteen, bit_and-256, bit_xor-digit, shifted,
}
use gbrc.Decoder.Types.{Instruction}
use gbrc.Codegen.Ir.{i8}
use gbrc.Codegen.Machine.{Runtime, Machine, word, flag}
use gbrc.Codegen.Opcodes.{emit_opcode}
use gbrc.Codegen.Alu.{run}
use gbrc.Codegen.WordAlu.{
  OffsetOp, to_sp, to_hl, offset_type, offset_register, signed, after_offset,
}

high_half : (n : ℕ) → n < 2 ^ 16 → n / 2 ^ 8 % 2 ^ 8 ≡ n / 256
high_half n h = omega arith

signed-lt : (x : ℕ) → x < 256 → (signed x < 65536) × (signed x % 256 ≡ x)
signed-lt x h = elim (Bool-cases (ltb x 128)) [
  | inl low ↦ rw low (omega (arith, h), omega (arith, h))
  | inr high ↦ rw high (omega (arith, h), omega (arith, h))
]

shifted-four : (a : ℕ) → shifted 4 a ≡ a / 16
shifted-four a = omega arith

shifted-eight : (a : ℕ) → shifted 8 a ≡ a / 256
shifted-eight a = omega arith

carry_four : (a b : ℕ) → ((a / 16 + b / 16) % 2 + (a + b) % 65536 / 16) % 2 ≡ (a % 16 + b % 16) / 16
carry_four a b = omega arith

mask_four :
    (a b : ℕ) → bit_and (bit_xor (bit_xor a b) ((a + b) % 65536)) 16 ≡ (a % 16 + b % 16) / 16 * 16
mask_four a b =
    let r = (a + b) % 65536 in
    omega (
      arith,
      bit_and-sixteen (bit_xor (bit_xor a b) r),
      bit_xor-digit 4 (bit_xor a b) r,
      bit_xor-digit 4 a b,
      shifted-four (bit_xor a b),
      shifted-four r,
      shifted-four a,
      shifted-four b,
      carry_four a b,
    )

flag_four :
    (a b : ℕ)
    → flag (not (bit_and (bit_xor (bit_xor a b) ((a + b) % 65536)) 16 == 0))
      ≡ flag (leb 16 (a % 16 + b % 16))
flag_four a b = elim (Bool-cases (leb 16 (a % 16 + b % 16))) [
  | inl over ↦
      let set : ((a % 16 + b % 16) / 16 * 16 == 0) ≡ false = ground arith in
      rw (mask_four a b, over, set) refl
  | inr under ↦
      let clear : ((a % 16 + b % 16) / 16 * 16 == 0) ≡ true = ground arith in
      rw (mask_four a b, under, clear) refl
]

carry_eight :
    (a b : ℕ) → ((a / 256 + b / 256) % 2 + (a + b) % 65536 / 256) % 2 ≡ (a % 256 + b % 256) / 256
carry_eight a b = omega arith

mask_eight :
    (a b : ℕ)
    → bit_and (bit_xor (bit_xor a b) ((a + b) % 65536)) 256 ≡ (a % 256 + b % 256) / 256 * 256
mask_eight a b =
    let r = (a + b) % 65536 in
    omega (
      arith,
      bit_and-256 (bit_xor (bit_xor a b) r),
      bit_xor-digit 8 (bit_xor a b) r,
      bit_xor-digit 8 a b,
      shifted-eight (bit_xor a b),
      shifted-eight r,
      shifted-eight a,
      shifted-eight b,
      carry_eight a b,
    )

flag_eight :
    (a b : ℕ)
    → flag (not (bit_and (bit_xor (bit_xor a b) ((a + b) % 65536)) 256 == 0))
      ≡ flag (leb 256 (a % 256 + b % 256))
flag_eight a b = elim (Bool-cases (leb 256 (a % 256 + b % 256))) [
  | inl over ↦
      let set : ((a % 256 + b % 256) / 256 * 256 == 0) ≡ false = ground arith in
      rw (mask_eight a b, over, set) refl
  | inr under ↦
      let clear : ((a % 256 + b % 256) / 256 * 256 == 0) ≡ true = ground arith in
      rw (mask_eight a b, under, clear) refl
]

flag_eight_byte :
    (sp x : ℕ)
    → x < 256
    → flag (not (bit_and (bit_xor (bit_xor sp (signed x)) ((sp + signed x) % 65536)) 256 == 0))
      ≡ flag (leb 256 (sp % 256 + x))
flag_eight_byte sp x h =
    flag_eight sp (signed x) ∙ ap (λ n. flag (leb 256 (sp % 256 + n))) (signed-lt x h).1

flag_four_byte :
    (sp x : ℕ)
    → x < 256
    → flag (not (bit_and (bit_xor (bit_xor sp (signed x)) ((sp + signed x) % 65536)) 16 == 0))
      ≡ flag (leb 16 (sp % 16 + x % 16))
flag_four_byte sp x h =
    let low : signed x % 16 ≡ x % 16 = omega (arith, (signed-lt x h).1) in
    flag_four sp (signed x) ∙ ap (λ n. flag (leb 16 (sp % 16 + n))) low

module _ {W : Type 0} (runtime : Runtime W) where
  -- For ADD SP,e and LD HL,SP+e with any byte as the argument and on any machine, the emitted code
  -- runs without getting stuck and gives the machine of the manual: the sum of the stack pointer and
  -- the signed byte, modulo 2 ^ 16, in SP or HL, the flags Z and N cleared, H and C the carries from
  -- bits 3 and 7 of the unsigned sum, also for a negative offset, and the cycles, and nothing else
  -- changed.
  pub offset-eq :
      (op : OffsetOp) (i : Instruction) (x : ℕ) (m : Machine W)
      → x < 256
      → run runtime (some (word i8 x)) (emit_opcode (offset_type op) i) m
        ≡ some (after_offset (offset_register op) i x m)
  offset-eq to_sp i x m h = rw (flag_four_byte m.sp x h, flag_eight_byte m.sp x h) refl
  offset-eq to_hl i x m h =
      rw
        (
          flag_four_byte m.sp x h,
          flag_eight_byte m.sp x h,
          high_half ((m.sp + signed x) % 65536) (omega arith),
        )
        refl
