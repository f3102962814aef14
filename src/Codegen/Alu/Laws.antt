-- ===== src/Codegen/Alu/Laws.antt =====
-- The emitted arithmetic is that of the manual.
use gbrc.Common.{
  ℕ, ◌+◌, ◌-◌, ◌%◌, ◌^◌, ◌<◌, ◌≡◌, refl, bit_and, none, some, table, table_ext, arith, ◌∙◌,
}
use gbrc.Decoder.Types.{Instruction}
use gbrc.Codegen.Ir.{i8}
use gbrc.Codegen.Machine.{Runtime, Machine, word}
use gbrc.Codegen.Opcodes.{emit_opcode}
use gbrc.Codegen.Alu.{
  run, IsMachine, AluOp, alu_add, alu_adc, alu_sub, alu_sbc, alu_cp, alu_and, alu_or, alu_xor,
  type_n, type_r8, after_alu, ByteRegister, reg8_of, byte_in, in_a, in_b, in_c, in_d, in_e, in_h,
  in_l,
}

low_table : table 256 (λ n. bit_and n 15) ≡ table 256 (λ n. n % 16)
low_table = refl

pub low_nibble : (n : ℕ) → n < 256 → bit_and n 15 ≡ n % 16
low_nibble n h = table_ext 256 (λ n. bit_and n 15) (λ n. n % 16) n low_table h

wide_add : (a x c : ℕ) → a < 256 → x < 256 → c < 2 → ((a + x) % 2 ^ 16 + c) % 2 ^ 16 ≡ a + x + c
wide_add a x c h k l = omega arith

wide_low : (a x c : ℕ) → c < 2 → ((a % 16 + x % 16) % 2 ^ 16 + c) % 2 ^ 16 ≡ a % 16 + x % 16 + c
wide_low a x c l = omega arith

small_add : (x c : ℕ) → x < 256 → c < 2 → (x + c) % 2 ^ 16 ≡ x + c
small_add x c k l = omega arith

wide_sub :
    (a x c : ℕ)
    → a < 256
    → x < 256
    → c < 2
    → ((a + (2 ^ 16 - x)) % 2 ^ 16 + (2 ^ 16 - c)) % 2 ^ 16 % 2 ^ 8 ≡ (a + (512 - x - c)) % 256
wide_sub a x c h k l = omega arith

module _ {W : Type 0} (runtime : Runtime W) where
  -- For each of ADD, ADC, SUB, SBC, CP, AND, OR and XOR with a byte as the argument, on a machine
  -- whose globals fit their widths, the emitted code runs without getting stuck and gives the
  -- machine of the manual: A (unless it compares), the four flags, and the cycles, and nothing
  -- else changed.
  pub arithmetic_n-eq :
      (op : AluOp) (instr : Instruction) (x : ℕ) (m : Machine W)
      → IsMachine m
      → x < 256
      → run runtime
          (some (word i8 x))
          (emit_opcode (type_n op) (record instr { instruction_type = type_n op }))
          m
        ≡ some (after_alu op instr x m)
  arithmetic_n-eq alu_add instr x m h k =
      rw
        (
          low_nibble m.a h.a,
          low_nibble x k,
          wide_add m.a x 0 h.a k (omega arith),
          wide_low m.a x 0 (omega arith),
        )
        refl
  arithmetic_n-eq alu_adc instr x m h k =
      rw
        (
          low_nibble m.a h.a,
          low_nibble x k,
          wide_add m.a x m.carry_flag h.a k h.carry_flag,
          wide_low m.a x m.carry_flag h.carry_flag,
        )
        refl
  arithmetic_n-eq alu_sub instr x m h k =
      rw
        (
          low_nibble m.a h.a,
          low_nibble x k,
          wide_sub m.a x 0 h.a k (omega arith),
          small_add x 0 k (omega arith),
          small_add (x % 16) 0 (omega arith) (omega arith),
        )
        refl
  arithmetic_n-eq alu_sbc instr x m h k =
      rw
        (
          low_nibble m.a h.a,
          low_nibble x k,
          wide_sub m.a x m.carry_flag h.a k h.carry_flag,
          small_add x m.carry_flag k h.carry_flag,
          small_add (x % 16) m.carry_flag (omega arith) h.carry_flag,
        )
        refl
  arithmetic_n-eq alu_cp instr x m h k =
      rw
        (
          low_nibble m.a h.a,
          low_nibble x k,
          wide_sub m.a x 0 h.a k (omega arith),
          small_add x 0 k (omega arith),
          small_add (x % 16) 0 (omega arith) (omega arith),
        )
        refl
  arithmetic_n-eq alu_and instr x m h k = refl
  arithmetic_n-eq alu_or instr x m h k = refl
  arithmetic_n-eq alu_xor instr x m h k = refl

module _ {W : Type 0} (runtime : Runtime W) where
  pub byte_in-lt : (r : ByteRegister) (m : Machine W) → IsMachine m → byte_in r m < 256
  byte_in-lt in_a m h = h.a
  byte_in-lt in_b m h = h.b
  byte_in-lt in_c m h = h.c
  byte_in-lt in_d m h = h.d
  byte_in-lt in_e m h = h.e
  byte_in-lt in_h m h = h.h
  byte_in-lt in_l m h = h.l

  -- The code for a register differs in where the operand comes from.
  as_immediate :
      (r : ByteRegister) (op : AluOp) (instr : Instruction) (m : Machine W)
      → run runtime none
          (emit_opcode
            (type_r8 op)
            (record instr { instruction_type = type_r8 op; reg8_src = reg8_of r }))
          m
        ≡ run runtime
            (some (word i8 (byte_in r m)))
            (emit_opcode (type_n op) (record instr { instruction_type = type_n op }))
            m
  as_immediate in_a alu_add instr m = refl
  as_immediate in_b alu_add instr m = refl
  as_immediate in_c alu_add instr m = refl
  as_immediate in_d alu_add instr m = refl
  as_immediate in_e alu_add instr m = refl
  as_immediate in_h alu_add instr m = refl
  as_immediate in_l alu_add instr m = refl
  as_immediate _ _ instr m = refl

  -- For each of ADD, ADC, SUB, SBC, CP, AND, OR and XOR and each of the registers A, B, C, D, E, H
  -- and L, on a machine whose globals fit their widths, the emitted code runs without getting
  -- stuck and gives the machine of the manual: A (unless it compares), the four flags, and the
  -- cycles, and nothing else changed.
  pub arithmetic_r8-eq :
      (op : AluOp) (r : ByteRegister) (instr : Instruction) (m : Machine W)
      → IsMachine m
      → run runtime none
          (emit_opcode
            (type_r8 op)
            (record instr { instruction_type = type_r8 op; reg8_src = reg8_of r }))
          m
        ≡ some (after_alu op instr (byte_in r m) m)
  arithmetic_r8-eq op r instr m h =
      as_immediate r op instr m
      ∙ arithmetic_n-eq runtime op instr (byte_in r m) m h (byte_in-lt r m h)
