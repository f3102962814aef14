-- ===== src/Codegen/Alu.antt =====
-- The arithmetic of the processor's manual, to which the emitted code is compared.
pub mod Laws
pub mod Operands
use gbrc.Common.{
  ℕ, ◌+◌, ◌-◌, ◌%◌, ◌^◌, ◌<◌, ltb, leb, ◌==◌, bit_and, bit_or, bit_xor, Option, none, some, [],
}
use gbrc.Decoder.Types.{Instruction, InstructionType, InstructionType as T, Reg8}
use gbrc.Codegen.Ir.{Global, Value}
use gbrc.Codegen.Build.{Build}
use gbrc.Codegen.Machine.{Runtime, Machine, Datum, put, flag, exec}
use gbrc.Codegen.Arithmetic.{Bit8ArithmeticOp}

-- The code that is built in an empty block, run with an argument.
abbrev pub run :
    {W A : Type 0} → Runtime W → Option Datum → Build A → Machine W → Option (Machine W)
run runtime argument build m = elim (build []) [
  | none ↦ none
  | some (_, code) ↦ exec runtime argument [] m code
]

-- The globals hold numbers of their widths.
pub record IsMachine {W : Type 0} (m : Machine W) : Type 0 where
  pub a : m.a < 256
  pub b : m.b < 256
  pub c : m.c < 256
  pub d : m.d < 256
  pub e : m.e < 256
  pub h : m.h < 256
  pub l : m.l < 256
  pub zero_flag : m.zero_flag < 2
  pub sub_flag : m.sub_flag < 2
  pub half_flag : m.half_flag < 2
  pub carry_flag : m.carry_flag < 2
  pub sp : m.sp < 65536

-- The two-operand instructions on bytes, with the types of their three forms.
pub data AluOp : Type 0 where
  alu_add alu_adc alu_sub alu_sbc alu_cp alu_and alu_or alu_xor : AluOp

abbrev pub type_n : AluOp → InstructionType
type_n alu_add = T.add_n
type_n alu_adc = T.adc_n
type_n alu_sub = T.sub_n
type_n alu_sbc = T.sbc_n
type_n alu_cp = T.cp_n
type_n alu_and = T.and_n
type_n alu_or = T.or_n
type_n alu_xor = T.xor_n

abbrev pub type_r8 : AluOp → InstructionType
type_r8 alu_add = T.add_r8
type_r8 alu_adc = T.adc_r8
type_r8 alu_sub = T.sub_r8
type_r8 alu_sbc = T.sbc_r8
type_r8 alu_cp = T.cp_r8
type_r8 alu_and = T.and_r8
type_r8 alu_or = T.or_r8
type_r8 alu_xor = T.xor_r8

-- The new A, and the flags N, H and C.
pub record Effect : Type 0 where
  pub a : ℕ
  pub value : ℕ
  pub n : ℕ
  pub h : ℕ
  pub c : ℕ

abbrev plus : (a x carry : ℕ) → Effect
plus a x carry = record {
  a = (a + x + carry) % 256;
  value = (a + x + carry) % 256;
  n = 0;
  h = flag (leb 16 (a % 16 + x % 16 + carry));
  c = flag (leb 256 (a + x + carry));
}

abbrev minus : (a x borrow : ℕ) → Effect
minus a x borrow = record {
  a = (a + (512 - x - borrow)) % 256;
  value = (a + (512 - x - borrow)) % 256;
  n = 1;
  h = flag (ltb (a % 16) (x % 16 + borrow));
  c = flag (ltb a (x + borrow));
}

abbrev logic : (value half : ℕ) → Effect
logic value half = record { a = value; value = value; n = 0; h = half; c = 0 }

-- A comparison is a subtraction that leaves A.
abbrev pub effect : AluOp → (a x carry : ℕ) → Effect
effect alu_add a x carry = plus a x 0
effect alu_adc a x carry = plus a x carry
effect alu_sub a x carry = minus a x 0
effect alu_sbc a x carry = minus a x carry
effect alu_cp a x carry = record (minus a x 0) { a = a }
effect alu_and a x carry = logic (bit_and a x) 1
effect alu_or a x carry = logic (bit_or a x) 0
effect alu_xor a x carry = logic (bit_xor a x) 0

abbrev pub tick : {W : Type 0} → ℕ → Machine W → Machine W
tick n m = record m { cycles = (m.cycles + n) % 2 ^ 32 }

-- The machine after an operation with the operand `x`, which took the instruction's cycles.
abbrev pub after_alu : {W : Type 0} → AluOp → Instruction → ℕ → Machine W → Machine W
after_alu op instr x m =
    let f = effect op m.a x m.carry_flag in
    tick instr.base_m_cycles (record m {
      a = f.a;
      zero_flag = flag (f.value == 0);
      sub_flag = f.n;
      half_flag = f.h;
      carry_flag = f.c;
    })

-- The registers of bytes.
pub data ByteRegister : Type 0 where
  in_a in_b in_c in_d in_e in_h in_l : ByteRegister

abbrev pub reg8_of : ByteRegister → Reg8
reg8_of in_a = Reg8.reg8_a
reg8_of in_b = Reg8.reg8_b
reg8_of in_c = Reg8.reg8_c
reg8_of in_d = Reg8.reg8_d
reg8_of in_e = Reg8.reg8_e
reg8_of in_h = Reg8.reg8_h
reg8_of in_l = Reg8.reg8_l

abbrev pub byte_in : {W : Type 0} → ByteRegister → Machine W → ℕ
byte_in in_a m = m.a
byte_in in_b m = m.b
byte_in in_c m = m.c
byte_in in_d m = m.d
byte_in in_e m = m.e
byte_in in_h m = m.h
byte_in in_l m = m.l
