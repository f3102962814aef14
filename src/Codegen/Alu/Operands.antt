-- ===== src/Codegen/Alu/Operands.antt =====
-- The emitted arithmetic on every operand, and INC and DEC of bytes.
use gbrc.Common.{
  ℕ, ◌+◌, ◌*◌, ◌%◌, ◌^◌, ◌<◌, ◌≡◌, refl, ◌∙◌, ap, ltb, leb, ◌==◌, bit_and, bit_or, Option, none,
  some, table, table_ext,
}
use gbrc.Decoder.Types.{Instruction, InstructionType, InstructionType as T}
use gbrc.Codegen.Ir.{i8}
use gbrc.Codegen.Machine.{Runtime, Machine, Datum, word, flag}
use gbrc.Codegen.Opcodes.{emit_opcode}
use gbrc.Codegen.Alu.{
  run, IsMachine, tick, AluOp, alu_add, alu_adc, alu_sub, alu_sbc, alu_cp, alu_and, alu_or, alu_xor,
  type_n, type_r8, after_alu, ByteRegister, in_a, reg8_of, byte_in,
}
use gbrc.Codegen.Stack.Laws.{or_add}
use gbrc.Codegen.Typing.Steps.{GivesBytes}
use gbrc.Codegen.BitOps.{
  Place, in_register, in_memory, reg8_at, fetch_byte, deliver_byte, fetch_byte-lt,
}

pub data Source : Type 0 where
  of_register : ByteRegister → Source
  of_immediate of_memory : Source

abbrev type_hl : AluOp → InstructionType
type_hl alu_add = T.add_hl
type_hl alu_adc = T.adc_hl
type_hl alu_sub = T.sub_hl
type_hl alu_sbc = T.sbc_hl
type_hl alu_cp = T.cp_hl
type_hl alu_and = T.and_hl
type_hl alu_or = T.or_hl
type_hl alu_xor = T.xor_hl

abbrev pub alu_type : AluOp → Source → InstructionType
alu_type op (of_register r) = type_r8 op
alu_type op of_immediate = type_n op
alu_type op of_memory = type_hl op

abbrev pub of_alu : AluOp → Source → Instruction → Instruction
of_alu op (of_register r) i = record i { instruction_type = type_r8 op; reg8_src = reg8_of r }
of_alu op src i = record i { instruction_type = alu_type op src }

abbrev pub alu_argument : Source → (x : ℕ) → Option Datum
alu_argument of_immediate x = some (word i8 x)
alu_argument _ x = none

module _ {W : Type 0} (runtime : Runtime W) where
  -- The operand, with the machine that reading it leaves.
  abbrev alu_operand : Source → (x : ℕ) → Machine W → ℕ × Machine W
  alu_operand (of_register r) x m = (byte_in r m, m)
  alu_operand of_immediate x m = (x, m)
  alu_operand of_memory x m = fetch_byte runtime (m.h * 256 + m.l) in_memory m

  abbrev pub after_arithmetic : AluOp → Source → Instruction → (x : ℕ) → Machine W → Machine W
  after_arithmetic op src i x m = let (y, m') = alu_operand src x m in after_alu op i y m'

  abbrev on_memory : AluOp → Instruction → Machine W → (hl : ℕ) → Option (Machine W)
  on_memory op i m hl =
      let (n, m') = fetch_byte runtime hl in_memory m in
      run runtime (some (word i8 n))
        (emit_opcode (type_n op) (record i { instruction_type = type_n op })) m'

pub data Step : Type 0 where
  up down : Step

abbrev pub step_type : Step → Place → InstructionType
step_type up (in_register r) = T.inc_r8
step_type up in_memory = T.inc_hl
step_type down (in_register r) = T.dec_r8
step_type down in_memory = T.dec_hl

abbrev pub of_step : Step → Place → Instruction → Instruction
of_step s place i = record i { instruction_type = step_type s place; reg8_src = reg8_at place }

-- The new byte, and the flags N and H.
abbrev moved : Step → ℕ → ℕ
moved up x = (x + 1) % 256
moved down x = (x + 255) % 256

abbrev counted_down : Step → ℕ
counted_down up = 0
counted_down down = 1

abbrev half : Step → ℕ → ℕ
half up x = flag (x % 16 == 15)
half down x = flag (x % 16 == 0)

abbrev emitted_half : Step → ℕ → ℕ
emitted_half up x = flag (leb 16 ((bit_and x 15 + 1) % 256))
emitted_half down x = flag (ltb (bit_and x 15) 1)

table-half : (s : Step) → table 256 (emitted_half s) ≡ table 256 (half s)
table-half up = refl
table-half down = refl

module _ {W : Type 0} (runtime : Runtime W) where
  abbrev put_step : Step → Place → (hl x h : ℕ) → Machine W → Machine W
  put_step s place hl x h m = record (deliver_byte runtime hl place (moved s x) m) {
    zero_flag = flag (moved s x == 0);
    sub_flag = counted_down s;
    half_flag = h;
  }

  abbrev after_step_by :
      (Step → ℕ → ℕ) → (hl : ℕ) → Step → Place → Instruction → Machine W → Machine W
  after_step_by f hl s place i m =
      let (x, m') = fetch_byte runtime hl place m in
      tick i.base_m_cycles (put_step s place hl x (f s x) m')

  -- INC and DEC leave the carry.
  abbrev pub after_step : Step → Place → Instruction → Machine W → Machine W
  after_step s place i m = after_step_by half (m.h * 256 + m.l) s place i m

  stepped_as_emitted :
      (s : Step) (place : Place) (i : Instruction) (m : Machine W)
      → run runtime none (emit_opcode (step_type s place) (of_step s place i)) m
        ≡ some (after_step_by emitted_half (bit_or (m.h * 2 ^ 8 % 2 ^ 16) m.l) s place i m)
  stepped_as_emitted up (in_register in_a) i m = refl
  stepped_as_emitted down (in_register in_a) i m = refl
  stepped_as_emitted up (in_register r) i m = refl
  stepped_as_emitted down (in_register r) i m = refl
  stepped_as_emitted up in_memory i m = refl
  stepped_as_emitted down in_memory i m = refl

  put_step-half :
      (s : Step) (place : Place) (i : Instruction) (hl x : ℕ) (m : Machine W)
      → x < 256
      → some (tick i.base_m_cycles (put_step s place hl x (emitted_half s x) m))
        ≡ some (tick i.base_m_cycles (put_step s place hl x (half s x) m))
  put_step-half s place i hl x m k =
      ap (λ h. some (tick i.base_m_cycles (put_step s place hl x h m)))
        (table_ext 256 (emitted_half s) (half s) x (table-half s) k)

module _ {W : Type 0} (runtime : Runtime W) (bytes : GivesBytes runtime) where
  -- For INC and DEC of A, B, C, D, E, H, L and the byte at HL, on a machine whose globals fit their
  -- widths and with a runtime whose memory reads bytes, the emitted code runs without getting stuck
  -- and gives the machine of the manual: the byte one up or down modulo 256, the flags Z, N and H,
  -- the cycles, and nothing else changed, so that the carry is kept.
  pub step-eq :
      (s : Step) (place : Place) (i : Instruction) (m : Machine W)
      → IsMachine m
      → run runtime none (emit_opcode (step_type s place) (of_step s place i)) m
        ≡ some (after_step runtime s place i m)
  step-eq s place i m h =
      let hl = m.h * 256 + m.l in
      let (x, m') = fetch_byte runtime hl place m in
      stepped_as_emitted runtime s place i m
      ∙ ap (λ a. some (after_step_by runtime emitted_half a s place i m)) (or_add m.h m.l h.h h.l)
      ∙ put_step-half runtime s place i hl x m' (fetch_byte-lt runtime bytes place m hl h)
