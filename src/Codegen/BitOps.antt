-- ===== src/Codegen/BitOps.antt =====
-- BIT, RES and SET of the processor's manual, and the code emitted for them.
use gbrc.Common.{
  ℕ, ◌+◌, ◌-◌, ◌*◌, ◌/◌, ◌%◌, ◌^◌, ◌<◌, ◌==◌, leb, bit_and, bit_or, bit_xor, some, Option, Bool,
  Bool-cases, inl, inr,
}
use gbrc.Decoder.Types.{Instruction, InstructionType, InstructionType as T, Reg8}
use gbrc.Codegen.Ir.{i8}
use gbrc.Codegen.Machine.{Runtime, Machine, word, flag, cg_read_memory}
use gbrc.Codegen.Opcodes.{emit_opcode}
use gbrc.Codegen.Alu.{run, IsMachine, tick, ByteRegister, reg8_of, byte_in}
use gbrc.Codegen.Alu.Laws.{byte_in-lt}
use gbrc.Codegen.Rotation.{put_byte}
use gbrc.Codegen.Typing.Steps.{GivesBytes}

pub data BitAction : Type 0 where
  test reset set : BitAction

-- A register, or the byte that HL points to.
pub data Place : Type 0 where
  in_register : ByteRegister → Place
  in_memory : Place

abbrev pub bit_type : BitAction → Place → InstructionType
bit_type test (in_register r) = T.cb_bit_r8
bit_type test in_memory = T.cb_bit_hl
bit_type reset (in_register r) = T.cb_res_r8
bit_type reset in_memory = T.cb_res_hl
bit_type set (in_register r) = T.cb_set_r8
bit_type set in_memory = T.cb_set_hl

abbrev pub reg8_at : Place → Reg8
reg8_at (in_register r) = reg8_of r
reg8_at in_memory = Reg8.reg8_hl_indirect

abbrev pub of_bit : BitAction → Place → Instruction → Instruction
of_bit op place i = record i { instruction_type = bit_type op place; reg8_src = reg8_at place }

-- The digit `b` of a byte, and the byte with that digit 0 or 1.
abbrev digit : (b x : ℕ) → ℕ
digit b x = x / 2 ^ b % 2

abbrev cleared : (b x : ℕ) → ℕ
cleared b x = x - digit b x * 2 ^ b

abbrev mask : ℕ → ℕ
mask b = 1 * 2 ^ b % 2 ^ 8

-- What an action does with a byte: the digit that it tests, and the byte with it 0 and 1.
record Digits : Type 0 where
  is_clear : (b x : ℕ) → Bool
  clear : (b x : ℕ) → ℕ
  filled : (b x : ℕ) → ℕ

abbrev manual : Digits
manual = record {
  is_clear = λ b x. digit b x == 0;
  clear = cleared;
  filled = λ b x. cleared b x + 2 ^ b;
}

abbrev masked : Digits
masked = record {
  is_clear = λ b x. bit_and x (mask b) == 0;
  clear = λ b x. bit_and x (bit_xor (mask b) 0xFF);
  filled = λ b x. bit_or x (mask b);
}

-- With HL as `hl`.
module _ {W : Type 0} (runtime : Runtime W) (hl : ℕ) where
  -- The byte, with the machine that reading it leaves.
  abbrev pub fetch_byte : Place → Machine W → ℕ × Machine W
  fetch_byte (in_register r) m = (byte_in r m, m)
  fetch_byte in_memory m =
      let (n, world) = cg_read_memory runtime m.world hl in (n, record m { world = world })

  abbrev pub deliver_byte : Place → ℕ → Machine W → Machine W
  deliver_byte (in_register r) n m = put_byte r n m
  deliver_byte in_memory n m = record m { world = runtime.write_ram m.world hl n }

  abbrev act : Digits → BitAction → Place → (b x : ℕ) → Machine W → Machine W
  act d test place b x m = record m {
    zero_flag = flag (d.is_clear b x);
    sub_flag = 0;
    half_flag = 1;
  }
  act d reset place b x m = deliver_byte place (d.clear b x) m
  act d set place b x m = deliver_byte place (d.filled b x) m

  abbrev after_by : Digits → BitAction → Place → (b : ℕ) → Instruction → Machine W → Machine W
  after_by d op place b i m =
      let (x, m') = fetch_byte place m in tick i.base_m_cycles (act d op place b x m')

-- BIT changes only flags, RES and SET none.
abbrev pub after_bit :
    {W : Type 0} → Runtime W → BitAction → Place → (b : ℕ) → Instruction → Machine W → Machine W
after_bit runtime op place b i m = after_by runtime (m.h * 256 + m.l) manual op place b i m

module _ {W : Type 0} (runtime : Runtime W) where
  abbrev emitted_hl : Machine W → ℕ
  emitted_hl m = bit_or (m.h * 2 ^ 8 % 2 ^ 16) m.l

  abbrev ran : BitAction → Place → Instruction → Machine W → (b : ℕ) → Option (Machine W)
  ran op place i m b =
      run runtime (some (word i8 b)) (emit_opcode (bit_type op place) (of_bit op place i)) m

  abbrev masked_after : BitAction → Place → Instruction → Machine W → (b : ℕ) → Option (Machine W)
  masked_after op place i m b = some (after_by runtime (emitted_hl m) masked op place b i m)

module _ {W : Type 0} (runtime : Runtime W) (bytes : GivesBytes runtime) where
  pub fetch_byte-lt :
      (place : Place) (m : Machine W) (hl : ℕ)
      → IsMachine m
      → (fetch_byte runtime hl place m).0 < 256
  fetch_byte-lt (in_register r) m hl h = byte_in-lt runtime r m h
  fetch_byte-lt in_memory m hl h = elim (Bool-cases (leb 0xE000 hl)) [
    | inl high ↦ rw high (bytes.read_ram m.world hl)
    | inr low ↦ rw low (bytes.ram m.world hl)
  ]
