-- ===== src/Codegen/WordAlu.antt =====
-- The arithmetic on 16 bits of the processor's manual, to which the emitted code is compared.
pub mod Laws
use gbrc.Common.{ℕ, ◌+◌, ◌*◌, ◌/◌, ◌%◌, ◌^◌, ltb, leb, if◌then◌else◌}
use gbrc.Decoder.Types.{Instruction, InstructionType, InstructionType as T, Reg16}
use gbrc.Codegen.Machine.{Machine, flag}
use gbrc.Codegen.Alu.{tick}

-- The registers of 16 bits.
pub data WordRegister : Type 0 where
  in_bc in_de in_hl in_sp : WordRegister

abbrev pub word_register : WordRegister → Reg16
word_register in_bc = Reg16.reg16_bc
word_register in_de = Reg16.reg16_de
word_register in_hl = Reg16.reg16_hl
word_register in_sp = Reg16.reg16_sp

-- A signed byte on 16 bits.
abbrev pub signed : ℕ → ℕ
signed e = if ltb e 128 then e else e + 0xFF00

pub data WordOp : Type 0 where
  word_inc word_dec word_add : WordOp

abbrev pub word_type : WordOp → InstructionType
word_type word_inc = T.inc_r16
word_type word_dec = T.dec_r16
word_type word_add = T.add_hl_r16

-- Where the stack pointer with an offset goes.
pub data OffsetOp : Type 0 where
  to_sp to_hl : OffsetOp

abbrev pub offset_type : OffsetOp → InstructionType
offset_type to_sp = T.add_sp_e
offset_type to_hl = T.ld_hl_sp_e

abbrev pub offset_register : OffsetOp → WordRegister
offset_register to_sp = in_sp
offset_register to_hl = in_hl

module _ {W : Type 0} where
  abbrev pub word_in : WordRegister → Machine W → ℕ
  word_in in_bc m = m.b * 256 + m.c
  word_in in_de m = m.d * 256 + m.e
  word_in in_hl m = m.h * 256 + m.l
  word_in in_sp m = m.sp

  abbrev pub put_word : WordRegister → ℕ → Machine W → Machine W
  put_word in_bc n m = record m { b = n / 256; c = n % 256 }
  put_word in_de n m = record m { d = n / 256; e = n % 256 }
  put_word in_hl n m = record m { h = n / 256; l = n % 256 }
  put_word in_sp n m = record m { sp = n }

  -- INC and DEC of a pair change no flag.
  abbrev pub after_step : WordRegister → Instruction → (by : ℕ) → Machine W → Machine W
  after_step r i by m = tick i.base_m_cycles (put_word r ((word_in r m + by) % 2 ^ 16) m)

  -- ADD HL: H is the carry from bit 11 and C that from bit 15. Z stays.
  abbrev after_add_hl : WordRegister → Instruction → Machine W → Machine W
  after_add_hl r i m =
      let x = word_in in_hl m in
      let y = word_in r m in
      tick i.base_m_cycles (record (put_word in_hl ((x + y) % 2 ^ 16) m) {
        sub_flag = 0;
        half_flag = flag (leb 4096 (x % 4096 + y % 4096));
        carry_flag = flag (leb 65536 (x + y));
      })

  -- The stack pointer and a signed byte: H and C are the carries from bits 3 and 7.
  abbrev pub after_offset : WordRegister → Instruction → (e : ℕ) → Machine W → Machine W
  after_offset r i e m = tick i.base_m_cycles (record (put_word r ((m.sp + signed e) % 2 ^ 16) m) {
    zero_flag = 0;
    sub_flag = 0;
    half_flag = flag (leb 16 (m.sp % 16 + e % 16));
    carry_flag = flag (leb 256 (m.sp % 256 + e));
  })

  abbrev pub after_word : WordOp → WordRegister → Instruction → Machine W → Machine W
  after_word word_inc r i m = after_step r i 1 m
  after_word word_dec r i m = after_step r i 65535 m
  after_word word_add r i m = after_add_hl r i m
