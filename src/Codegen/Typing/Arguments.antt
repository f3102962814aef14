-- ===== src/Codegen/Typing/Arguments.antt =====
-- The size of the arguments that emitInstruction passes.
use gbrc.Common.{
  ℕ, ◌*◌, ◌%◌, ◌^◌, ◌<◌, ◌≡◌, refl, sym, subst, arith, true, if◌then◌else◌, Option, some, none, Run,
  done, panic, out_of_fuel, table, bit_or-lt,
}
use gbrc.Rom.{Rom, read, merge_bytes}
use gbrc.Rom.Image.{IsImage, read-lt}
use gbrc.Decoder.Types.{Instruction, InstructionType, InstructionType as T}
use gbrc.Decoder.Encoding.{offset, imm8, imm16}
use gbrc.Decoder.Switch.{decode_opcode}
use gbrc.Decoder.Cb.{decode_cb_prefixed_opcode}
use gbrc.Decoder.Cache.{decode_fresh}
use gbrc.Decoder.Every.{decode_fresh_ext}
use gbrc.Analyzer.Flow.{is_block_terminator}
use gbrc.Codegen.Ir.{Value}
use gbrc.Codegen.Opcodes.{arguments}
use gbrc.Codegen.Catalogue.{is_called}
use gbrc.Codegen.Typing.{FitsValue}

abbrev argument : Run Instruction → Option Value
argument (done i) = if is_called i then arguments i.instruction_type i else none
argument panic = none
argument out_of_fuel = none

module _ (rom : Rom) (addr : ℕ) where
  -- The same instruction, with its immediate values where they are read.
  abbrev reread : Instruction → Instruction
  reread i = record i {
    imm8_bit = imm8 rom addr;
    imm16_bit = imm16 rom addr;
    bit_op_index = i.bit_op_index % 8;
  }

  abbrev reread_argument : Run Instruction → Option Value
  reread_argument (done i) = if is_called i then arguments i.instruction_type (reread i) else none
  reread_argument panic = none
  reread_argument out_of_fuel = none

  argument-plain :
      table 256 (λ op. argument (decode_opcode rom op addr))
      ≡ table 256 (λ op. reread_argument (decode_opcode rom op addr))
  unfolding decode_opcode is_block_terminator
  argument-plain = refl

  argument-prefixed :
      table 256 (λ op. argument (decode_cb_prefixed_opcode op addr))
      ≡ table 256 (λ op. reread_argument (decode_cb_prefixed_opcode op addr))
  unfolding decode_cb_prefixed_opcode is_block_terminator
  argument-prefixed = refl

-- A call's argument has no more digits than its width.
abbrev pub FitsArgument : Option Value → Type 0
FitsArgument none = Unit
FitsArgument (some v) = FitsValue v

pub imm16-lt : (rom : Rom) (addr : ℕ) → IsImage rom → imm16 rom addr < 2 ^ 16
unfolding imm16 merge_bytes
imm16-lt rom addr image =
    bit_or-lt 16 (read rom (offset addr 2) * 2 ^ 8 % 2 ^ 16) (read rom (offset addr 1))
      (omega arith) (omega (arith, read-lt rom (offset addr 1) image))

imm8-lt : (rom : Rom) (addr : ℕ) → IsImage rom → imm8 rom addr < 2 ^ 8
unfolding imm8
imm8-lt rom addr image = read-lt rom (offset addr 1) image

arguments-FitsArgument :
    (t : InstructionType) (i : Instruction)
    → i.imm8_bit < 2 ^ 8
    → i.imm16_bit < 2 ^ 16
    → i.bit_op_index < 2 ^ 8
    → FitsArgument (arguments t i)
arguments-FitsArgument T.ld_r8_n i h k l = h
arguments-FitsArgument T.ld_hl_n i h k l = h
arguments-FitsArgument T.ldh_a_n i h k l = h
arguments-FitsArgument T.ldh_n_a i h k l = h
arguments-FitsArgument T.ld_hl_sp_e i h k l = h
arguments-FitsArgument T.add_sp_e i h k l = h
arguments-FitsArgument T.add_n i h k l = h
arguments-FitsArgument T.adc_n i h k l = h
arguments-FitsArgument T.sub_n i h k l = h
arguments-FitsArgument T.sbc_n i h k l = h
arguments-FitsArgument T.cp_n i h k l = h
arguments-FitsArgument T.and_n i h k l = h
arguments-FitsArgument T.or_n i h k l = h
arguments-FitsArgument T.xor_n i h k l = h
arguments-FitsArgument T.cb_bit_r8 i h k l = l
arguments-FitsArgument T.cb_bit_hl i h k l = l
arguments-FitsArgument T.cb_res_r8 i h k l = l
arguments-FitsArgument T.cb_res_hl i h k l = l
arguments-FitsArgument T.cb_set_r8 i h k l = l
arguments-FitsArgument T.cb_set_hl i h k l = l
arguments-FitsArgument T.ld_a_nn i h k l = k
arguments-FitsArgument T.ld_nn_a i h k l = k
arguments-FitsArgument T.ld_r16_nn i h k l = k
arguments-FitsArgument T.ld_nn_sp i h k l = k
arguments-FitsArgument t i h k l = tt

pub decoded-FitsArgument :
    (rom : Rom) (addr : ℕ) (i : Instruction)
    → IsImage rom
    → decode_fresh rom addr ≡ done i
    → is_called i ≡ true
    → FitsArgument (arguments i.instruction_type i)
decoded-FitsArgument rom addr i image decoded h =
    let again : argument (done i) ≡ reread_argument rom addr (done i) =
      subst (λ r. argument r ≡ reread_argument rom addr r) decoded
        (decode_fresh_ext rom addr argument (reread_argument rom addr) image
          (argument-plain rom addr) (argument-prefixed rom addr)) in
    let same : arguments i.instruction_type i ≡ arguments i.instruction_type (reread rom addr i) =
      rw h at again in
    subst FitsArgument (sym same) (
      arguments-FitsArgument i.instruction_type (reread rom addr i) (imm8-lt rom addr image)
        (imm16-lt rom addr image) (omega arith))
