-- ===== src/Codegen/Opcodes.antt =====
-- internal/codegen/opcodes.go by the switches of emitInstruction in internal/codegen/codegen.go.
pub mod Load
pub mod Word
pub mod Compute
use gbrc.Common.{Option, none, some}
use gbrc.Decoder.Types.{Instruction, InstructionType, InstructionType as T}
use gbrc.Codegen.Ir.{Width, i8, i16, Value, new_int}
use gbrc.Codegen.Build.{Build, fail}
use Load.{
  nop, ld_r8_r8, ld_r8_n, ld_r8_hl, ld_hl_r8, ld_hl_n, ld_a_bc, ld_a_de, ld_bc_a, ld_de_a, ld_a_nn,
  ld_nn_a, ldh_a_c, ldh_c_a, ldh_a_n, ldh_n_a, ld_a_hl_dec, ld_hl_dec_a, ld_a_hl_inc, ld_hl_inc_a,
}
use Word.{
  ld_r16_nn, ld_nn_sp, ld_sp_hl, ld_hl_sp_e, push_r16, pop_r16, inc_r16, dec_r16, add_hl_r16,
  add_sp_e,
}
use Compute.{
  bit8_arithmetic_r8, bit8_arithmetic_hl, bit8_arithmetic_n, ccf, scf, cpl, daa, bitwise, bit_op,
  di, ei,
}

-- The first switch: the function that is emitted for an instruction, with its declared parameter.
abbrev pub emit_opcode : InstructionType → Instruction → Build (Option Width)
emit_opcode T.nop instr = nop instr
emit_opcode T.halt instr = nop instr
emit_opcode T.stop instr = nop instr
emit_opcode T.ld_r8_r8 instr = ld_r8_r8 instr
emit_opcode T.ld_r8_n instr = ld_r8_n instr
emit_opcode T.ld_r8_hl instr = ld_r8_hl instr
emit_opcode T.ld_hl_r8 instr = ld_hl_r8 instr
emit_opcode T.ld_hl_n instr = ld_hl_n instr
emit_opcode T.ld_a_bc instr = ld_a_bc instr
emit_opcode T.ld_a_de instr = ld_a_de instr
emit_opcode T.ld_bc_a instr = ld_bc_a instr
emit_opcode T.ld_de_a instr = ld_de_a instr
emit_opcode T.ld_a_nn instr = ld_a_nn instr
emit_opcode T.ld_nn_a instr = ld_nn_a instr
emit_opcode T.ldh_a_c instr = ldh_a_c instr
emit_opcode T.ldh_c_a instr = ldh_c_a instr
emit_opcode T.ldh_a_n instr = ldh_a_n instr
emit_opcode T.ldh_n_a instr = ldh_n_a instr
emit_opcode T.ld_a_hl_dec instr = ld_a_hl_dec instr
emit_opcode T.ld_hl_dec_a instr = ld_hl_dec_a instr
emit_opcode T.ld_a_hl_inc instr = ld_a_hl_inc instr
emit_opcode T.ld_hl_inc_a instr = ld_hl_inc_a instr
emit_opcode T.ld_r16_nn instr = ld_r16_nn instr
emit_opcode T.ld_nn_sp instr = ld_nn_sp instr
emit_opcode T.ld_sp_hl instr = ld_sp_hl instr
emit_opcode T.ld_hl_sp_e instr = ld_hl_sp_e instr
emit_opcode T.push_r16 instr = push_r16 instr
emit_opcode T.pop_r16 instr = pop_r16 instr
emit_opcode T.add_r8 instr = bit8_arithmetic_r8 instr
emit_opcode T.adc_r8 instr = bit8_arithmetic_r8 instr
emit_opcode T.sub_r8 instr = bit8_arithmetic_r8 instr
emit_opcode T.sbc_r8 instr = bit8_arithmetic_r8 instr
emit_opcode T.cp_r8 instr = bit8_arithmetic_r8 instr
emit_opcode T.inc_r8 instr = bit8_arithmetic_r8 instr
emit_opcode T.dec_r8 instr = bit8_arithmetic_r8 instr
emit_opcode T.and_r8 instr = bit8_arithmetic_r8 instr
emit_opcode T.or_r8 instr = bit8_arithmetic_r8 instr
emit_opcode T.xor_r8 instr = bit8_arithmetic_r8 instr
emit_opcode T.add_hl instr = bit8_arithmetic_hl instr
emit_opcode T.adc_hl instr = bit8_arithmetic_hl instr
emit_opcode T.sub_hl instr = bit8_arithmetic_hl instr
emit_opcode T.sbc_hl instr = bit8_arithmetic_hl instr
emit_opcode T.cp_hl instr = bit8_arithmetic_hl instr
emit_opcode T.inc_hl instr = bit8_arithmetic_hl instr
emit_opcode T.dec_hl instr = bit8_arithmetic_hl instr
emit_opcode T.and_hl instr = bit8_arithmetic_hl instr
emit_opcode T.or_hl instr = bit8_arithmetic_hl instr
emit_opcode T.xor_hl instr = bit8_arithmetic_hl instr
emit_opcode T.add_n instr = bit8_arithmetic_n instr
emit_opcode T.adc_n instr = bit8_arithmetic_n instr
emit_opcode T.sub_n instr = bit8_arithmetic_n instr
emit_opcode T.sbc_n instr = bit8_arithmetic_n instr
emit_opcode T.cp_n instr = bit8_arithmetic_n instr
emit_opcode T.and_n instr = bit8_arithmetic_n instr
emit_opcode T.or_n instr = bit8_arithmetic_n instr
emit_opcode T.xor_n instr = bit8_arithmetic_n instr
emit_opcode T.ccf instr = ccf instr
emit_opcode T.scf instr = scf instr
emit_opcode T.cpl instr = cpl instr
emit_opcode T.daa instr = daa instr
emit_opcode T.di instr = di instr
emit_opcode T.ei instr = ei instr
emit_opcode T.inc_r16 instr = inc_r16 instr
emit_opcode T.dec_r16 instr = dec_r16 instr
emit_opcode T.add_hl_r16 instr = add_hl_r16 instr
emit_opcode T.add_sp_e instr = add_sp_e instr
emit_opcode T.rlca instr = bitwise instr
emit_opcode T.rrca instr = bitwise instr
emit_opcode T.rla instr = bitwise instr
emit_opcode T.rra instr = bitwise instr
emit_opcode T.cb_rlc_r8 instr = bitwise instr
emit_opcode T.cb_rlc_hl instr = bitwise instr
emit_opcode T.cb_rrc_r8 instr = bitwise instr
emit_opcode T.cb_rrc_hl instr = bitwise instr
emit_opcode T.cb_rl_r8 instr = bitwise instr
emit_opcode T.cb_rl_hl instr = bitwise instr
emit_opcode T.cb_rr_r8 instr = bitwise instr
emit_opcode T.cb_rr_hl instr = bitwise instr
emit_opcode T.cb_sla_r8 instr = bitwise instr
emit_opcode T.cb_sla_hl instr = bitwise instr
emit_opcode T.cb_sra_r8 instr = bitwise instr
emit_opcode T.cb_sra_hl instr = bitwise instr
emit_opcode T.cb_srl_r8 instr = bitwise instr
emit_opcode T.cb_srl_hl instr = bitwise instr
emit_opcode T.cb_swap_r8 instr = bitwise instr
emit_opcode T.cb_swap_hl instr = bitwise instr
emit_opcode T.cb_bit_r8 instr = bit_op instr
emit_opcode T.cb_bit_hl instr = bit_op instr
emit_opcode T.cb_res_r8 instr = bit_op instr
emit_opcode T.cb_res_hl instr = bit_op instr
emit_opcode T.cb_set_r8 instr = bit_op instr
emit_opcode T.cb_set_hl instr = bit_op instr
emit_opcode _ instr = fail

-- `args`: the value of the call's argument, where there is one.
abbrev pub arguments : InstructionType → Instruction → Option Value
arguments T.ld_r8_n instr = some (new_int i8 instr.imm8_bit)
arguments T.ld_hl_n instr = some (new_int i8 instr.imm8_bit)
arguments T.ldh_a_n instr = some (new_int i8 instr.imm8_bit)
arguments T.ldh_n_a instr = some (new_int i8 instr.imm8_bit)
arguments T.ld_hl_sp_e instr = some (new_int i8 instr.imm8_bit)
arguments T.add_sp_e instr = some (new_int i8 instr.imm8_bit)
arguments T.add_n instr = some (new_int i8 instr.imm8_bit)
arguments T.adc_n instr = some (new_int i8 instr.imm8_bit)
arguments T.sub_n instr = some (new_int i8 instr.imm8_bit)
arguments T.sbc_n instr = some (new_int i8 instr.imm8_bit)
arguments T.cp_n instr = some (new_int i8 instr.imm8_bit)
arguments T.and_n instr = some (new_int i8 instr.imm8_bit)
arguments T.or_n instr = some (new_int i8 instr.imm8_bit)
arguments T.xor_n instr = some (new_int i8 instr.imm8_bit)
arguments T.cb_bit_r8 instr = some (new_int i8 instr.bit_op_index)
arguments T.cb_bit_hl instr = some (new_int i8 instr.bit_op_index)
arguments T.cb_res_r8 instr = some (new_int i8 instr.bit_op_index)
arguments T.cb_res_hl instr = some (new_int i8 instr.bit_op_index)
arguments T.cb_set_r8 instr = some (new_int i8 instr.bit_op_index)
arguments T.cb_set_hl instr = some (new_int i8 instr.bit_op_index)
arguments T.ld_a_nn instr = some (new_int i16 instr.imm16_bit)
arguments T.ld_nn_a instr = some (new_int i16 instr.imm16_bit)
arguments T.ld_r16_nn instr = some (new_int i16 instr.imm16_bit)
arguments T.ld_nn_sp instr = some (new_int i16 instr.imm16_bit)
arguments _ instr = none
