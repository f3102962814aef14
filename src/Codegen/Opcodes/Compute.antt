-- ===== src/Codegen/Opcodes/Compute.antt =====
-- internal/codegen/opcodes.go: arithmetic and logic on bytes, flags and interrupts.
use gbrc.Common.{Option, Bool, true, false}
use gbrc.Decoder.Types.{Instruction, InstructionType, InstructionType as T, reg16_hl}
use gbrc.Codegen.Ir.{Width, i1, i8, ugt, eq, Global, Value, new_int, param, global}
use gbrc.Codegen.Build.{
  Build, ◌>>=◌, ◌>>◌, new_load, new_store, new_add, new_sub, new_and, new_or, new_xor, new_icmp,
  new_select, read_memory,
}
use gbrc.Codegen.Helpers.{
  Dest, dest_reg, dest_hl, find_reg8_global_def, find_reg16_global_defs, read_reg16,
  resolve_operand_and_dest, build_void_func, build_param_func,
}
use gbrc.Codegen.Arithmetic.Eight.{perform_8bit_arithmetic}
use gbrc.Codegen.Arithmetic.Rotate.{perform_bitwise}
use gbrc.Codegen.Arithmetic.Bit.{perform_bit_op}
use gbrc.Codegen.Arithmetic.Choice.{
  bitwise_op_from_instr_type, bit_op_from_instr_type, bit8_arithmetic_instr_type_to_op_type,
}

abbrev steps : InstructionType → Bool
steps T.inc_r8 = true
steps T.dec_r8 = true
steps T.inc_hl = true
steps T.dec_hl = true
steps _ = false

abbrev includes_carry : InstructionType → Bool
includes_carry T.adc_r8 = true
includes_carry T.sbc_r8 = true
includes_carry T.adc_hl = true
includes_carry T.sbc_hl = true
includes_carry T.adc_n = true
includes_carry T.sbc_n = true
includes_carry _ = false

abbrev register_dest : Bool → Value → Dest
register_dest true src_reg = dest_reg src_reg
register_dest false src_reg = dest_reg (global Global.a_reg)

abbrev memory_dest : Bool → Value → Dest
memory_dest true hl = dest_hl hl
memory_dest false hl = dest_reg (global Global.a_reg)

abbrev pub bit8_arithmetic_r8 : Instruction → Build (Option Width)
bit8_arithmetic_r8 instr = build_void_func instr do
  src_reg ← find_reg8_global_def instr.reg8_src
  operand ← new_load i8 src_reg
  op_type ← bit8_arithmetic_instr_type_to_op_type instr.instruction_type
  let dest = register_dest (steps instr.instruction_type) src_reg
  perform_8bit_arithmetic op_type operand dest (includes_carry instr.instruction_type)

abbrev pub bit8_arithmetic_hl : Instruction → Build (Option Width)
bit8_arithmetic_hl instr = build_void_func instr do
  hl_reg ← find_reg16_global_defs reg16_hl
  hl ← read_reg16 hl_reg
  operand ← read_memory hl
  op_type ← bit8_arithmetic_instr_type_to_op_type instr.instruction_type
  let dest = memory_dest (steps instr.instruction_type) hl
  perform_8bit_arithmetic op_type operand dest (includes_carry instr.instruction_type)

abbrev pub bit8_arithmetic_n : Instruction → Build (Option Width)
bit8_arithmetic_n instr = build_param_func instr i8 do
  op_type ← bit8_arithmetic_instr_type_to_op_type instr.instruction_type
  let dest = dest_reg (global Global.a_reg)
  perform_8bit_arithmetic op_type param dest (includes_carry instr.instruction_type)

abbrev pub ccf : Instruction → Build (Option Width)
ccf instr = build_void_func instr do
  c_val ← new_load i1 (global Global.c_flag)
  flip_c ← new_xor c_val (new_int i1 1)
  new_store (new_int i1 0) (global Global.n_flag)
  new_store (new_int i1 0) (global Global.h_flag)
  new_store flip_c (global Global.c_flag)

abbrev pub scf : Instruction → Build (Option Width)
scf instr = build_void_func instr do
  new_store (new_int i1 0) (global Global.n_flag)
  new_store (new_int i1 0) (global Global.h_flag)
  new_store (new_int i1 1) (global Global.c_flag)

abbrev pub cpl : Instruction → Build (Option Width)
cpl instr = build_void_func instr do
  a_val ← new_load i8 (global Global.a_reg)
  flip_a ← new_xor a_val (new_int i8 0xFF)
  new_store flip_a (global Global.a_reg)
  new_store (new_int i1 1) (global Global.n_flag)
  new_store (new_int i1 1) (global Global.h_flag)

abbrev pub daa : Instruction → Build (Option Width)
daa instr = build_void_func instr do
  a ← new_load i8 (global Global.a_reg)
  n ← new_load i1 (global Global.n_flag)
  h ← new_load i1 (global Global.h_flag)
  c ← new_load i1 (global Global.c_flag)
  low_nibble ← new_and a (new_int i8 0x0F)
  low_gt9 ← new_icmp ugt low_nibble (new_int i8 0x09)
  adj_lo ← new_or h low_gt9
  adj_lo_val ← new_select adj_lo (new_int i8 0x06) (new_int i8 0)
  a_gt99 ← new_icmp ugt a (new_int i8 0x99)
  adj_hi ← new_or c a_gt99
  adj_hi_val ← new_select adj_hi (new_int i8 0x60) (new_int i8 0)
  added ← new_add a adj_lo_val
  add_result ← new_add added adj_hi_val
  sub_lo_val ← new_select h (new_int i8 0x06) (new_int i8 0)
  sub_hi_val ← new_select c (new_int i8 0x60) (new_int i8 0)
  subtracted ← new_sub a sub_hi_val
  sub_result ← new_sub subtracted sub_lo_val
  result ← new_select n sub_result add_result
  z ← new_icmp eq result (new_int i8 0)
  new_c ← new_select n c adj_hi
  new_store result (global Global.a_reg)
  new_store z (global Global.z_flag)
  new_store n (global Global.n_flag)
  new_store (new_int i1 0) (global Global.h_flag)
  new_store new_c (global Global.c_flag)

abbrev pub bitwise : Instruction → Build (Option Width)
bitwise instr = build_void_func instr do
  (operand, dest) ← resolve_operand_and_dest instr.reg8_src
  op_type ← bitwise_op_from_instr_type instr.instruction_type
  perform_bitwise op_type operand dest instr.is_cb_prefixed

abbrev pub bit_op : Instruction → Build (Option Width)
bit_op instr = build_param_func instr i8 do
  (operand, dest) ← resolve_operand_and_dest instr.reg8_src
  op_type ← bit_op_from_instr_type instr.instruction_type
  perform_bit_op op_type param operand dest

abbrev pub di : Instruction → Build (Option Width)
di instr = build_void_func instr do new_store (new_int i8 0) (global Global.ime)

abbrev pub ei : Instruction → Build (Option Width)
ei instr = build_void_func instr do new_store (new_int i8 1) (global Global.ime)
