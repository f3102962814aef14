-- ===== src/Codegen/Opcodes/Word.antt =====
-- internal/codegen/opcodes.go: the instructions on 16 bits.
use gbrc.Common.{Option}
use gbrc.Decoder.Types.{Instruction, reg16_hl, reg16_sp}
use gbrc.Codegen.Ir.{Width, i1, i8, i16, i32, uge, Global, new_int, param, global}
use gbrc.Codegen.Build.{
  Build, ◌>>=◌, ◌>>◌, new_store, new_add, new_sub, new_and, new_lshr, new_zext, new_sext, new_trunc,
  new_icmp, update_memory,
}
use gbrc.Codegen.Helpers.{
  find_reg16_global_defs, read_reg16, update_reg16, build_void_func, build_param_func,
  push_return_address, pop_return_address,
}
use gbrc.Codegen.Arithmetic.Bit.{calculate_offset_flags}

abbrev pub ld_r16_nn : Instruction → Build (Option Width)
ld_r16_nn instr =
    build_param_func instr i16 do r16 ← find_reg16_global_defs instr.reg16; update_reg16 r16 param

abbrev pub ld_nn_sp : Instruction → Build (Option Width)
ld_nn_sp instr = build_param_func instr i16 do
  sp ← find_reg16_global_defs reg16_sp
  sp_val ← read_reg16 sp
  lsb ← new_trunc sp_val i8
  shifted ← new_lshr sp_val (new_int i16 8)
  msb ← new_trunc shifted i8
  next_addr ← new_add param (new_int i16 1)
  update_memory param lsb
  update_memory next_addr msb

abbrev pub ld_sp_hl : Instruction → Build (Option Width)
ld_sp_hl instr = build_void_func instr do
  sp ← find_reg16_global_defs reg16_sp
  hl ← find_reg16_global_defs reg16_hl
  hl_val ← read_reg16 hl
  update_reg16 sp hl_val

abbrev pub ld_hl_sp_e : Instruction → Build (Option Width)
ld_hl_sp_e instr = build_param_func instr i8 do
  sp ← find_reg16_global_defs reg16_sp
  hl ← find_reg16_global_defs reg16_hl
  sp_val ← read_reg16 sp
  e_signed16 ← new_sext param i16
  result ← new_add sp_val e_signed16
  (h_flag, c_flag) ← calculate_offset_flags sp_val e_signed16
  update_reg16 hl result
  new_store (new_int i1 0) (global Global.z_flag)
  new_store (new_int i1 0) (global Global.n_flag)
  new_store h_flag (global Global.h_flag)
  new_store c_flag (global Global.c_flag)

abbrev pub push_r16 : Instruction → Build (Option Width)
push_r16 instr =
    build_void_func instr
      do r16 ← find_reg16_global_defs instr.reg16; val ← read_reg16 r16; push_return_address val

abbrev pub pop_r16 : Instruction → Build (Option Width)
pop_r16 instr =
    build_void_func instr
      do r16 ← find_reg16_global_defs instr.reg16; val ← pop_return_address; update_reg16 r16 val

abbrev pub inc_r16 : Instruction → Build (Option Width)
inc_r16 instr = build_void_func instr do
  r16 ← find_reg16_global_defs instr.reg16
  val ← read_reg16 r16
  val' ← new_add val (new_int i16 1)
  update_reg16 r16 val'

abbrev pub dec_r16 : Instruction → Build (Option Width)
dec_r16 instr = build_void_func instr do
  r16 ← find_reg16_global_defs instr.reg16
  val ← read_reg16 r16
  val' ← new_sub val (new_int i16 1)
  update_reg16 r16 val'

abbrev pub add_hl_r16 : Instruction → Build (Option Width)
add_hl_r16 instr = build_void_func instr do
  hl ← find_reg16_global_defs reg16_hl
  reg ← find_reg16_global_defs instr.reg16
  hl_val ← read_reg16 hl
  reg_val ← read_reg16 reg
  hl32 ← new_zext hl_val i32
  reg32 ← new_zext reg_val i32
  hl_low ← new_and hl32 (new_int i32 0x0FFF)
  reg_low ← new_and reg32 (new_int i32 0x0FFF)
  sum32 ← new_add hl32 reg32
  low_sum ← new_add hl_low reg_low
  result ← new_trunc sum32 i16
  h_flag ← new_icmp uge low_sum (new_int i32 0x1000)
  c_flag ← new_icmp uge sum32 (new_int i32 0x10000)
  update_reg16 hl result
  new_store (new_int i1 0) (global Global.n_flag)
  new_store h_flag (global Global.h_flag)
  new_store c_flag (global Global.c_flag)

abbrev pub add_sp_e : Instruction → Build (Option Width)
add_sp_e instr = build_param_func instr i8 do
  sp_reg ← find_reg16_global_defs reg16_sp
  sp_val ← read_reg16 sp_reg
  e_signed16 ← new_sext param i16
  result ← new_add sp_val e_signed16
  (h_flag, c_flag) ← calculate_offset_flags sp_val e_signed16
  update_reg16 sp_reg result
  new_store (new_int i1 0) (global Global.z_flag)
  new_store (new_int i1 0) (global Global.n_flag)
  new_store h_flag (global Global.h_flag)
  new_store c_flag (global Global.c_flag)
