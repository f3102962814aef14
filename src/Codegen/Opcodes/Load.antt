-- ===== src/Codegen/Opcodes/Load.antt =====
-- internal/codegen/opcodes.go: NOP and the loads of bytes. An instruction that Go nests as an
-- argument stands before the one that takes it, as it is emitted.
use gbrc.Common.{Option}
use gbrc.Decoder.Types.{Instruction, reg16_bc, reg16_de, reg16_hl}
use gbrc.Codegen.Ir.{Width, i8, i16, Global, new_int, param, global}
use gbrc.Codegen.Build.{
  Build, ◌>>=◌, ◌>>◌, pure, new_load, new_store, new_add, new_sub, read_memory, update_memory,
}
use gbrc.Codegen.Helpers.{
  find_reg8_global_def, find_reg16_global_defs, read_reg16, update_reg16, build_void_func,
  build_param_func, calculate_high_page_address,
}

abbrev pub nop : Instruction → Build (Option Width)
nop instr = build_void_func instr (pure tt)

abbrev pub ld_r8_r8 : Instruction → Build (Option Width)
ld_r8_r8 instr = build_void_func instr do
  src ← find_reg8_global_def instr.reg8_src
  dest ← find_reg8_global_def instr.reg8_dest
  src_val ← new_load i8 src
  new_store src_val dest

abbrev pub ld_r8_n : Instruction → Build (Option Width)
ld_r8_n instr =
    build_param_func instr i8 do dest ← find_reg8_global_def instr.reg8_dest; new_store param dest

abbrev pub ld_r8_hl : Instruction → Build (Option Width)
ld_r8_hl instr = build_void_func instr do
  hl ← find_reg16_global_defs reg16_hl
  dest ← find_reg8_global_def instr.reg8_dest
  hl_val ← read_reg16 hl
  val ← read_memory hl_val
  new_store val dest

abbrev pub ld_hl_r8 : Instruction → Build (Option Width)
ld_hl_r8 instr = build_void_func instr do
  hl ← find_reg16_global_defs reg16_hl
  src ← find_reg8_global_def instr.reg8_src
  hl_val ← read_reg16 hl
  src_val ← new_load i8 src
  update_memory hl_val src_val

abbrev pub ld_hl_n : Instruction → Build (Option Width)
ld_hl_n instr =
    build_param_func instr i8
      do hl_reg ← find_reg16_global_defs reg16_hl; hl ← read_reg16 hl_reg; update_memory hl param

abbrev pub ld_a_bc : Instruction → Build (Option Width)
ld_a_bc instr = build_void_func instr do
  bc ← find_reg16_global_defs reg16_bc
  bc_val ← read_reg16 bc
  val ← read_memory bc_val
  new_store val (global Global.a_reg)

abbrev pub ld_a_de : Instruction → Build (Option Width)
ld_a_de instr = build_void_func instr do
  de ← find_reg16_global_defs reg16_de
  de_val ← read_reg16 de
  val ← read_memory de_val
  new_store val (global Global.a_reg)

abbrev pub ld_bc_a : Instruction → Build (Option Width)
ld_bc_a instr = build_void_func instr do
  bc ← find_reg16_global_defs reg16_bc
  bc_val ← read_reg16 bc
  a ← new_load i8 (global Global.a_reg)
  update_memory bc_val a

abbrev pub ld_de_a : Instruction → Build (Option Width)
ld_de_a instr = build_void_func instr do
  de ← find_reg16_global_defs reg16_de
  de_val ← read_reg16 de
  a ← new_load i8 (global Global.a_reg)
  update_memory de_val a

abbrev pub ld_a_nn : Instruction → Build (Option Width)
ld_a_nn instr =
    build_param_func instr i16 do val ← read_memory param; new_store val (global Global.a_reg)

abbrev pub ld_nn_a : Instruction → Build (Option Width)
ld_nn_a instr =
    build_param_func instr i16 do a ← new_load i8 (global Global.a_reg); update_memory param a

abbrev pub ldh_a_c : Instruction → Build (Option Width)
ldh_a_c instr = build_void_func instr do
  c ← new_load i8 (global Global.c_reg)
  addr ← calculate_high_page_address c
  val ← read_memory addr
  new_store val (global Global.a_reg)

abbrev pub ldh_c_a : Instruction → Build (Option Width)
ldh_c_a instr = build_void_func instr do
  c ← new_load i8 (global Global.c_reg)
  addr ← calculate_high_page_address c
  a ← new_load i8 (global Global.a_reg)
  update_memory addr a

abbrev pub ldh_a_n : Instruction → Build (Option Width)
ldh_a_n instr = build_param_func instr i8 do
  addr ← calculate_high_page_address param
  val ← read_memory addr
  new_store val (global Global.a_reg)

abbrev pub ldh_n_a : Instruction → Build (Option Width)
ldh_n_a instr = build_param_func instr i8 do
  addr ← calculate_high_page_address param
  a ← new_load i8 (global Global.a_reg)
  update_memory addr a

abbrev pub ld_a_hl_dec : Instruction → Build (Option Width)
ld_a_hl_dec instr = build_void_func instr do
  hl ← find_reg16_global_defs reg16_hl
  hl_val ← read_reg16 hl
  val ← read_memory hl_val
  new_store val (global Global.a_reg)
  hl_dec ← new_sub hl_val (new_int i16 1)
  update_reg16 hl hl_dec

abbrev pub ld_hl_dec_a : Instruction → Build (Option Width)
ld_hl_dec_a instr = build_void_func instr do
  hl ← find_reg16_global_defs reg16_hl
  hl_val ← read_reg16 hl
  a ← new_load i8 (global Global.a_reg)
  update_memory hl_val a
  hl_dec ← new_sub hl_val (new_int i16 1)
  update_reg16 hl hl_dec

abbrev pub ld_a_hl_inc : Instruction → Build (Option Width)
ld_a_hl_inc instr = build_void_func instr do
  hl ← find_reg16_global_defs reg16_hl
  hl_val ← read_reg16 hl
  val ← read_memory hl_val
  new_store val (global Global.a_reg)
  hl_inc ← new_add hl_val (new_int i16 1)
  update_reg16 hl hl_inc

abbrev pub ld_hl_inc_a : Instruction → Build (Option Width)
ld_hl_inc_a instr = build_void_func instr do
  hl ← find_reg16_global_defs reg16_hl
  hl_val ← read_reg16 hl
  a ← new_load i8 (global Global.a_reg)
  update_memory hl_val a
  hl_inc ← new_add hl_val (new_int i16 1)
  update_reg16 hl hl_inc
