-- ===== src/Codegen/Helpers.antt =====
-- internal/codegen/helpers.go: the code for registers, flags, cycles, conditions and the stack.
use gbrc.Common.{ℕ, Bool, true, false, ◌==◌, if◌then◌else◌, Option, none, some}
use gbrc.Decoder.Types.{Reg8, Reg16, reg16_hl, reg16_sp, JumpCondition, Instruction}
use gbrc.Codegen.Ir.{Width, i1, i8, i16, i32, Global, Value, new_int, global}
use gbrc.Codegen.Build.{
  Build, ◌>>=◌, ◌>>◌, pure, fail, new_load, new_store, new_add, new_sub, new_or, new_xor, new_shl,
  new_lshr, new_zext, new_trunc, new_select, read_memory, update_memory,
}

-- A pair of registers, or one register. The lower half of AF is the computed byte of flags.
pub data Reg16Store : Type 0 where
  split_up : (msb lsb : Value) (has_flag_reg : Bool) → Reg16Store
  whole : (val : Value) → Reg16Store

abbrev pub find_reg8_global_def : Reg8 → Build Value
find_reg8_global_def Reg8.reg8_a = pure (global Global.a_reg)
find_reg8_global_def Reg8.reg8_b = pure (global Global.b_reg)
find_reg8_global_def Reg8.reg8_c = pure (global Global.c_reg)
find_reg8_global_def Reg8.reg8_d = pure (global Global.d_reg)
find_reg8_global_def Reg8.reg8_e = pure (global Global.e_reg)
find_reg8_global_def Reg8.reg8_h = pure (global Global.h_reg)
find_reg8_global_def Reg8.reg8_l = pure (global Global.l_reg)
find_reg8_global_def _ = fail

abbrev pub build_f_reg : Build Value
build_f_reg = do
  z ← new_load i1 (global Global.z_flag)
  n ← new_load i1 (global Global.n_flag)
  h ← new_load i1 (global Global.h_flag)
  c ← new_load i1 (global Global.c_flag)
  z8 ← new_select z (new_int i8 0x80) (new_int i8 0)
  n8 ← new_select n (new_int i8 0x40) (new_int i8 0)
  h8 ← new_select h (new_int i8 0x20) (new_int i8 0)
  c8 ← new_select c (new_int i8 0x10) (new_int i8 0)
  f ← new_or z8 n8
  f' ← new_or f h8
  new_or f' c8

abbrev pub update_f_reg : Value → Build (Unit {0})
update_f_reg val = do
  z7 ← new_lshr val (new_int i8 7)
  z ← new_trunc z7 i1
  n6 ← new_lshr val (new_int i8 6)
  n ← new_trunc n6 i1
  h5 ← new_lshr val (new_int i8 5)
  h ← new_trunc h5 i1
  c4 ← new_lshr val (new_int i8 4)
  c ← new_trunc c4 i1
  new_store z (global Global.z_flag)
  new_store n (global Global.n_flag)
  new_store h (global Global.h_flag)
  new_store c (global Global.c_flag)

abbrev pub find_reg16_global_defs : Reg16 → Build Reg16Store
find_reg16_global_defs Reg16.reg16_bc =
    pure (split_up (global Global.b_reg) (global Global.c_reg) false)
find_reg16_global_defs Reg16.reg16_de =
    pure (split_up (global Global.d_reg) (global Global.e_reg) false)
find_reg16_global_defs Reg16.reg16_hl =
    pure (split_up (global Global.h_reg) (global Global.l_reg) false)
find_reg16_global_defs Reg16.reg16_af =
    build_f_reg >>= λ f. pure (split_up (global Global.a_reg) f true)
find_reg16_global_defs Reg16.reg16_sp = pure (whole (global Global.sp))
find_reg16_global_defs Reg16.reg16_unknown = fail

-- The lower half of a pair as 16 bits.
abbrev pub read_lsb16 : Bool → Value → Build Value
read_lsb16 true lsb = new_zext lsb i16
read_lsb16 false lsb = new_load i8 lsb >>= λ lsb_val. new_zext lsb_val i16

abbrev pub read_reg16 : Reg16Store → Build Value
read_reg16 (split_up msb lsb has_flag_reg) = do
  msb_val ← new_load i8 msb
  lsb16 ← read_lsb16 has_flag_reg lsb
  msb16 ← new_zext msb_val i16
  msb_shifted ← new_shl msb16 (new_int i16 8)
  new_or msb_shifted lsb16
read_reg16 (whole val) = new_load i16 val

abbrev pub update_reg16 : Reg16Store → Value → Build (Unit {0})
update_reg16 (split_up msb lsb has_flag_reg) new_val = do
  msb16 ← new_lshr new_val (new_int i16 8)
  msb_val ← new_trunc msb16 i8
  lsb_val ← new_trunc new_val i8
  new_store msb_val msb
  if has_flag_reg then update_f_reg lsb_val else new_store lsb_val lsb
update_reg16 (whole val) new_val = new_store new_val val

-- `destReg`, with the register's address, or `destHL`, with the address in memory.
pub data Dest : Type 0 where
  dest_reg dest_hl : (location : Value) → Dest

-- The operand and where the result goes.
abbrev pub resolve_register : Reg8 → Build (Value × Dest)
resolve_register src = do
  src_reg ← find_reg8_global_def src
  operand ← new_load i8 src_reg
  pure (operand, dest_reg src_reg)

abbrev pub resolve_operand_and_dest : Reg8 → Build (Value × Dest)
resolve_operand_and_dest Reg8.reg8_hl_indirect = do
  hl_reg ← find_reg16_global_defs reg16_hl
  hl_val ← read_reg16 hl_reg
  operand ← read_memory hl_val
  pure (operand, dest_hl hl_val)
resolve_operand_and_dest src = resolve_register src

abbrev pub increase_cycles_by : ℕ → Build (Unit {0})
increase_cycles_by n = do
  cycles ← new_load i32 (global Global.cycles)
  cycles_inc ← new_add cycles (new_int i32 n)
  new_store cycles_inc (global Global.cycles)

abbrev pub increase_cycles : Instruction → Build (Unit {0})
increase_cycles instr = increase_cycles_by instr.base_m_cycles

abbrev pub increase_additional_cycles : Instruction → Build (Unit {0})
increase_additional_cycles instr =
    if instr.additional_m_cycles == 0 then pure tt else increase_cycles_by instr.additional_m_cycles

-- buildOpcodeFunc: the code of the function that it makes, and the type of the parameter that the
-- function is declared with, where there is one.
abbrev pub build_opcode_func : Instruction → Option Width → Build (Unit {0}) → Build (Option Width)
build_opcode_func instr parameter build = build >> increase_cycles instr >> pure parameter

abbrev pub build_void_func : Instruction → Build (Unit {0}) → Build (Option Width)
build_void_func instr build = build_opcode_func instr none build

abbrev pub build_param_func : Instruction → Width → Build (Unit {0}) → Build (Option Width)
build_param_func instr width build = build_opcode_func instr (some width) build

abbrev pub calculate_high_page_address : Value → Build Value
calculate_high_page_address val = new_zext val i16 >>= λ val16. new_add (new_int i16 0xFF00) val16

abbrev pub load_condition : JumpCondition → Build Value
load_condition JumpCondition.c = new_load i1 (global Global.c_flag)
load_condition JumpCondition.nc =
    new_load i1 (global Global.c_flag) >>= λ c. new_xor c (new_int i1 1)
load_condition JumpCondition.z = new_load i1 (global Global.z_flag)
load_condition _ = new_load i1 (global Global.z_flag) >>= λ z. new_xor z (new_int i1 1)

abbrev pub push_return_address : Value → Build (Unit {0})
push_return_address ret_addr = do
  sp ← find_reg16_global_defs reg16_sp
  sp_val ← read_reg16 sp
  shifted ← new_lshr ret_addr (new_int i16 8)
  msb ← new_trunc shifted i8
  lsb ← new_trunc ret_addr i8
  sp_val' ← new_sub sp_val (new_int i16 1)
  update_reg16 sp sp_val'
  update_memory sp_val' msb
  sp_val'' ← new_sub sp_val' (new_int i16 1)
  update_reg16 sp sp_val''
  update_memory sp_val'' lsb

abbrev pub pop_return_address : Build Value
pop_return_address = do
  sp ← find_reg16_global_defs reg16_sp
  sp_val ← read_reg16 sp
  lsb ← read_memory sp_val
  sp_val' ← new_add sp_val (new_int i16 1)
  update_reg16 sp sp_val'
  msb ← read_memory sp_val'
  sp_val'' ← new_add sp_val' (new_int i16 1)
  update_reg16 sp sp_val''
  lsb16 ← new_zext lsb i16
  msb16 ← new_zext msb i16
  shifted ← new_shl msb16 (new_int i16 8)
  new_or shifted lsb16
