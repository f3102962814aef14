-- ===== src/Codegen/Ir.antt =====
-- The part of LLVM's instructions that internal/codegen emits, as data: one constructor for each
-- call of the builder that it makes inside the functions of opcodes.
use gbrc.Common.{ℕ}

-- `types.I1` to `types.I32`
pub data Width : Type 0 where
  i1 i8 i16 i32 : Width

abbrev pub bits : Width → ℕ
bits i1 = 1
bits i8 = 8
bits i16 = 16
bits i32 = 32

-- The globals of the module that opcodes use, without `ram`, which they reach by the functions.
pub data Global : Type 0 where
  cycles a_reg b_reg c_reg d_reg e_reg h_reg l_reg z_flag n_flag h_flag c_flag pc sp ime : Global

abbrev pub global_width : Global → Width
global_width cycles = i32
global_width z_flag = i1
global_width n_flag = i1
global_width h_flag = i1
global_width c_flag = i1
global_width pc = i16
global_width sp = i16
global_width _ = i8

-- `value.Value`: a constant, the function's parameter, a global's address, or what an earlier
-- instruction of the same code computed, by its index.
pub data Value : Type 0 where
  new_int : Width → ℕ → Value
  param : Value
  global : Global → Value
  local : ℕ → Value

pub data Binary : Type 0 where
  add sub and or xor shl lshr : Binary

pub data Cast : Type 0 where
  zext sext trunc : Cast

-- `enum.IPredEQ` and so on
pub data Predicate : Type 0 where
  eq ne uge ugt ult : Predicate

-- The calls are those of `cg_read_memory` and `write_ram`.
pub data Inst : Type 0 where
  load : Width → Value → Inst
  store : Value → Value → Inst
  binary : Binary → Value → Value → Inst
  cast : Cast → Value → Width → Inst
  icmp : Predicate → Value → Value → Inst
  select : Value → Value → Value → Inst
  call_read_mem : Value → Inst
  call_write_ram : Value → Value → Inst
