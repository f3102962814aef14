-- ===== src/Codegen/Arithmetic.antt =====
-- internal/codegen/arithmetic.go: the kinds of operations, and where their results go.
pub mod Eight
pub mod Rotate
pub mod Bit
pub mod Choice
use gbrc.Common.{Option}
use gbrc.Codegen.Ir.{Value}
use gbrc.Codegen.Build.{Build, new_store, update_memory}
use gbrc.Codegen.Helpers.{Dest, dest_reg, dest_hl}

pub data Bit8ArithmeticOp : Type 0 where
  bit8_op_add bit8_op_sub bit8_op_compare bit8_op_increase bit8_op_decrease : Bit8ArithmeticOp
  bit8_op_and bit8_op_or bit8_op_xor : Bit8ArithmeticOp

pub data BitwiseOp : Type 0 where
  rotate_left_circular rotate_right_circular rotate_left rotate_right shift_left : BitwiseOp
  shift_right_arithmetic shift_right_logical swap : BitwiseOp

pub data BitOp : Type 0 where
  bit_op_test bit_op_reset bit_op_set : BitOp

-- The variables `result`, `nFlag`, `hFlag` and `cFlag`; `none` is nil.
pub record Outcome : Type 0 where
  pub result : Value
  pub n_flag : Value
  pub h_flag : Value
  pub c_flag : Option Value

-- The switch on the destination.
abbrev pub write_dest : Dest → Value → Build (Unit {0})
write_dest (dest_reg location) result = new_store result location
write_dest (dest_hl location) result = update_memory location result
