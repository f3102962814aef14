-- ===== src/Codegen/Arithmetic/Bit.antt =====
-- internal/codegen/arithmetic.go, performBitOp and calculateOffsetFlags.
use gbrc.Codegen.Ir.{i1, i8, i16, eq, ne, Global, Value, new_int, global}
use gbrc.Codegen.Build.{
  Build, ◌>>=◌, ◌>>◌, pure, new_store, new_add, new_and, new_or, new_xor, new_shl, new_icmp,
}
use gbrc.Codegen.Helpers.{Dest}
use gbrc.Codegen.Arithmetic.{BitOp, write_dest}

-- The switch, with the mask computed. The constant of -1 is the byte of ones.
abbrev with_mask : BitOp → (mask operand : Value) → Dest → Build (Unit {0})
with_mask BitOp.bit_op_test mask operand dest = do
  bit_value ← new_and operand mask
  z_flag ← new_icmp eq bit_value (new_int i8 0)
  new_store z_flag (global Global.z_flag)
  new_store (new_int i1 0) (global Global.n_flag)
  new_store (new_int i1 1) (global Global.h_flag)
with_mask BitOp.bit_op_reset mask operand dest = do
  not_mask ← new_xor mask (new_int i8 0xFF)
  result ← new_and operand not_mask
  write_dest dest result
with_mask BitOp.bit_op_set mask operand dest =
    new_or operand mask >>= λ result. write_dest dest result

abbrev pub perform_bit_op : BitOp → (bit_index operand : Value) → Dest → Build (Unit {0})
perform_bit_op op bit_index operand dest =
    new_shl (new_int i8 1) bit_index >>= λ mask. with_mask op mask operand dest

-- The half carry and the carry of an addition to the stack pointer.
abbrev pub calculate_offset_flags : (sp_val offset_signed : Value) → Build (Value × Value)
calculate_offset_flags sp_val offset_signed = do
  result ← new_add sp_val offset_signed
  different ← new_xor sp_val offset_signed
  carries ← new_xor different result
  h_masked ← new_and carries (new_int i16 0x10)
  c_masked ← new_and carries (new_int i16 0x100)
  h_flag ← new_icmp ne h_masked (new_int i16 0)
  c_flag ← new_icmp ne c_masked (new_int i16 0)
  pure (h_flag, c_flag)
