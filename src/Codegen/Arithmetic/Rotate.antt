-- ===== src/Codegen/Arithmetic/Rotate.antt =====
-- internal/codegen/arithmetic.go, performBitwise.
use gbrc.Common.{Bool, true, false}
use gbrc.Codegen.Ir.{i1, i8, eq, Global, Value, new_int, global}
use gbrc.Codegen.Build.{
  Build, ◌>>=◌, ◌>>◌, pure, new_load, new_store, new_and, new_or, new_shl, new_lshr, new_zext,
  new_trunc, new_icmp,
}
use gbrc.Codegen.Helpers.{Dest}
use gbrc.Codegen.Arithmetic.{BitwiseOp, write_dest}

abbrev rotated : BitwiseOp → Value → Build (Value × Value)
rotated BitwiseOp.rotate_left operand = do
  left_shifted ← new_shl operand (new_int i8 1)
  last_bit ← new_lshr operand (new_int i8 7)
  c_val ← new_load i1 (global Global.c_flag)
  c8 ← new_zext c_val i8
  result ← new_or left_shifted c8
  c_flag ← new_trunc last_bit i1
  pure (result, c_flag)
rotated BitwiseOp.rotate_left_circular operand = do
  left_shifted ← new_shl operand (new_int i8 1)
  last_bit ← new_lshr operand (new_int i8 7)
  result ← new_or left_shifted last_bit
  c_flag ← new_trunc last_bit i1
  pure (result, c_flag)
rotated BitwiseOp.rotate_right operand = do
  right_shifted ← new_lshr operand (new_int i8 1)
  first_bit ← new_and operand (new_int i8 1)
  c_val ← new_load i1 (global Global.c_flag)
  c8 ← new_zext c_val i8
  high ← new_shl c8 (new_int i8 7)
  result ← new_or high right_shifted
  c_flag ← new_trunc first_bit i1
  pure (result, c_flag)
rotated BitwiseOp.rotate_right_circular operand = do
  right_shifted ← new_lshr operand (new_int i8 1)
  first_bit ← new_and operand (new_int i8 1)
  high ← new_shl first_bit (new_int i8 7)
  result ← new_or high right_shifted
  c_flag ← new_trunc first_bit i1
  pure (result, c_flag)
rotated BitwiseOp.shift_left operand = do
  last_bit ← new_lshr operand (new_int i8 7)
  result ← new_shl operand (new_int i8 1)
  c_flag ← new_trunc last_bit i1
  pure (result, c_flag)
rotated BitwiseOp.shift_right_arithmetic operand = do
  right_shifted ← new_lshr operand (new_int i8 1)
  first_bit ← new_and operand (new_int i8 1)
  last_bit ← new_and operand (new_int i8 0x80)
  result ← new_or right_shifted last_bit
  c_flag ← new_trunc first_bit i1
  pure (result, c_flag)
rotated BitwiseOp.shift_right_logical operand = do
  first_bit ← new_and operand (new_int i8 1)
  result ← new_lshr operand (new_int i8 1)
  c_flag ← new_trunc first_bit i1
  pure (result, c_flag)
rotated BitwiseOp.swap operand = do
  low_nibble ← new_shl operand (new_int i8 4)
  high_nibble ← new_lshr operand (new_int i8 4)
  result ← new_or low_nibble high_nibble
  pure (result, new_int i1 0)

abbrev store_zero_flag : Bool → Value → Build (Unit {0})
store_zero_flag true result =
    new_icmp eq result (new_int i8 0) >>= λ z_flag. new_store z_flag (global Global.z_flag)
store_zero_flag false result = pure tt

abbrev pub perform_bitwise :
    BitwiseOp → (operand : Value) → Dest → (update_zero_flag : Bool) → Build (Unit {0})
perform_bitwise op operand dest update_zero_flag = do
  (result, c_flag) ← rotated op operand
  store_zero_flag update_zero_flag result
  write_dest dest result
  new_store (new_int i1 0) (global Global.n_flag)
  new_store (new_int i1 0) (global Global.h_flag)
  new_store c_flag (global Global.c_flag)
