-- ===== src/Codegen/Arithmetic/Eight.antt =====
-- internal/codegen/arithmetic.go, perform8BitArithmetic.
use gbrc.Common.{Bool, true, false, Option, none, some, if◌then◌else◌}
use gbrc.Decoder.Types.{reg8_a}
use gbrc.Codegen.Ir.{i1, i8, i16, eq, uge, ult, Global, Value, new_int, global}
use gbrc.Codegen.Build.{
  Build, ◌>>=◌, ◌>>◌, pure, new_load, new_store, new_add, new_sub, new_and, new_or, new_xor,
  new_zext, new_trunc, new_icmp,
}
use gbrc.Codegen.Helpers.{Dest, find_reg8_global_def}
use gbrc.Codegen.Arithmetic.{Bit8ArithmeticOp, Outcome, write_dest}

abbrev load_a : Build Value
load_a = find_reg8_global_def reg8_a >>= λ a. new_load i8 a

abbrev load_carry : Bool → Build Value
load_carry true = new_load i1 (global Global.c_flag) >>= λ c. new_zext c i16
load_carry false = pure (new_int i16 0)

abbrev outcome_add : Value → Bool → Build Outcome
outcome_add operand to_include_carry_flag = do
  a_val ← load_a
  a16 ← new_zext a_val i16
  operand16 ← new_zext operand i16
  c16 ← load_carry to_include_carry_flag
  sum ← new_add a16 operand16
  result16 ← new_add sum c16
  a_low ← new_and a16 (new_int i16 0x0F)
  operand_low ← new_and operand16 (new_int i16 0x0F)
  low ← new_add a_low operand_low
  sum_low ← new_add low c16
  result ← new_trunc result16 i8
  h_flag ← new_icmp uge sum_low (new_int i16 0x10)
  c_flag ← new_icmp uge result16 (new_int i16 0x100)
  pure (record { result = result; n_flag = new_int i1 0; h_flag = h_flag; c_flag = some c_flag })

abbrev outcome_sub : Value → Bool → Build Outcome
outcome_sub operand to_include_carry_flag = do
  a_val ← load_a
  a16 ← new_zext a_val i16
  operand16 ← new_zext operand i16
  c16 ← load_carry to_include_carry_flag
  difference ← new_sub a16 operand16
  result16 ← new_sub difference c16
  a_low ← new_and a16 (new_int i16 0x0F)
  operand_low ← new_and operand16 (new_int i16 0x0F)
  rhs_low ← new_add operand_low c16
  rhs ← new_add operand16 c16
  result ← new_trunc result16 i8
  h_flag ← new_icmp ult a_low rhs_low
  c_flag ← new_icmp ult a16 rhs
  pure (record { result = result; n_flag = new_int i1 1; h_flag = h_flag; c_flag = some c_flag })

-- For these two no caller includes the carry flag.
abbrev outcome_increase : Value → Bool → Build Outcome
outcome_increase operand to_include_carry_flag = do
  load_carry to_include_carry_flag
  result ← new_add operand (new_int i8 1)
  operand_low ← new_and operand (new_int i8 0x0F)
  sum_low ← new_add operand_low (new_int i8 1)
  h_flag ← new_icmp uge sum_low (new_int i8 0x10)
  pure (record { result = result; n_flag = new_int i1 0; h_flag = h_flag; c_flag = none })

abbrev outcome_decrease : Value → Bool → Build Outcome
outcome_decrease operand to_include_carry_flag = do
  load_carry to_include_carry_flag
  result ← new_sub operand (new_int i8 1)
  operand_low ← new_and operand (new_int i8 0x0F)
  h_flag ← new_icmp ult operand_low (new_int i8 1)
  pure (record { result = result; n_flag = new_int i1 1; h_flag = h_flag; c_flag = none })

-- The three operations of logic, which differ in the instruction and in the half carry.
abbrev outcome_logic : (Value → Value → Build Value) → (half : Value) → Value → Bool → Build Outcome
outcome_logic combine half operand to_include_carry_flag = do
  a_val ← load_a
  load_carry to_include_carry_flag
  result ← combine a_val operand
  pure (record {
    result = result;
    n_flag = new_int i1 0;
    h_flag = half;
    c_flag = some (new_int i1 0);
  })

-- The switch on the operation, with the loads before it.
abbrev pub outcome_of : Bit8ArithmeticOp → Value → Bool → Build Outcome
outcome_of Bit8ArithmeticOp.bit8_op_add = outcome_add
outcome_of Bit8ArithmeticOp.bit8_op_sub = outcome_sub
outcome_of Bit8ArithmeticOp.bit8_op_compare = outcome_sub
outcome_of Bit8ArithmeticOp.bit8_op_increase = outcome_increase
outcome_of Bit8ArithmeticOp.bit8_op_decrease = outcome_decrease
outcome_of Bit8ArithmeticOp.bit8_op_and = outcome_logic new_and (new_int i1 1)
outcome_of Bit8ArithmeticOp.bit8_op_or = outcome_logic new_or (new_int i1 0)
outcome_of Bit8ArithmeticOp.bit8_op_xor = outcome_logic new_xor (new_int i1 0)

abbrev pub is_compare : Bit8ArithmeticOp → Bool
is_compare Bit8ArithmeticOp.bit8_op_compare = true
is_compare _ = false

abbrev store_some : Option Value → Value → Build (Unit {0})
store_some none pointer = pure tt
store_some (some value) pointer = new_store value pointer

abbrev pub perform_8bit_arithmetic :
    Bit8ArithmeticOp → (operand : Value) → Dest → (to_include_carry_flag : Bool) → Build (Unit {0})
perform_8bit_arithmetic op operand dest to_include_carry_flag = do
  o ← outcome_of op operand to_include_carry_flag
  z_flag ← new_icmp eq o.result (new_int i8 0)
  (if is_compare op then pure tt else write_dest dest o.result)
  new_store z_flag (global Global.z_flag)
  new_store o.n_flag (global Global.n_flag)
  new_store o.h_flag (global Global.h_flag)
  store_some o.c_flag (global Global.c_flag)
