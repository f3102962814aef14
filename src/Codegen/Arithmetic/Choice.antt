-- ===== src/Codegen/Arithmetic/Choice.antt =====
-- internal/codegen/arithmetic.go: the operation for a type of instruction.
use gbrc.Decoder.Types.{InstructionType, InstructionType as T}
use gbrc.Codegen.Build.{Build, pure, fail}
use gbrc.Codegen.Arithmetic.{Bit8ArithmeticOp, BitwiseOp, BitOp}

abbrev pub bitwise_op_from_instr_type : InstructionType → Build BitwiseOp
bitwise_op_from_instr_type T.rla = pure BitwiseOp.rotate_left
bitwise_op_from_instr_type T.cb_rl_r8 = pure BitwiseOp.rotate_left
bitwise_op_from_instr_type T.cb_rl_hl = pure BitwiseOp.rotate_left
bitwise_op_from_instr_type T.rlca = pure BitwiseOp.rotate_left_circular
bitwise_op_from_instr_type T.cb_rlc_r8 = pure BitwiseOp.rotate_left_circular
bitwise_op_from_instr_type T.cb_rlc_hl = pure BitwiseOp.rotate_left_circular
bitwise_op_from_instr_type T.rra = pure BitwiseOp.rotate_right
bitwise_op_from_instr_type T.cb_rr_r8 = pure BitwiseOp.rotate_right
bitwise_op_from_instr_type T.cb_rr_hl = pure BitwiseOp.rotate_right
bitwise_op_from_instr_type T.rrca = pure BitwiseOp.rotate_right_circular
bitwise_op_from_instr_type T.cb_rrc_r8 = pure BitwiseOp.rotate_right_circular
bitwise_op_from_instr_type T.cb_rrc_hl = pure BitwiseOp.rotate_right_circular
bitwise_op_from_instr_type T.cb_sla_r8 = pure BitwiseOp.shift_left
bitwise_op_from_instr_type T.cb_sla_hl = pure BitwiseOp.shift_left
bitwise_op_from_instr_type T.cb_sra_r8 = pure BitwiseOp.shift_right_arithmetic
bitwise_op_from_instr_type T.cb_sra_hl = pure BitwiseOp.shift_right_arithmetic
bitwise_op_from_instr_type T.cb_srl_r8 = pure BitwiseOp.shift_right_logical
bitwise_op_from_instr_type T.cb_srl_hl = pure BitwiseOp.shift_right_logical
bitwise_op_from_instr_type T.cb_swap_r8 = pure BitwiseOp.swap
bitwise_op_from_instr_type T.cb_swap_hl = pure BitwiseOp.swap
bitwise_op_from_instr_type _ = fail

abbrev pub bit_op_from_instr_type : InstructionType → Build BitOp
bit_op_from_instr_type T.cb_bit_r8 = pure BitOp.bit_op_test
bit_op_from_instr_type T.cb_bit_hl = pure BitOp.bit_op_test
bit_op_from_instr_type T.cb_res_r8 = pure BitOp.bit_op_reset
bit_op_from_instr_type T.cb_res_hl = pure BitOp.bit_op_reset
bit_op_from_instr_type T.cb_set_r8 = pure BitOp.bit_op_set
bit_op_from_instr_type T.cb_set_hl = pure BitOp.bit_op_set
bit_op_from_instr_type _ = fail

abbrev pub bit8_arithmetic_instr_type_to_op_type : InstructionType → Build Bit8ArithmeticOp
bit8_arithmetic_instr_type_to_op_type T.add_r8 = pure Bit8ArithmeticOp.bit8_op_add
bit8_arithmetic_instr_type_to_op_type T.add_hl = pure Bit8ArithmeticOp.bit8_op_add
bit8_arithmetic_instr_type_to_op_type T.add_n = pure Bit8ArithmeticOp.bit8_op_add
bit8_arithmetic_instr_type_to_op_type T.adc_r8 = pure Bit8ArithmeticOp.bit8_op_add
bit8_arithmetic_instr_type_to_op_type T.adc_hl = pure Bit8ArithmeticOp.bit8_op_add
bit8_arithmetic_instr_type_to_op_type T.adc_n = pure Bit8ArithmeticOp.bit8_op_add
bit8_arithmetic_instr_type_to_op_type T.sub_r8 = pure Bit8ArithmeticOp.bit8_op_sub
bit8_arithmetic_instr_type_to_op_type T.sub_hl = pure Bit8ArithmeticOp.bit8_op_sub
bit8_arithmetic_instr_type_to_op_type T.sub_n = pure Bit8ArithmeticOp.bit8_op_sub
bit8_arithmetic_instr_type_to_op_type T.sbc_r8 = pure Bit8ArithmeticOp.bit8_op_sub
bit8_arithmetic_instr_type_to_op_type T.sbc_hl = pure Bit8ArithmeticOp.bit8_op_sub
bit8_arithmetic_instr_type_to_op_type T.sbc_n = pure Bit8ArithmeticOp.bit8_op_sub
bit8_arithmetic_instr_type_to_op_type T.cp_r8 = pure Bit8ArithmeticOp.bit8_op_compare
bit8_arithmetic_instr_type_to_op_type T.cp_hl = pure Bit8ArithmeticOp.bit8_op_compare
bit8_arithmetic_instr_type_to_op_type T.cp_n = pure Bit8ArithmeticOp.bit8_op_compare
bit8_arithmetic_instr_type_to_op_type T.inc_r8 = pure Bit8ArithmeticOp.bit8_op_increase
bit8_arithmetic_instr_type_to_op_type T.inc_hl = pure Bit8ArithmeticOp.bit8_op_increase
bit8_arithmetic_instr_type_to_op_type T.dec_r8 = pure Bit8ArithmeticOp.bit8_op_decrease
bit8_arithmetic_instr_type_to_op_type T.dec_hl = pure Bit8ArithmeticOp.bit8_op_decrease
bit8_arithmetic_instr_type_to_op_type T.and_r8 = pure Bit8ArithmeticOp.bit8_op_and
bit8_arithmetic_instr_type_to_op_type T.and_hl = pure Bit8ArithmeticOp.bit8_op_and
bit8_arithmetic_instr_type_to_op_type T.and_n = pure Bit8ArithmeticOp.bit8_op_and
bit8_arithmetic_instr_type_to_op_type T.or_r8 = pure Bit8ArithmeticOp.bit8_op_or
bit8_arithmetic_instr_type_to_op_type T.or_hl = pure Bit8ArithmeticOp.bit8_op_or
bit8_arithmetic_instr_type_to_op_type T.or_n = pure Bit8ArithmeticOp.bit8_op_or
bit8_arithmetic_instr_type_to_op_type T.xor_r8 = pure Bit8ArithmeticOp.bit8_op_xor
bit8_arithmetic_instr_type_to_op_type T.xor_hl = pure Bit8ArithmeticOp.bit8_op_xor
bit8_arithmetic_instr_type_to_op_type T.xor_n = pure Bit8ArithmeticOp.bit8_op_xor
bit8_arithmetic_instr_type_to_op_type _ = fail
