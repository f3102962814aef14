-- ===== src/Decoder/Types.antt =====
-- internal/decoder/decoder.go: the types of a decoded instruction.
use Prim.Native.String.{String}
use gbrc.Common.{ℕ, Bool, false}

pub data InstructionType : Type 0 where
  unknown nop ld_r8_r8 ld_r8_n ld_r8_hl ld_hl_r8 ld_hl_n ld_a_bc ld_a_de : InstructionType
  ld_bc_a ld_de_a ld_a_nn ld_nn_a ldh_a_c ldh_c_a ldh_a_n ldh_n_a ld_a_hl_dec : InstructionType
  ld_hl_dec_a ld_a_hl_inc ld_hl_inc_a ld_r16_nn ld_nn_sp ld_sp_hl push_r16 : InstructionType
  pop_r16 ld_hl_sp_e add_r8 add_hl add_n adc_r8 adc_hl adc_n sub_r8 sub_hl : InstructionType
  sub_n sbc_r8 sbc_hl sbc_n cp_r8 cp_hl cp_n inc_r8 inc_hl dec_r8 dec_hl : InstructionType
  and_r8 and_hl and_n or_r8 or_hl or_n xor_r8 xor_hl xor_n ccf scf daa cpl : InstructionType
  inc_r16 dec_r16 add_hl_r16 add_sp_e rlca rrca rla rra jp_nn jp_hl jp_cc_nn : InstructionType
  jr_e jr_cc_e call_nn call_cc_nn ret ret_cc reti rst_n di ei cb_rlc_r8 : InstructionType
  cb_rlc_hl cb_rrc_r8 cb_rrc_hl cb_rl_r8 cb_rl_hl cb_rr_r8 cb_rr_hl cb_sla_r8 : InstructionType
  cb_sla_hl cb_sra_r8 cb_sra_hl cb_swap_r8 cb_swap_hl cb_srl_r8 cb_srl_hl : InstructionType
  cb_bit_r8 cb_bit_hl cb_res_r8 cb_res_hl cb_set_r8 cb_set_hl halt stop : InstructionType

pub data Reg8 : Type 0 where
  reg8_unknown reg8_b reg8_c reg8_d reg8_e reg8_h reg8_l reg8_hl_indirect reg8_a : Reg8

pub data Reg16 : Type 0 where
  reg16_unknown reg16_bc reg16_de reg16_hl reg16_sp reg16_af : Reg16

pub data JumpCondition : Type 0 where
  nz z nc c jump_condition_unknown : JumpCondition

-- `address`, `imm16_bit` and `call_function_address` are 16 bits wide, the other numbers 8.
pub record Instruction : Type 0 where
  pub address : ℕ
  pub mnemonic : String
  pub instruction_type : InstructionType
  pub length : ℕ
  pub base_m_cycles : ℕ
  pub additional_m_cycles : ℕ
  pub reg8_src : Reg8
  pub reg8_dest : Reg8
  pub reg16 : Reg16
  pub imm8_bit : ℕ
  pub imm16_bit : ℕ
  pub is_cb_prefixed : Bool
  pub jump_condition : JumpCondition
  pub call_function_address : ℕ
  pub bit_op_index : ℕ

-- `&Instruction{Address: addr}`: every other field has its zero value.
abbrev pub blank : ℕ → Instruction
blank addr = record {
  address = addr;
  mnemonic = "";
  instruction_type = unknown;
  length = 0;
  base_m_cycles = 0;
  additional_m_cycles = 0;
  reg8_src = reg8_unknown;
  reg8_dest = reg8_unknown;
  reg16 = reg16_unknown;
  imm8_bit = 0;
  imm16_bit = 0;
  is_cb_prefixed = false;
  jump_condition = nz;
  call_function_address = 0;
  bit_op_index = 0;
}
