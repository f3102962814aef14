-- ===== src/Decoder/Encode.antt =====
-- The instruction set the other way round: an assembler from an instruction's kind and operands to
-- its bytes. It uses neither the decoder's case labels nor the length that the decoder gives.
use gbrc.Common.{ℕ, zero, suc, ◌+◌, ◌*◌, ◌/◌, ◌%◌, Option, none, some, List, [], ◌∷◌}
use gbrc.Decoder.Types.{
  Reg8, reg8_unknown, reg8_b, reg8_c, reg8_d, reg8_e, reg8_h, reg8_l, reg8_hl_indirect, reg8_a,
}
use gbrc.Decoder.Types.{Reg16, reg16_unknown, reg16_bc, reg16_de, reg16_hl, reg16_sp, reg16_af}
use gbrc.Decoder.Types.{JumpCondition, nz, z, nc, c, jump_condition_unknown}
use gbrc.Decoder.Types.{Instruction, InstructionType, InstructionType as T}

-- The three bits that name a register.
pub reg8_code : Reg8 → ℕ
reg8_code reg8_b = 0
reg8_code reg8_c = 1
reg8_code reg8_d = 2
reg8_code reg8_e = 3
reg8_code reg8_h = 4
reg8_code reg8_l = 5
reg8_code reg8_hl_indirect = 6
reg8_code reg8_a = 7
reg8_code reg8_unknown = 8

-- The two bits that name a register pair; AF takes the place of SP on the stack.
pub reg16_code : Reg16 → ℕ
reg16_code reg16_bc = 0
reg16_code reg16_de = 1
reg16_code reg16_hl = 2
reg16_code reg16_sp = 3
reg16_code reg16_af = 3
reg16_code reg16_unknown = 4

pub condition_code : JumpCondition → ℕ
condition_code nz = 0
condition_code z = 1
condition_code nc = 2
condition_code c = 3
condition_code jump_condition_unknown = 4

-- A plain opcode, or one that holds a register, a pair, a condition or a restart target; the
-- second byte of a prefixed instruction holds a register and maybe a bit number.
pub data Form : Type 0 where
  plain from_src to_dest on_pair on_condition to_target : ℕ → Form
  move : Form
  prefixed : ℕ → Form
  illegal : Form

pub form_of : InstructionType → Form
form_of T.unknown = illegal
form_of T.nop = plain 0x00
form_of T.ld_r8_r8 = move
form_of T.ld_r8_n = to_dest 0x06
form_of T.ld_r8_hl = to_dest 0x46
form_of T.ld_hl_r8 = from_src 0x70
form_of T.ld_hl_n = plain 0x36
form_of T.ld_a_bc = plain 0x0A
form_of T.ld_a_de = plain 0x1A
form_of T.ld_bc_a = plain 0x02
form_of T.ld_de_a = plain 0x12
form_of T.ld_a_nn = plain 0xFA
form_of T.ld_nn_a = plain 0xEA
form_of T.ldh_a_c = plain 0xF2
form_of T.ldh_c_a = plain 0xE2
form_of T.ldh_a_n = plain 0xF0
form_of T.ldh_n_a = plain 0xE0
form_of T.ld_a_hl_dec = plain 0x3A
form_of T.ld_hl_dec_a = plain 0x32
form_of T.ld_a_hl_inc = plain 0x2A
form_of T.ld_hl_inc_a = plain 0x22
form_of T.ld_r16_nn = on_pair 0x01
form_of T.ld_nn_sp = plain 0x08
form_of T.ld_sp_hl = plain 0xF9
form_of T.push_r16 = on_pair 0xC5
form_of T.pop_r16 = on_pair 0xC1
form_of T.ld_hl_sp_e = plain 0xF8
form_of T.add_r8 = from_src 0x80
form_of T.add_hl = plain 0x86
form_of T.add_n = plain 0xC6
form_of T.adc_r8 = from_src 0x88
form_of T.adc_hl = plain 0x8E
form_of T.adc_n = plain 0xCE
form_of T.sub_r8 = from_src 0x90
form_of T.sub_hl = plain 0x96
form_of T.sub_n = plain 0xD6
form_of T.sbc_r8 = from_src 0x98
form_of T.sbc_hl = plain 0x9E
form_of T.sbc_n = plain 0xDE
form_of T.cp_r8 = from_src 0xB8
form_of T.cp_hl = plain 0xBE
form_of T.cp_n = plain 0xFE
form_of T.inc_r8 = to_dest 0x04
form_of T.inc_hl = plain 0x34
form_of T.dec_r8 = to_dest 0x05
form_of T.dec_hl = plain 0x35
form_of T.and_r8 = from_src 0xA0
form_of T.and_hl = plain 0xA6
form_of T.and_n = plain 0xE6
form_of T.or_r8 = from_src 0xB0
form_of T.or_hl = plain 0xB6
form_of T.or_n = plain 0xF6
form_of T.xor_r8 = from_src 0xA8
form_of T.xor_hl = plain 0xAE
form_of T.xor_n = plain 0xEE
form_of T.ccf = plain 0x3F
form_of T.scf = plain 0x37
form_of T.daa = plain 0x27
form_of T.cpl = plain 0x2F
form_of T.inc_r16 = on_pair 0x03
form_of T.dec_r16 = on_pair 0x0B
form_of T.add_hl_r16 = on_pair 0x09
form_of T.add_sp_e = plain 0xE8
form_of T.rlca = plain 0x07
form_of T.rrca = plain 0x0F
form_of T.rla = plain 0x17
form_of T.rra = plain 0x1F
form_of T.jp_nn = plain 0xC3
form_of T.jp_hl = plain 0xE9
form_of T.jp_cc_nn = on_condition 0xC2
form_of T.jr_e = plain 0x18
form_of T.jr_cc_e = on_condition 0x20
form_of T.call_nn = plain 0xCD
form_of T.call_cc_nn = on_condition 0xC4
form_of T.ret = plain 0xC9
form_of T.ret_cc = on_condition 0xC0
form_of T.reti = plain 0xD9
form_of T.rst_n = to_target 0xC7
form_of T.di = plain 0xF3
form_of T.ei = plain 0xFB
form_of T.cb_rlc_r8 = prefixed 0x00
form_of T.cb_rlc_hl = prefixed 0x00
form_of T.cb_rrc_r8 = prefixed 0x08
form_of T.cb_rrc_hl = prefixed 0x08
form_of T.cb_rl_r8 = prefixed 0x10
form_of T.cb_rl_hl = prefixed 0x10
form_of T.cb_rr_r8 = prefixed 0x18
form_of T.cb_rr_hl = prefixed 0x18
form_of T.cb_sla_r8 = prefixed 0x20
form_of T.cb_sla_hl = prefixed 0x20
form_of T.cb_sra_r8 = prefixed 0x28
form_of T.cb_sra_hl = prefixed 0x28
form_of T.cb_swap_r8 = prefixed 0x30
form_of T.cb_swap_hl = prefixed 0x30
form_of T.cb_srl_r8 = prefixed 0x38
form_of T.cb_srl_hl = prefixed 0x38
form_of T.cb_bit_r8 = prefixed 0x40
form_of T.cb_bit_hl = prefixed 0x40
form_of T.cb_res_r8 = prefixed 0x80
form_of T.cb_res_hl = prefixed 0x80
form_of T.cb_set_r8 = prefixed 0xC0
form_of T.cb_set_hl = prefixed 0xC0
form_of T.halt = plain 0x76
form_of T.stop = plain 0x10

-- The opcode: behind the prefix 0xCB for a prefixed instruction.
pub opcode_in : Form → Instruction → Option ℕ
opcode_in (plain n) i = some n
opcode_in (from_src n) i = some (n + reg8_code i.reg8_src)
opcode_in (to_dest n) i = some (n + 8 * reg8_code i.reg8_dest)
opcode_in (on_pair n) i = some (n + 16 * reg16_code i.reg16)
opcode_in (on_condition n) i = some (n + 8 * condition_code i.jump_condition)
opcode_in (to_target n) i = some (n + i.call_function_address)
opcode_in move i = some (0x40 + 8 * reg8_code i.reg8_dest + reg8_code i.reg8_src)
opcode_in (prefixed n) i = some (n + 8 * i.bit_op_index + reg8_code i.reg8_src)
opcode_in illegal i = none

-- How many bytes follow the opcode, by the kind of instruction and not by the decoder's `Length`.
pub operand_size : InstructionType → ℕ
operand_size T.ld_r8_n = 1
operand_size T.ld_hl_n = 1
operand_size T.ldh_a_n = 1
operand_size T.ldh_n_a = 1
operand_size T.ld_hl_sp_e = 1
operand_size T.add_n = 1
operand_size T.adc_n = 1
operand_size T.sub_n = 1
operand_size T.sbc_n = 1
operand_size T.cp_n = 1
operand_size T.and_n = 1
operand_size T.or_n = 1
operand_size T.xor_n = 1
operand_size T.add_sp_e = 1
operand_size T.jr_e = 1
operand_size T.jr_cc_e = 1
operand_size T.stop = 1
operand_size T.ld_a_nn = 2
operand_size T.ld_nn_a = 2
operand_size T.ld_r16_nn = 2
operand_size T.ld_nn_sp = 2
operand_size T.jp_nn = 2
operand_size T.jp_cc_nn = 2
operand_size T.call_nn = 2
operand_size T.call_cc_nn = 2
operand_size _ = 0

-- That many bytes of the operand: the low byte stands first.
pub operand : ℕ → Instruction → List ℕ
operand (suc zero) i = i.imm8_bit ∷ []
operand (suc (suc zero)) i = i.imm16_bit % 256 ∷ i.imm16_bit / 256 ∷ []
operand _ i = []

pub bytes_in : Form → ℕ → Instruction → List ℕ
bytes_in (prefixed _) n i = 0xCB ∷ n ∷ []
bytes_in _ n i = n ∷ operand (operand_size i.instruction_type) i

-- The bytes of an instruction.
unfoldable pub encode : Instruction → Option (List ℕ)
unfolding reg8_code reg16_code condition_code form_of opcode_in operand_size operand bytes_in
encode i =
    let form = form_of i.instruction_type in
    elim (opcode_in form i) [ none ↦ none | some n ↦ some (bytes_in form n i) ]
