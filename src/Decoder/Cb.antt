-- ===== src/Decoder/Cb.antt =====
-- internal/decoder/decoder.go, decodeCbPrefixedOpcode: the instructions behind the byte 0xCB.
use Prim.Native.String.{String, ◌++◌}
use gbrc.Common.{
  ℕ, ◌-◌, ◌/◌, ◌^◌, bit_and, ltb, ◌==◌, if◌then◌else◌, true, List, [], ◌∷◌, get_elem?, Run, done,
  of_option, ◌>>=◌,
}
use gbrc.Decoder.Types.{Instruction, blank, reg8_hl_indirect, InstructionType, InstructionType as T}
use gbrc.Decoder.Encoding.{reg8_from_encoding}
use gbrc.Decoder.Text.{reg8_string, decimal}

-- A group holds the form on a register and the form on `(HL)`.
pub record Group : Type 0 where
  pub on_r8 : InstructionType
  pub on_hl : InstructionType

abbrev group : InstructionType → InstructionType → Group
group r h = record { on_r8 = r; on_hl = h }

abbrev pub narrow_block_ops : List Group
narrow_block_ops =
    group T.cb_rlc_r8 T.cb_rlc_hl
    ∷ group T.cb_rrc_r8 T.cb_rrc_hl
    ∷ group T.cb_rl_r8 T.cb_rl_hl
    ∷ group T.cb_rr_r8 T.cb_rr_hl
    ∷ group T.cb_sla_r8 T.cb_sla_hl
    ∷ group T.cb_sra_r8 T.cb_sra_hl
    ∷ group T.cb_swap_r8 T.cb_swap_hl
    ∷ group T.cb_srl_r8 T.cb_srl_hl
    ∷ []

abbrev pub wide_block_ops : List Group
wide_block_ops =
    group T.cb_bit_r8 T.cb_bit_hl
    ∷ group T.cb_res_r8 T.cb_res_hl
    ∷ group T.cb_set_r8 T.cb_set_hl
    ∷ []

abbrev pub narrow_block_mnemonic : List String
narrow_block_mnemonic = "RLC" ∷ "RRC" ∷ "RL" ∷ "RR" ∷ "SLA" ∷ "SRA" ∷ "SWAP" ∷ "SRL" ∷ []

abbrev pub wide_block_mnemonic : List String
wide_block_mnemonic = "BIT" ∷ "RES" ∷ "SET" ∷ []

-- What the first `if` of decodeCbPrefixedOpcode sets: the group, its mnemonic and the bit operated on.
pub record Selection : Type 0 where
  pub ops : Group
  pub base_mnemonic : String
  pub bit : ℕ

unfoldable pub select_block : ℕ → Run Selection
select_block opcode =
    if ltb opcode 0x40
    then (do
      ops ← of_option (get_elem? narrow_block_ops (opcode / 2 ^ 3))
      base ← of_option (get_elem? narrow_block_mnemonic (opcode / 2 ^ 3))
      done (record { ops = ops; base_mnemonic = base; bit = 0 }))
    else (do
      ops ← of_option (get_elem? wide_block_ops ((opcode - 0x40) / 0x40))
      base ← of_option (get_elem? wide_block_mnemonic ((opcode - 0x40) / 0x40))
      done (record { ops = ops; base_mnemonic = base; bit = bit_and (opcode / 2 ^ 3) 0x07 }))

abbrev with_bit : ℕ → Selection → String → String
with_bit opcode b name =
    if ltb opcode 0x40
    then b.base_mnemonic ++ (" " ++ name)
    else b.base_mnemonic ++ (" " ++ (decimal b.bit ++ (", " ++ name)))

-- The second `if`: the operand, and the mnemonic that names it.
unfoldable pub set_operand : ℕ → Selection → Instruction → Run Instruction
set_operand opcode b i =
    let reg = bit_and opcode 0x07 in
    if reg == 0x06
    then done (record i {
      instruction_type = b.ops.on_hl;
      length = 2;
      base_m_cycles = 4;
      reg8_src = reg8_hl_indirect;
      mnemonic = with_bit opcode b "(HL)";
    })
    else (reg8_string (reg8_from_encoding reg) >>= λ name. done (record i {
      instruction_type = b.ops.on_r8;
      length = 2;
      base_m_cycles = 2;
      reg8_src = reg8_from_encoding reg;
      mnemonic = with_bit opcode b name;
    }))

unfoldable pub decode_cb_prefixed_opcode : ℕ → ℕ → Run Instruction
unfolding select_block set_operand reg8_from_encoding reg8_string decimal
decode_cb_prefixed_opcode opcode addr = do
  b ← select_block opcode
  set_operand opcode b (record (blank addr) { is_cb_prefixed = true; bit_op_index = b.bit })
