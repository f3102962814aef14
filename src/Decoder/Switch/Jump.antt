-- ===== src/Decoder/Switch/Jump.antt =====
-- internal/decoder/decoder.go, decodeOpcode: jumps.
-- Opcodes of later cases go on to `decode_call`.
use Prim.Native.String.{◌++◌}
use gbrc.Common.{ℕ, ◌/◌, ◌^◌, bit_and, [], ◌∷◌, one_of, if◌then◌else◌, Run, done}
use gbrc.Rom.{Rom}
use gbrc.Decoder.Types.{Instruction, InstructionType as T}
use gbrc.Decoder.Encoding.{jump_condition_of, imm8, imm16}
use gbrc.Decoder.Text.{jump_condition_string}
use gbrc.Decoder.Switch.Call.{decode_call}

unfoldable pub decode_jump : Rom → ℕ → Instruction → Run Instruction
decode_jump rom opcode i =
    if one_of opcode (0xC3 ∷ [])
    then (done (record i {
      instruction_type = T.jp_nn;
      length = 3;
      base_m_cycles = 4;
      imm16_bit = imm16 rom i.address;
      mnemonic = "JP nn";
    }))
    else if one_of opcode (0xE9 ∷ [])
    then (done (record i {
      instruction_type = T.jp_hl;
      length = 1;
      base_m_cycles = 1;
      mnemonic = "JP (HL)";
    }))
    else if one_of opcode (0xC2 ∷ 0xCA ∷ 0xD2 ∷ 0xDA ∷ [])
    then (let cond = jump_condition_of (bit_and (opcode / 2 ^ 3) 0x03) in
        done (record i {
          instruction_type = T.jp_cc_nn;
          length = 3;
          base_m_cycles = 3;
          additional_m_cycles = 1;
          imm16_bit = imm16 rom i.address;
          jump_condition = cond;
          mnemonic = "JP " ++ jump_condition_string cond ++ ",nn";
        }))
    else if one_of opcode (0x18 ∷ [])
    then (done (record i {
      instruction_type = T.jr_e;
      length = 2;
      base_m_cycles = 3;
      imm8_bit = imm8 rom i.address;
      mnemonic = "JR e";
    }))
    else if one_of opcode (0x20 ∷ 0x28 ∷ 0x30 ∷ 0x38 ∷ [])
    then (let cond = jump_condition_of (bit_and (opcode / 2 ^ 3) 0x03) in
        done (record i {
          instruction_type = T.jr_cc_e;
          length = 2;
          base_m_cycles = 2;
          additional_m_cycles = 1;
          imm8_bit = imm8 rom i.address;
          jump_condition = cond;
          mnemonic = "JR " ++ jump_condition_string cond ++ ",e";
        }))
    else decode_call rom opcode i
