-- ===== src/Decoder/Switch/CompareStep.antt =====
-- internal/decoder/decoder.go, decodeOpcode: comparisons, increments and decrements of 8 bits.
-- Opcodes of later cases go on to `decode_logic`.
use Prim.Native.String.{◌++◌}
use gbrc.Common.{ℕ, ◌/◌, ◌^◌, [], ◌∷◌, one_of, if◌then◌else◌, Run, done, ◌>>=◌}
use gbrc.Rom.{Rom}
use gbrc.Decoder.Types.{Instruction, reg8_hl_indirect, InstructionType as T}
use gbrc.Decoder.Encoding.{reg8_from_encoding, imm8}
use gbrc.Decoder.Text.{reg8_string}
use gbrc.Decoder.Switch.Logic.{decode_logic}

unfoldable pub decode_compare_step : Rom → ℕ → Instruction → Run Instruction
decode_compare_step rom opcode i =
    if one_of opcode (0xB8 ∷ 0xB9 ∷ 0xBA ∷ 0xBB ∷ 0xBC ∷ 0xBD ∷ 0xBF ∷ [])
    then (let src = reg8_from_encoding opcode in
        do
          src_name ← reg8_string src
          done (record i {
            instruction_type = T.cp_r8;
            length = 1;
            base_m_cycles = 1;
            reg8_src = src;
            mnemonic = "CP " ++ src_name;
          }))
    else if one_of opcode (0xBE ∷ [])
    then (done (record i {
      instruction_type = T.cp_hl;
      length = 1;
      base_m_cycles = 2;
      mnemonic = "CP (HL)";
    }))
    else if one_of opcode (0xFE ∷ [])
    then (done (record i {
      instruction_type = T.cp_n;
      length = 2;
      base_m_cycles = 2;
      imm8_bit = imm8 rom i.address;
      mnemonic = "CP n";
    }))
    else if one_of opcode (0x04 ∷ 0x0C ∷ 0x14 ∷ 0x1C ∷ 0x24 ∷ 0x2C ∷ 0x3C ∷ [])
    then (let src = reg8_from_encoding (opcode / 2 ^ 3) in
        do
          src_name ← reg8_string src
          done (record i {
            instruction_type = T.inc_r8;
            length = 1;
            base_m_cycles = 1;
            reg8_src = src;
            reg8_dest = src;
            mnemonic = "INC " ++ src_name;
          }))
    else if one_of opcode (0x34 ∷ [])
    then (done (record i {
      instruction_type = T.inc_hl;
      length = 1;
      base_m_cycles = 3;
      reg8_dest = reg8_hl_indirect;
      mnemonic = "INC (HL)";
    }))
    else if one_of opcode (0x05 ∷ 0x0D ∷ 0x15 ∷ 0x1D ∷ 0x25 ∷ 0x2D ∷ 0x3D ∷ [])
    then (let src = reg8_from_encoding (opcode / 2 ^ 3) in
        do
          src_name ← reg8_string src
          done (record i {
            instruction_type = T.dec_r8;
            length = 1;
            base_m_cycles = 1;
            reg8_src = src;
            reg8_dest = src;
            mnemonic = "DEC " ++ src_name;
          }))
    else if one_of opcode (0x35 ∷ [])
    then (done (record i {
      instruction_type = T.dec_hl;
      length = 1;
      base_m_cycles = 3;
      reg8_dest = reg8_hl_indirect;
      mnemonic = "DEC (HL)";
    }))
    else decode_logic rom opcode i
