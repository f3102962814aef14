-- ===== src/Decoder/Switch/Logic.antt =====
-- internal/decoder/decoder.go, decodeOpcode: bitwise operations on A and on the flags.
-- Opcodes of later cases go on to `decode_word_rotate`.
use Prim.Native.String.{◌++◌}
use gbrc.Common.{ℕ, [], ◌∷◌, one_of, if◌then◌else◌, Run, done, ◌>>=◌}
use gbrc.Rom.{Rom}
use gbrc.Decoder.Types.{Instruction, reg8_a, InstructionType as T}
use gbrc.Decoder.Encoding.{reg8_from_encoding, imm8}
use gbrc.Decoder.Text.{reg8_string}
use gbrc.Decoder.Switch.WordRotate.{decode_word_rotate}

unfoldable pub decode_logic : Rom → ℕ → Instruction → Run Instruction
decode_logic rom opcode i =
    if one_of opcode (0xA0 ∷ 0xA1 ∷ 0xA2 ∷ 0xA3 ∷ 0xA4 ∷ 0xA5 ∷ 0xA7 ∷ [])
    then (let src = reg8_from_encoding opcode in
        do
          src_name ← reg8_string src
          done (record i {
            instruction_type = T.and_r8;
            length = 1;
            base_m_cycles = 1;
            reg8_src = src;
            reg8_dest = reg8_a;
            mnemonic = "AND " ++ src_name;
          }))
    else if one_of opcode (0xA6 ∷ [])
    then (done (record i {
      instruction_type = T.and_hl;
      length = 1;
      base_m_cycles = 2;
      reg8_dest = reg8_a;
      mnemonic = "AND (HL)";
    }))
    else if one_of opcode (0xE6 ∷ [])
    then (done (record i {
      instruction_type = T.and_n;
      length = 2;
      base_m_cycles = 2;
      imm8_bit = imm8 rom i.address;
      reg8_dest = reg8_a;
      mnemonic = "AND n";
    }))
    else if one_of opcode (0xB0 ∷ 0xB1 ∷ 0xB2 ∷ 0xB3 ∷ 0xB4 ∷ 0xB5 ∷ 0xB7 ∷ [])
    then (let src = reg8_from_encoding opcode in
        do
          src_name ← reg8_string src
          done (record i {
            instruction_type = T.or_r8;
            length = 1;
            base_m_cycles = 1;
            reg8_src = src;
            reg8_dest = reg8_a;
            mnemonic = "OR " ++ src_name;
          }))
    else if one_of opcode (0xB6 ∷ [])
    then (done (record i {
      instruction_type = T.or_hl;
      length = 1;
      base_m_cycles = 2;
      reg8_dest = reg8_a;
      mnemonic = "OR (HL)";
    }))
    else if one_of opcode (0xF6 ∷ [])
    then (done (record i {
      instruction_type = T.or_n;
      length = 2;
      base_m_cycles = 2;
      imm8_bit = imm8 rom i.address;
      reg8_dest = reg8_a;
      mnemonic = "OR n";
    }))
    else if one_of opcode (0xA8 ∷ 0xA9 ∷ 0xAA ∷ 0xAB ∷ 0xAC ∷ 0xAD ∷ 0xAF ∷ [])
    then (let src = reg8_from_encoding opcode in
        do
          src_name ← reg8_string src
          done (record i {
            instruction_type = T.xor_r8;
            length = 1;
            base_m_cycles = 1;
            reg8_src = src;
            reg8_dest = reg8_a;
            mnemonic = "XOR " ++ src_name;
          }))
    else if one_of opcode (0xAE ∷ [])
    then (done (record i {
      instruction_type = T.xor_hl;
      length = 1;
      base_m_cycles = 2;
      reg8_dest = reg8_a;
      mnemonic = "XOR (HL)";
    }))
    else if one_of opcode (0xEE ∷ [])
    then (done (record i {
      instruction_type = T.xor_n;
      length = 2;
      base_m_cycles = 2;
      imm8_bit = imm8 rom i.address;
      reg8_dest = reg8_a;
      mnemonic = "XOR n";
    }))
    else if one_of opcode (0x3F ∷ [])
    then (done
        (record i { instruction_type = T.ccf; length = 1; base_m_cycles = 1; mnemonic = "CCF" }))
    else if one_of opcode (0x37 ∷ [])
    then (done
        (record i { instruction_type = T.scf; length = 1; base_m_cycles = 1; mnemonic = "SCF" }))
    else if one_of opcode (0x27 ∷ [])
    then (done
        (record i { instruction_type = T.daa; length = 1; base_m_cycles = 1; mnemonic = "DAA" }))
    else if one_of opcode (0x2F ∷ [])
    then (done
        (record i { instruction_type = T.cpl; length = 1; base_m_cycles = 1; mnemonic = "CPL" }))
    else decode_word_rotate rom opcode i
