-- ===== src/Decoder/Switch/AddSub.antt =====
-- internal/decoder/decoder.go, decodeOpcode: additions and subtractions on A.
-- Opcodes of later cases go on to `decode_compare_step`.
use Prim.Native.String.{◌++◌}
use gbrc.Common.{ℕ, [], ◌∷◌, one_of, if◌then◌else◌, Run, done, ◌>>=◌}
use gbrc.Rom.{Rom}
use gbrc.Decoder.Types.{Instruction, reg8_a, InstructionType as T}
use gbrc.Decoder.Encoding.{reg8_from_encoding, imm8}
use gbrc.Decoder.Text.{reg8_string}
use gbrc.Decoder.Switch.CompareStep.{decode_compare_step}

unfoldable pub decode_add_sub : Rom → ℕ → Instruction → Run Instruction
decode_add_sub rom opcode i =
    if one_of opcode (0x80 ∷ 0x81 ∷ 0x82 ∷ 0x83 ∷ 0x84 ∷ 0x85 ∷ 0x87 ∷ [])
    then (let src = reg8_from_encoding opcode in
        do
          src_name ← reg8_string src
          done (record i {
            instruction_type = T.add_r8;
            length = 1;
            base_m_cycles = 1;
            reg8_src = src;
            reg8_dest = reg8_a;
            mnemonic = "ADD " ++ src_name;
          }))
    else if one_of opcode (0x86 ∷ [])
    then (done (record i {
      instruction_type = T.add_hl;
      length = 1;
      base_m_cycles = 2;
      reg8_dest = reg8_a;
      mnemonic = "ADD (HL)";
    }))
    else if one_of opcode (0xC6 ∷ [])
    then (done (record i {
      instruction_type = T.add_n;
      length = 2;
      base_m_cycles = 2;
      imm8_bit = imm8 rom i.address;
      reg8_dest = reg8_a;
      mnemonic = "ADD n";
    }))
    else if one_of opcode (0x88 ∷ 0x89 ∷ 0x8A ∷ 0x8B ∷ 0x8C ∷ 0x8D ∷ 0x8F ∷ [])
    then (let src = reg8_from_encoding opcode in
        do
          src_name ← reg8_string src
          done (record i {
            instruction_type = T.adc_r8;
            length = 1;
            base_m_cycles = 1;
            reg8_src = src;
            reg8_dest = reg8_a;
            mnemonic = "ADC " ++ src_name;
          }))
    else if one_of opcode (0x8E ∷ [])
    then (done (record i {
      instruction_type = T.adc_hl;
      length = 1;
      base_m_cycles = 2;
      reg8_dest = reg8_a;
      mnemonic = "ADC HL";
    }))
    else if one_of opcode (0xCE ∷ [])
    then (done (record i {
      instruction_type = T.adc_n;
      length = 2;
      base_m_cycles = 2;
      imm8_bit = imm8 rom i.address;
      reg8_dest = reg8_a;
      mnemonic = "ADC n";
    }))
    else if one_of opcode (0x90 ∷ 0x91 ∷ 0x92 ∷ 0x93 ∷ 0x94 ∷ 0x95 ∷ 0x97 ∷ [])
    then (let src = reg8_from_encoding opcode in
        do
          src_name ← reg8_string src
          done (record i {
            instruction_type = T.sub_r8;
            length = 1;
            base_m_cycles = 1;
            reg8_src = src;
            reg8_dest = reg8_a;
            mnemonic = "SUB " ++ src_name;
          }))
    else if one_of opcode (0x96 ∷ [])
    then (done (record i {
      instruction_type = T.sub_hl;
      length = 1;
      base_m_cycles = 2;
      reg8_dest = reg8_a;
      mnemonic = "SUB (HL)";
    }))
    else if one_of opcode (0xD6 ∷ [])
    then (done (record i {
      instruction_type = T.sub_n;
      length = 2;
      base_m_cycles = 2;
      imm8_bit = imm8 rom i.address;
      reg8_dest = reg8_a;
      mnemonic = "SUB n";
    }))
    else if one_of opcode (0x98 ∷ 0x99 ∷ 0x9A ∷ 0x9B ∷ 0x9C ∷ 0x9D ∷ 0x9F ∷ [])
    then (let src = reg8_from_encoding opcode in
        do
          src_name ← reg8_string src
          done (record i {
            instruction_type = T.sbc_r8;
            length = 1;
            base_m_cycles = 1;
            reg8_src = src;
            reg8_dest = reg8_a;
            mnemonic = "SBC " ++ src_name;
          }))
    else if one_of opcode (0x9E ∷ [])
    then (done (record i {
      instruction_type = T.sbc_hl;
      length = 1;
      base_m_cycles = 2;
      reg8_dest = reg8_a;
      mnemonic = "SBC (HL)";
    }))
    else if one_of opcode (0xDE ∷ [])
    then (done (record i {
      instruction_type = T.sbc_n;
      length = 2;
      base_m_cycles = 2;
      imm8_bit = imm8 rom i.address;
      reg8_dest = reg8_a;
      mnemonic = "SBC n";
    }))
    else decode_compare_step rom opcode i
