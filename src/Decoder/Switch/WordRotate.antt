-- ===== src/Decoder/Switch/WordRotate.antt =====
-- internal/decoder/decoder.go, decodeOpcode: 16-bit arithmetic and the rotations of A.
-- Opcodes of later cases go on to `decode_jump`.
use Prim.Native.String.{◌++◌}
use gbrc.Common.{ℕ, ◌/◌, ◌^◌, [], ◌∷◌, one_of, if◌then◌else◌, Run, done, ◌>>=◌}
use gbrc.Rom.{Rom}
use gbrc.Decoder.Types.{Instruction, reg8_a, InstructionType as T}
use gbrc.Decoder.Encoding.{reg16_from_encoding, imm8}
use gbrc.Decoder.Text.{reg16_string}
use gbrc.Decoder.Switch.Jump.{decode_jump}

unfoldable pub decode_word_rotate : Rom → ℕ → Instruction → Run Instruction
decode_word_rotate rom opcode i =
    if one_of opcode (0x03 ∷ 0x13 ∷ 0x23 ∷ 0x33 ∷ [])
    then (let reg16 = reg16_from_encoding (opcode / 2 ^ 4) in
        do
          name ← reg16_string reg16
          done (record i {
            instruction_type = T.inc_r16;
            length = 1;
            base_m_cycles = 2;
            reg16 = reg16;
            mnemonic = "INC " ++ name;
          }))
    else if one_of opcode (0x0B ∷ 0x1B ∷ 0x2B ∷ 0x3B ∷ [])
    then (let reg16 = reg16_from_encoding (opcode / 2 ^ 4) in
        do
          name ← reg16_string reg16
          done (record i {
            instruction_type = T.dec_r16;
            length = 1;
            base_m_cycles = 2;
            reg16 = reg16;
            mnemonic = "DEC " ++ name;
          }))
    else if one_of opcode (0x09 ∷ 0x19 ∷ 0x29 ∷ 0x39 ∷ [])
    then (let reg16 = reg16_from_encoding (opcode / 2 ^ 4) in
        do
          name ← reg16_string reg16
          done (record i {
            instruction_type = T.add_hl_r16;
            length = 1;
            base_m_cycles = 2;
            reg16 = reg16;
            mnemonic = "ADD HL," ++ name;
          }))
    else if one_of opcode (0xE8 ∷ [])
    then (done (record i {
      instruction_type = T.add_sp_e;
      length = 2;
      base_m_cycles = 4;
      imm8_bit = imm8 rom i.address;
      mnemonic = "ADD SP,e";
    }))
    else if one_of opcode (0x07 ∷ [])
    then (done (record i {
      instruction_type = T.rlca;
      length = 1;
      base_m_cycles = 1;
      reg8_src = reg8_a;
      mnemonic = "RLCA";
    }))
    else if one_of opcode (0x0F ∷ [])
    then (done (record i {
      instruction_type = T.rrca;
      length = 1;
      base_m_cycles = 1;
      reg8_src = reg8_a;
      mnemonic = "RRCA";
    }))
    else if one_of opcode (0x17 ∷ [])
    then (done (record i {
      instruction_type = T.rla;
      length = 1;
      base_m_cycles = 1;
      reg8_src = reg8_a;
      mnemonic = "RLA";
    }))
    else if one_of opcode (0x1F ∷ [])
    then (done (record i {
      instruction_type = T.rra;
      length = 1;
      base_m_cycles = 1;
      reg8_src = reg8_a;
      mnemonic = "RRA";
    }))
    else decode_jump rom opcode i
