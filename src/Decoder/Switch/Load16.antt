-- ===== src/Decoder/Switch/Load16.antt =====
-- internal/decoder/decoder.go, decodeOpcode: the 16-bit loads and the stack.
-- Opcodes of later cases go on to `decode_add_sub`.
use Prim.Native.String.{◌++◌}
use gbrc.Common.{ℕ, ◌/◌, ◌^◌, [], ◌∷◌, one_of, if◌then◌else◌, Run, done, ◌==◌, ◌>>=◌}
use gbrc.Rom.{Rom}
use gbrc.Decoder.Types.{Instruction, reg16_af, InstructionType as T}
use gbrc.Decoder.Encoding.{reg16_from_encoding, imm8, imm16}
use gbrc.Decoder.Text.{reg16_string}
use gbrc.Decoder.Switch.AddSub.{decode_add_sub}

unfoldable pub decode_load16 : Rom → ℕ → Instruction → Run Instruction
decode_load16 rom opcode i =
    if one_of opcode (0x01 ∷ 0x11 ∷ 0x21 ∷ 0x31 ∷ [])
    then (let reg16 = reg16_from_encoding (opcode / 2 ^ 4) in
        do
          name ← reg16_string reg16
          done (record i {
            instruction_type = T.ld_r16_nn;
            length = 3;
            base_m_cycles = 3;
            reg16 = reg16;
            imm16_bit = imm16 rom i.address;
            mnemonic = "LD " ++ name ++ ",NN";
          }))
    else if one_of opcode (0x08 ∷ [])
    then (done (record i {
      instruction_type = T.ld_nn_sp;
      length = 3;
      base_m_cycles = 5;
      imm16_bit = imm16 rom i.address;
      mnemonic = "LD NN,SP";
    }))
    else if one_of opcode (0xF9 ∷ [])
    then (done (record i {
      instruction_type = T.ld_sp_hl;
      length = 1;
      base_m_cycles = 2;
      mnemonic = "LD SP,HL";
    }))
    else if one_of opcode (0xC5 ∷ 0xD5 ∷ 0xE5 ∷ 0xF5 ∷ [])
    then (let reg16 = if opcode == 0xF5 then reg16_af else reg16_from_encoding (opcode / 2 ^ 4) in
        do
          name ← reg16_string reg16
          done (record i {
            instruction_type = T.push_r16;
            length = 1;
            base_m_cycles = 4;
            reg16 = reg16;
            mnemonic = "PUSH " ++ name;
          }))
    else if one_of opcode (0xC1 ∷ 0xD1 ∷ 0xE1 ∷ 0xF1 ∷ [])
    then (let reg16 = if opcode == 0xF1 then reg16_af else reg16_from_encoding (opcode / 2 ^ 4) in
        do
          name ← reg16_string reg16
          done (record i {
            instruction_type = T.pop_r16;
            length = 1;
            base_m_cycles = 3;
            reg16 = reg16;
            mnemonic = "POP " ++ name;
          }))
    else if one_of opcode (0xF8 ∷ [])
    then (done (record i {
      instruction_type = T.ld_hl_sp_e;
      length = 2;
      base_m_cycles = 3;
      imm8_bit = imm8 rom i.address;
      mnemonic = "LD HL,SP+e";
    }))
    else decode_add_sub rom opcode i
