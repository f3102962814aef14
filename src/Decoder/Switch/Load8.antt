-- ===== src/Decoder/Switch/Load8.antt =====
-- internal/decoder/decoder.go, decodeOpcode: the 8-bit loads between registers, `(HL)` and constants, `NOP`, `HALT` and `STOP`.
-- Opcodes of later cases go on to `decode_load_memory`.
use Prim.Native.String.{◌++◌}
use gbrc.Common.{ℕ, ◌/◌, ◌^◌, [], ◌∷◌, one_of, if◌then◌else◌, Run, done, ◌>>=◌}
use gbrc.Rom.{Rom}
use gbrc.Decoder.Types.{Instruction, InstructionType as T}
use gbrc.Decoder.Encoding.{reg8_from_encoding, imm8}
use gbrc.Decoder.Text.{reg8_string}
use gbrc.Decoder.Switch.LoadMemory.{decode_load_memory}

unfoldable pub decode_load8 : Rom → ℕ → Instruction → Run Instruction
decode_load8 rom opcode i =
    if one_of opcode (0x00 ∷ [])
    then (done
        (record i { instruction_type = T.nop; length = 1; base_m_cycles = 1; mnemonic = "NOP" }))
    else if one_of opcode (
        0x40 ∷ 0x41 ∷ 0x42 ∷ 0x43 ∷ 0x44 ∷ 0x45 ∷ 0x47 ∷ 0x48 ∷ 0x49 ∷ 0x4A ∷ 0x4B ∷ 0x4C ∷ 0x4D
        ∷ 0x4F ∷ 0x50 ∷ 0x51 ∷ 0x52 ∷ 0x53 ∷ 0x54 ∷ 0x55 ∷ 0x57 ∷ 0x58 ∷ 0x59 ∷ 0x5A ∷ 0x5B ∷ 0x5C
        ∷ 0x5D ∷ 0x5F ∷ 0x60 ∷ 0x61 ∷ 0x62 ∷ 0x63 ∷ 0x64 ∷ 0x65 ∷ 0x67 ∷ 0x68 ∷ 0x69 ∷ 0x6A ∷ 0x6B
        ∷ 0x6C ∷ 0x6D ∷ 0x6F ∷ 0x78 ∷ 0x79 ∷ 0x7A ∷ 0x7B ∷ 0x7C ∷ 0x7D ∷ 0x7F ∷ [])
    then (let src = reg8_from_encoding opcode in
        let dest = reg8_from_encoding (opcode / 2 ^ 3) in
        do
          dest_name ← reg8_string dest
          src_name ← reg8_string src
          done (record i {
            instruction_type = T.ld_r8_r8;
            length = 1;
            base_m_cycles = 1;
            reg8_src = src;
            reg8_dest = dest;
            mnemonic = "LD " ++ dest_name ++ "," ++ src_name;
          }))
    else if one_of opcode (0x06 ∷ 0x0E ∷ 0x16 ∷ 0x1E ∷ 0x26 ∷ 0x2E ∷ 0x3E ∷ [])
    then (let dest = reg8_from_encoding (opcode / 2 ^ 3) in
        do
          dest_name ← reg8_string dest
          done (record i {
            instruction_type = T.ld_r8_n;
            length = 2;
            base_m_cycles = 2;
            reg8_dest = dest;
            imm8_bit = imm8 rom i.address;
            mnemonic = "LD " ++ dest_name ++ ",n";
          }))
    else if one_of opcode (0x46 ∷ 0x4E ∷ 0x56 ∷ 0x5E ∷ 0x66 ∷ 0x6E ∷ 0x7E ∷ [])
    then (let dest = reg8_from_encoding (opcode / 2 ^ 3) in
        do
          dest_name ← reg8_string dest
          done (record i {
            instruction_type = T.ld_r8_hl;
            length = 1;
            base_m_cycles = 2;
            reg8_dest = dest;
            mnemonic = "LD " ++ dest_name ++ ",(HL)";
          }))
    else if one_of opcode (0x70 ∷ 0x71 ∷ 0x72 ∷ 0x73 ∷ 0x74 ∷ 0x75 ∷ 0x77 ∷ [])
    then (let src = reg8_from_encoding opcode in
        do
          src_name ← reg8_string src
          done (record i {
            instruction_type = T.ld_hl_r8;
            length = 1;
            base_m_cycles = 2;
            reg8_src = src;
            mnemonic = "LD (HL)," ++ src_name;
          }))
    else if one_of opcode (0x76 ∷ [])
    then (done
        (record i { instruction_type = T.halt; length = 1; base_m_cycles = 4; mnemonic = "HALT" }))
    else if one_of opcode (0x10 ∷ [])
    then (done (record i {
      instruction_type = T.stop;
      length = 2;
      base_m_cycles = 1;
      imm8_bit = imm8 rom i.address;
      mnemonic = "STOP";
    }))
    else if one_of opcode (0x36 ∷ [])
    then (done (record i {
      instruction_type = T.ld_hl_n;
      length = 2;
      base_m_cycles = 3;
      imm8_bit = imm8 rom i.address;
      mnemonic = "LD (HL),N";
    }))
    else decode_load_memory rom opcode i
