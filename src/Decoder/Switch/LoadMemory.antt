-- ===== src/Decoder/Switch/LoadMemory.antt =====
-- internal/decoder/decoder.go, decodeOpcode: the loads between A and memory.
-- Opcodes of later cases go on to `decode_load16`.
use gbrc.Common.{ℕ, [], ◌∷◌, one_of, if◌then◌else◌, Run, done}
use gbrc.Rom.{Rom}
use gbrc.Decoder.Types.{Instruction, InstructionType as T}
use gbrc.Decoder.Encoding.{imm8, imm16}
use gbrc.Decoder.Switch.Load16.{decode_load16}

unfoldable pub decode_load_memory : Rom → ℕ → Instruction → Run Instruction
decode_load_memory rom opcode i =
    if one_of opcode (0x0A ∷ [])
    then (done (record i {
      instruction_type = T.ld_a_bc;
      length = 1;
      base_m_cycles = 2;
      mnemonic = "LD A,(BC)";
    }))
    else if one_of opcode (0x1A ∷ [])
    then (done (record i {
      instruction_type = T.ld_a_de;
      length = 1;
      base_m_cycles = 2;
      mnemonic = "LD A,(DE)";
    }))
    else if one_of opcode (0x02 ∷ [])
    then (done (record i {
      instruction_type = T.ld_bc_a;
      length = 1;
      base_m_cycles = 2;
      mnemonic = "LD (BC),A";
    }))
    else if one_of opcode (0x12 ∷ [])
    then (done (record i {
      instruction_type = T.ld_de_a;
      length = 1;
      base_m_cycles = 2;
      mnemonic = "LD (DE),A";
    }))
    else if one_of opcode (0xFA ∷ [])
    then (done (record i {
      instruction_type = T.ld_a_nn;
      length = 3;
      base_m_cycles = 4;
      imm16_bit = imm16 rom i.address;
      mnemonic = "LD A,(nn)";
    }))
    else if one_of opcode (0xEA ∷ [])
    then (done (record i {
      instruction_type = T.ld_nn_a;
      length = 3;
      base_m_cycles = 4;
      imm16_bit = imm16 rom i.address;
      mnemonic = "LD (nn),A";
    }))
    else if one_of opcode (0xF2 ∷ [])
    then (done (record i {
      instruction_type = T.ldh_a_c;
      length = 1;
      base_m_cycles = 2;
      mnemonic = "LDH A,(C)";
    }))
    else if one_of opcode (0xE2 ∷ [])
    then (done (record i {
      instruction_type = T.ldh_c_a;
      length = 1;
      base_m_cycles = 2;
      mnemonic = "LDH (C),A";
    }))
    else if one_of opcode (0xF0 ∷ [])
    then (done (record i {
      instruction_type = T.ldh_a_n;
      length = 2;
      base_m_cycles = 3;
      imm8_bit = imm8 rom i.address;
      mnemonic = "LDH A,(n)";
    }))
    else if one_of opcode (0xE0 ∷ [])
    then (done (record i {
      instruction_type = T.ldh_n_a;
      length = 2;
      base_m_cycles = 3;
      imm8_bit = imm8 rom i.address;
      mnemonic = "LDH (n),A";
    }))
    else if one_of opcode (0x3A ∷ [])
    then (done (record i {
      instruction_type = T.ld_a_hl_dec;
      length = 1;
      base_m_cycles = 2;
      mnemonic = "LD A,(HL-)";
    }))
    else if one_of opcode (0x32 ∷ [])
    then (done (record i {
      instruction_type = T.ld_hl_dec_a;
      length = 1;
      base_m_cycles = 2;
      mnemonic = "LD (HL-),A";
    }))
    else if one_of opcode (0x2A ∷ [])
    then (done (record i {
      instruction_type = T.ld_a_hl_inc;
      length = 1;
      base_m_cycles = 2;
      mnemonic = "LD A,(HL+)";
    }))
    else if one_of opcode (0x22 ∷ [])
    then (done (record i {
      instruction_type = T.ld_hl_inc_a;
      length = 1;
      base_m_cycles = 2;
      mnemonic = "LD (HL+),A";
    }))
    else decode_load16 rom opcode i
