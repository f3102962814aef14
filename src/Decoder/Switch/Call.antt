-- ===== src/Decoder/Switch/Call.antt =====
-- internal/decoder/decoder.go, decodeOpcode: calls, returns, restarts and interrupt control.
use Prim.Native.String.{◌++◌}
use gbrc.Common.{
  ℕ, ◌/◌, ◌^◌, bit_and, [], ◌∷◌, one_of, if◌then◌else◌, Run, done, ◌>>=◌, of_option, get_elem?,
}
use gbrc.Rom.{Rom}
use gbrc.Decoder.Types.{Instruction, InstructionType as T}
use gbrc.Decoder.Encoding.{jump_condition_of, imm16, rst_targets}
use gbrc.Decoder.Text.{jump_condition_string, upper_hex}

unfoldable pub decode_call : Rom → ℕ → Instruction → Run Instruction
decode_call rom opcode i =
    if one_of opcode (0xCD ∷ [])
    then (done (record i {
      instruction_type = T.call_nn;
      length = 3;
      base_m_cycles = 6;
      imm16_bit = imm16 rom i.address;
      mnemonic = "CALL nn";
    }))
    else if one_of opcode (0xC4 ∷ 0xCC ∷ 0xD4 ∷ 0xDC ∷ [])
    then (let cond = jump_condition_of (bit_and (opcode / 2 ^ 3) 0x03) in
        done (record i {
          instruction_type = T.call_cc_nn;
          length = 3;
          base_m_cycles = 3;
          additional_m_cycles = 3;
          imm16_bit = imm16 rom i.address;
          jump_condition = cond;
          mnemonic = "CALL " ++ jump_condition_string cond ++ ",nn";
        }))
    else if one_of opcode (0xC9 ∷ [])
    then (done
        (record i { instruction_type = T.ret; length = 1; base_m_cycles = 4; mnemonic = "RET" }))
    else if one_of opcode (0xC0 ∷ 0xC8 ∷ 0xD0 ∷ 0xD8 ∷ [])
    then (let cond = jump_condition_of (bit_and (opcode / 2 ^ 3) 0x03) in
        done (record i {
          instruction_type = T.ret_cc;
          length = 1;
          base_m_cycles = 2;
          additional_m_cycles = 3;
          jump_condition = cond;
          mnemonic = "RET " ++ jump_condition_string cond;
        }))
    else if one_of opcode (0xD9 ∷ [])
    then (done
        (record i { instruction_type = T.reti; length = 1; base_m_cycles = 4; mnemonic = "RETI" }))
    else if one_of opcode (0xC7 ∷ 0xCF ∷ 0xD7 ∷ 0xDF ∷ 0xE7 ∷ 0xEF ∷ 0xF7 ∷ 0xFF ∷ [])
    then (do
      target ← of_option (get_elem? rst_targets (bit_and (opcode / 2 ^ 3) 0x07))
      done (record i {
        instruction_type = T.rst_n;
        length = 1;
        base_m_cycles = 4;
        call_function_address = target;
        mnemonic = "RST 0x" ++ upper_hex target;
      }))
    else if one_of opcode (0xF3 ∷ [])
    then (done
        (record i { instruction_type = T.di; length = 1; base_m_cycles = 1; mnemonic = "DI" }))
    else if one_of opcode (0xFB ∷ [])
    then (done
        (record i { instruction_type = T.ei; length = 1; base_m_cycles = 1; mnemonic = "EI" }))
    else done (record i { instruction_type = T.unknown })
