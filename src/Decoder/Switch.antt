-- ===== src/Decoder/Switch.antt =====
-- internal/decoder/decoder.go, decodeOpcode: the switch on the first byte. Its cases stand in the
-- source's order in the modules below, each of which goes on to the next; the case labels are
-- distinct, so the order has no effect.
pub mod Load8
pub mod LoadMemory
pub mod Load16
pub mod AddSub
pub mod CompareStep
pub mod Logic
pub mod WordRotate
pub mod Jump
pub mod Call
use gbrc.Common.{ℕ, Run}
use gbrc.Rom.{Rom}
use gbrc.Decoder.Types.{Instruction, blank}
use gbrc.Decoder.Encoding.{reg8_from_encoding, reg16_from_encoding, jump_condition_of}
use gbrc.Decoder.Text.{reg8_string, reg16_string, jump_condition_string, upper_hex}
use Load8.{decode_load8}
use LoadMemory.{decode_load_memory}
use Load16.{decode_load16}
use AddSub.{decode_add_sub}
use CompareStep.{decode_compare_step}
use Logic.{decode_logic}
use WordRotate.{decode_word_rotate}
use Jump.{decode_jump}
use Call.{decode_call}

-- The whole switch, on an instruction with only its address set.
unfoldable pub decode_opcode : Rom → ℕ → ℕ → Run Instruction
unfolding decode_load8 decode_load_memory decode_load16 decode_add_sub decode_compare_step
    decode_logic decode_word_rotate decode_jump decode_call reg8_from_encoding reg16_from_encoding
    jump_condition_of reg8_string reg16_string jump_condition_string upper_hex
decode_opcode rom opcode addr = decode_load8 rom opcode (blank addr)
