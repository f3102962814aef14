-- ===== src/Decoder/Cache.antt =====
-- internal/decoder/decoder.go, Decoder, New and DecodeAt: decoding behind a cache by address.
pub mod Laws
use gbrc.Common.{ℕ, ◌==◌, if◌then◌else◌, Option, none, some, Run, done, ◌>>=◌}
use gbrc.Rom.{Rom, read}
use gbrc.Decoder.Types.{Instruction}
use gbrc.Decoder.Encoding.{offset}
use gbrc.Decoder.Switch.{decode_opcode}
use gbrc.Decoder.Cb.{decode_cb_prefixed_opcode}

-- The map is a function; the instructions that it points to are never written again.
pub record Decoder : Type 0 where
  pub rom : Rom
  pub cache : ℕ → Option Instruction

unfoldable pub new : Rom → Decoder
new rom = record { rom = rom; cache = λ _. none }

-- `d.cache[addr] = instr`
abbrev pub put : (ℕ → Option Instruction) → ℕ → Instruction → ℕ → Option Instruction
put m addr instr a = if a == addr then some instr else m a

-- The part of DecodeAt behind the cache.
unfoldable pub decode_fresh : Rom → ℕ → Run Instruction
unfolding offset
decode_fresh rom addr =
    let opcode = read rom addr in
    if opcode == 0xCB
    then decode_cb_prefixed_opcode (read rom (offset addr 1)) addr
    else decode_opcode rom opcode addr

-- A hit leaves the decoder as it is.
unfoldable pub decode_at : Decoder → ℕ → Run (Instruction × Decoder)
decode_at d addr = elim (d.cache addr) [
  | some instr ↦ done (instr, d)
  | none ↦
      decode_fresh d.rom addr >>= λ instr. done (instr, record d { cache = put d.cache addr instr })
]
