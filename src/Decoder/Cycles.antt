-- ===== src/Decoder/Cycles.antt =====
-- internal/decoder/decoder.go: the cycles in the tables of instructions.
use gbrc.Common.{
  ℕ, ◌+◌, ◌≤◌, ◌≡◌, refl, subst, arith, Bool, true, false, leb, if◌then◌else◌, Run, done, panic,
  out_of_fuel, table,
}
use gbrc.Rom.{Rom}
use gbrc.Rom.Image.{IsImage}
use gbrc.Decoder.Types.{Instruction}
use gbrc.Decoder.Facts.{is_unknown}
use gbrc.Decoder.Switch.{decode_opcode}
use gbrc.Decoder.Cb.{decode_cb_prefixed_opcode}
use gbrc.Decoder.Cache.{decode_fresh}
use gbrc.Decoder.Every.{decode_fresh_ext}

abbrev cycles_fit : Run Instruction → Bool
cycles_fit (done i) =
    if is_unknown i.instruction_type
    then true
    else if leb 1 i.base_m_cycles
    then leb (i.base_m_cycles + i.additional_m_cycles) 6
    else false
cycles_fit panic = true
cycles_fit out_of_fuel = true

cycles-plain :
    (rom : Rom) (addr : ℕ)
    → table 256 (λ op. cycles_fit (decode_opcode rom op addr)) ≡ table 256 (λ op. true)
unfolding decode_opcode
cycles-plain rom addr = refl

cycles-prefixed :
    (addr : ℕ)
    → table 256 (λ op. cycles_fit (decode_cb_prefixed_opcode op addr)) ≡ table 256 (λ op. true)
unfolding decode_cb_prefixed_opcode
cycles-prefixed addr = refl

pub decoded_cycles :
    (rom : Rom) (addr : ℕ) (i : Instruction)
    → IsImage rom
    → decode_fresh rom addr ≡ done i
    → is_unknown i.instruction_type ≡ false
    → (1 ≤ i.base_m_cycles) × (i.base_m_cycles + i.additional_m_cycles ≤ 6)
decoded_cycles rom addr i image decoded known =
    let e : cycles_fit (done i) ≡ true =
      subst (λ r. cycles_fit r ≡ true) decoded
        (decode_fresh_ext rom addr cycles_fit (λ _. true) image (cycles-plain rom addr)
          (cycles-prefixed addr)) in
    ground (arith, rw known at e)
