-- ===== src/Codegen/Stack.antt =====
-- Pairs of registers on the stack, as the processor's manual has them.
pub mod Laws
pub mod Return
use gbrc.Common.{◌≡◌, ◌<◌, ◌≤◌, ◌==◌, if◌then◌else◌, ℕ, ◌+◌, ◌*◌, ◌/◌, ◌%◌, ◌^◌}
use gbrc.Decoder.Types.{Reg16}
use gbrc.Codegen.Machine.{Runtime, Machine}
use gbrc.Codegen.Alu.{tick}

pub data Pair : Type 0 where
  bc de hl af : Pair

abbrev pub reg16_of : Pair → Reg16
reg16_of bc = Reg16.reg16_bc
reg16_of de = Reg16.reg16_de
reg16_of hl = Reg16.reg16_hl
reg16_of af = Reg16.reg16_af

module _ {W : Type 0} where
  abbrev pub high_of : Pair → Machine W → ℕ
  high_of bc m = m.b
  high_of de m = m.d
  high_of hl m = m.h
  high_of af m = m.a

  -- The flags are the bits 7 to 4 of F.
  abbrev pub low_of : Pair → Machine W → ℕ
  low_of bc m = m.c
  low_of de m = m.e
  low_of hl m = m.l
  low_of af m = m.zero_flag * 128 + m.sub_flag * 64 + m.half_flag * 32 + m.carry_flag * 16

  abbrev pub put_pair : Pair → (high low : ℕ) → Machine W → Machine W
  put_pair bc high low m = record m { b = high; c = low }
  put_pair de high low m = record m { d = high; e = low }
  put_pair hl high low m = record m { h = high; l = low }
  put_pair af high low m = record m {
    a = high;
    zero_flag = low / 128 % 2;
    sub_flag = low / 64 % 2;
    half_flag = low / 32 % 2;
    carry_flag = low / 16 % 2;
  }

  -- Below the stack pointer, the high byte first.
  abbrev pub pushed : Runtime W → (high low : ℕ) → Machine W → Machine W
  pushed runtime high low m =
      let first = (m.sp + 65535) % 65536 in
      let second = (m.sp + 65534) % 65536 in
      record m {
        sp = second;
        world = runtime.write_ram (runtime.write_ram m.world first high) second low;
      }

-- Work RAM keeps what is written to it, and a write there changes nothing else below the echo.
abbrev pub KeepsRam : {W : Type 0} → Runtime W → Type 0
KeepsRam {W} runtime =
    (w : W) (a v b : ℕ)
    → 0xC000 ≤ a
    → a < 0xE000
    → b < 0xE000
    → v < 256
    → runtime.ram (runtime.write_ram w a v) b ≡ (if b == a then v else runtime.ram w b)
