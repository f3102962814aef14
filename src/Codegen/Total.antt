-- ===== src/Codegen/Total.antt =====
-- Code is emitted for every instruction that the decoder returns, and it runs.
use gbrc.Common.{
  ℕ, ◌+◌, ◌%◌, ◌^◌, ◌≡◌, refl, sym, subst, Bool, ◌∙◌, false, ◌||◌, if◌then◌else◌, Option, some,
  none, [], Run, done, panic, out_of_fuel, table,
}
use gbrc.Rom.{Rom}
use gbrc.Rom.Image.{IsImage}
use gbrc.Decoder.Types.{Instruction}
use gbrc.Decoder.Facts.{is_unknown}
use gbrc.Decoder.Switch.{decode_opcode}
use gbrc.Decoder.Cb.{decode_cb_prefixed_opcode}
use gbrc.Decoder.Cache.{decode_fresh}
use gbrc.Analyzer.Flow.{is_block_terminator}
use gbrc.Decoder.Every.{decode_fresh_ext}
use gbrc.Codegen.Ir.{Value}
use gbrc.Codegen.Machine.{Runtime, Machine, Datum, value_of}
use gbrc.Codegen.Opcodes.{emit_opcode, arguments}
use gbrc.Codegen.Alu.{run}

module _ {W : Type 0} (runtime : Runtime W) where
  abbrev pub argument_of : Option Value → Option Datum
  argument_of none = none
  argument_of (some v) = value_of runtime none [] v

  -- The call of the instruction's function that emitCalls emits, with its argument.
  abbrev pub call : Instruction → Machine W → Option (Machine W)
  call i m =
      run runtime (argument_of (arguments i.instruction_type i)) (emit_opcode i.instruction_type i)
        m

either : (a b : Bool) → a ≡ false → b ≡ false → (a || b) ≡ false
either a b h k = rw (h, k) refl

open_if : (b : Bool) (x : Option (ℕ × ℕ)) → b ≡ false → (if b then none else x) ≡ x
open_if b x h = rw h refl

module _ {W : Type 0} (runtime : Runtime W) (m : Machine W) where
  abbrev clock : Option (Machine W) → Option (ℕ × ℕ)
  clock none = none
  clock (some m') = some (m'.pc, m'.cycles)

  abbrev called : Instruction → Option (ℕ × ℕ)
  called i =
      if is_unknown i.instruction_type || is_block_terminator i
      then none
      else clock (call runtime i m)

  abbrev timed : Instruction → Option (ℕ × ℕ)
  timed i =
      if is_unknown i.instruction_type || is_block_terminator i
      then none
      else some (m.pc, (m.cycles + i.base_m_cycles) % 2 ^ 32)

  abbrev under : (Instruction → Option (ℕ × ℕ)) → Run Instruction → Option (ℕ × ℕ)
  under f (done i) = f i
  under f panic = none
  under f out_of_fuel = none

  module _ (rom : Rom) (addr : ℕ) where
    abbrev plain : (Instruction → Option (ℕ × ℕ)) → ℕ → Option (ℕ × ℕ)
    plain f op = under f (decode_opcode rom op addr)

    abbrev prefixed : (Instruction → Option (ℕ × ℕ)) → ℕ → Option (ℕ × ℕ)
    prefixed f op = under f (decode_cb_prefixed_opcode op addr)

    table-plain : table 256 (plain called) ≡ table 256 (plain timed)
    unfolding decode_opcode is_block_terminator
    table-plain = refl

    table-prefixed : table 256 (prefixed called) ≡ table 256 (prefixed timed)
    unfolding decode_cb_prefixed_opcode is_block_terminator
    table-prefixed = refl

    fresh_clock :
        IsImage rom → under called (decode_fresh rom addr) ≡ under timed (decode_fresh rom addr)
    fresh_clock image =
        decode_fresh_ext rom addr (under called) (under timed) image table-plain table-prefixed

  clock-some :
      (r : Option (Machine W)) (p q : ℕ)
      → clock r ≡ some (p, q)
      → (m' : Machine W) × (r ≡ some m') × (m'.pc ≡ p) × (m'.cycles ≡ q)
  clock-some none p q e = cc
  clock-some (some m') p q e = (m', refl, cc, cc)

  -- For every image, every address of it and every machine: if the instruction decoded there is
  -- neither unknown nor a block terminator, then its function is emitted without an error, and
  -- calling it with the argument that emitInstruction passes runs to the end; it leaves the program
  -- counter as it was and adds exactly the instruction's base cycles, modulo 2 ^ 32.
  pub decoded_runs :
      (rom : Rom) (addr : ℕ) (i : Instruction)
      → IsImage rom
      → decode_fresh rom addr ≡ done i
      → is_unknown i.instruction_type ≡ false
      → is_block_terminator i ≡ false
      → (m' : Machine W) × (call runtime i m ≡ some m')
        × (m'.pc ≡ m.pc)
        × (m'.cycles ≡ (m.cycles + i.base_m_cycles) % 2 ^ 32)
  decoded_runs rom addr i image decoded known inside =
      let e : called i ≡ timed i =
        subst (λ r. under called r ≡ under timed r) decoded (fresh_clock rom addr image) in
      let fresh = either (is_unknown i.instruction_type) (is_block_terminator i) known inside in
      clock-some (call runtime i m) m.pc ((m.cycles + i.base_m_cycles) % 2 ^ 32)
        (sym (open_if _ _ fresh) ∙ e ∙ open_if _ _ fresh)
