-- ===== src/Codegen/Cpu.antt =====
-- The processor that the generated program stands for: it decodes at `pc` and does one instruction
-- at a time. An instruction does what its emitted code does.
use gbrc.Common.{
  ℕ, zero, suc, ◌+◌, ◌%◌, ◌^◌, if◌then◌else◌, Option, some, none, Run, done, panic, out_of_fuel,
}
use gbrc.Rom.{Rom}
use gbrc.Decoder.Types.{Instruction}
use gbrc.Decoder.Cache.{decode_fresh}
use gbrc.Analyzer.Flow.{is_block_terminator}
use gbrc.Codegen.Machine.{Runtime, Machine}
use gbrc.Codegen.Exits.{join_terminator}
use gbrc.Codegen.Leave.{run_exit}
use gbrc.Codegen.Total.{call}

infixl 5 ◌>>=◌
abbrev pub ◌>>=◌ {ℓ κ} : {A : Type ℓ} {B : Type κ} → Option A → (A → Option B) → Option B
none >>= f = none
some a >>= f = f a

module _ {W : Type 0} (runtime : Runtime W) (rom : Rom) where
  abbrev pub advance : ℕ → Machine W → Machine W
  advance n m = record m { pc = (m.pc + n) % 2 ^ 16 }

  abbrev pub perform : Instruction → Machine W → Option (Machine W)
  perform i m =
      if is_block_terminator i
      then run_exit runtime (join_terminator i.instruction_type i) m
      else (call runtime i m >>= λ m'. some (advance i.length m'))

  abbrev perform_decoded : Run Instruction → Machine W → Option (Machine W)
  perform_decoded (done i) m = perform i m
  perform_decoded panic m = none
  perform_decoded out_of_fuel m = none

  -- Nothing happens at an address where no instruction is.
  abbrev pub cpu_step : Machine W → Option (Machine W)
  cpu_step m = perform_decoded (decode_fresh rom m.pc) m

  unfoldable pub cpu_steps : ℕ → Machine W → Option (Machine W)
  cpu_steps zero m = some m
  cpu_steps (suc n) m = cpu_step m >>= cpu_steps n
