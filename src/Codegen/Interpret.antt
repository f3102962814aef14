-- ===== src/Codegen/Interpret.antt =====
-- The processor that goes from block to block, with the interrupts, the emulator and the budget of the
-- dispatcher: what `rom_main` is meant to do.
use gbrc.Common.{
  ℕ, zero, suc, leb, if◌then◌else◌, Option, some, none, List, length, get_elem?, Run, done,
  out_of_fuel, ◌>>=◌, of_option,
}
use gbrc.Rom.{Rom}
use gbrc.Analyzer.Types.{Block}
use gbrc.Codegen.Machine.{Runtime, Machine}
use gbrc.Codegen.Assembly.{not_empty}
use gbrc.Codegen.Execution.{After, to_dispatch, ended, Services, serve, emulate}
use gbrc.Codegen.Cpu.{cpu_steps}
use gbrc.Codegen.Blockwise.{after_block, falls_off}
use gbrc.Codegen.Emission.Dispatch.{block_at}

module _ {W : Type 0} (runtime : Runtime W) (services : Services W) (budget : ℕ) (rom : Rom)
    (bs : List Block) where
  -- The processor on the block that starts at `pc`; the runtime's emulator where none does.
  abbrev pub interpret_target : Option ℕ → Machine W → Run (After W)
  interpret_target none m = done (to_dispatch (emulate services m))
  interpret_target (some k) m = of_option (get_elem? bs k) >>= λ b.
      of_option (after_block (falls_off b) (cpu_steps runtime rom (length b.instructions) m))

  abbrev pub interpret_round : Machine W → Run (After W)
  interpret_round m =
      if leb budget m.cycles
      then done (ended m)
      else (let m' = serve services m in interpret_target (block_at m'.pc 0 bs) m')

  unfoldable pub interpret_rounds : ℕ → Machine W → Run (Machine W)
  interpret_rounds zero m = out_of_fuel
  interpret_rounds (suc fuel) m = interpret_round m >>= λ a. elim a [
    | ended m' ↦ done m'
    | to_dispatch m' ↦ interpret_rounds fuel m'
  ]

  abbrev pub interpret_main : ℕ → Machine W → Run (Machine W)
  interpret_main fuel m = if not_empty bs then interpret_rounds fuel m else done m
