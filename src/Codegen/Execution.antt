-- ===== src/Codegen/Execution.antt =====
-- What the assembled program does: the functions `rom_main` and, below its blocks, the dispatcher.
use gbrc.Common.{
  ℕ, zero, suc, leb, ◌==◌, if◌then◌else◌, Option, some, none, List, [], ◌∷◌, get_elem?, Run, done,
  out_of_fuel, ◌>>=◌, of_option,
}
use gbrc.Codegen.Machine.{Runtime, Machine, exec}
use gbrc.Codegen.Total.{argument_of}
use gbrc.Codegen.Leave.{run_locals, leave}
use gbrc.Codegen.Assembly.{
  Call, Segment, new_call, plain, Terminator, leaves, returns, IrBlock, Program,
}

-- Where a block leaves the machine: at the dispatcher, or behind the return of `rom_main`.
pub data After (W : Type 0) : Type 0 where
  to_dispatch : Machine W → After W
  ended : Machine W → After W

module _ {W : Type 0} (runtime : Runtime W) where
  abbrev pub run_call : Call → Machine W → Option (Machine W)
  run_call c m = exec runtime (argument_of runtime c.args) [] m c.ir_func.code

  abbrev pub run_segments : List Segment → Machine W → Option (Machine W)
  run_segments [] m = some m
  run_segments (new_call c ∷ rest) m = elim (run_call c m) [
    | none ↦ none
    | some m' ↦ run_segments rest m'
  ]
  run_segments (plain insts ∷ rest) m = elim (exec runtime none [] m insts) [
    | none ↦ none
    | some m' ↦ run_segments rest m'
  ]

  abbrev pub finish : Option (Machine W) → Option (After W)
  finish none = none
  finish (some m) = some (to_dispatch m)

  -- A block without a terminator is no block of LLVM.
  abbrev pub run_term : Option Terminator → Machine W → Option (After W)
  run_term none m = none
  run_term (some returns) m = some (ended m)
  run_term (some (leaves insts exit)) m = elim (run_locals runtime [] m insts) [
    | none ↦ none
    | some (locals, m') ↦ finish (leave runtime exit locals m')
  ]

  abbrev pub run_block : IrBlock → Machine W → Option (After W)
  run_block b m = elim (run_segments b.body m) [ none ↦ none | some m' ↦ run_term b.term m' ]

-- The chain of comparisons: the block of the first start that `pc` is.
abbrev pub target_of : ℕ → List (ℕ × ℕ) → Option ℕ
target_of pc [] = none
target_of pc ((start, target) ∷ chain) = if pc == start then some target else target_of pc chain

-- The functions of the runtime that the dispatcher calls, which may change the whole machine.
pub record Services (W : Type 0) : Type 0 where
  pub interrupt_service : Machine W → ℕ × Machine W
  pub emulator_run : ℕ → Machine W → ℕ × Machine W

module _ {W : Type 0} (services : Services W) where
  -- `ret_dispatch_int` and the blocks up to `ret_dispatch_lookup`.
  abbrev pub serve : Machine W → Machine W
  serve m =
      if m.ime == 0
      then m
      else (let (vec, m') = services.interrupt_service m in
          if vec == 0xFFFF then m' else record m' { pc = vec })

  abbrev pub emulate : Machine W → Machine W
  emulate m = let (new_pc, m') = services.emulator_run m.pc m in record m' { pc = new_pc }

module _ {W : Type 0} (runtime : Runtime W) (services : Services W) (budget : ℕ) (p : Program) where
  abbrev pub run_target : Option ℕ → Machine W → Run (After W)
  run_target none m = done (to_dispatch (emulate services m))
  run_target (some k) m = of_option (get_elem? p.main k) >>= λ b. of_option (run_block runtime b m)

  -- From `ret_dispatch` back to it, or to the return of `rom_main`.
  unfoldable pub dispatch_round : Machine W → Run (After W)
  dispatch_round m =
      if leb budget m.cycles
      then done (ended m)
      else (let m' = serve services m in run_target (target_of m'.pc p.chain) m')

  unfoldable pub dispatch_rounds : ℕ → Machine W → Run (Machine W)
  unfolding dispatch_round
  dispatch_rounds zero m = out_of_fuel
  dispatch_rounds (suc fuel) m = dispatch_round m >>= λ a. elim a [
    | ended m' ↦ done m'
    | to_dispatch m' ↦ dispatch_rounds fuel m'
  ]

  abbrev pub rom_main : ℕ → Machine W → Run (Machine W)
  rom_main fuel m = if p.boots then dispatch_rounds fuel m else done m
