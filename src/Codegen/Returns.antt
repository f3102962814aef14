-- ===== src/Codegen/Returns.antt =====
-- `rom_main` comes to its budget.
use gbrc.Common.{
  ◌%◌, ℕ, zero, suc, ◌+◌, ◌^◌, ◌≤◌, ◌<◌, ◌≡◌, ◌≢◌, ◌⊎◌, inl, inr, refl, sym, subst, arith, true,
  false, leb, ◌==◌, Bool-cases, Option-cases, List-cases, Pairs, some, none, List, [], ◌∷◌, length,
  All, get_elem?, Run, done, ◌∙◌,
}
use gbrc.Rom.{Rom}
use gbrc.Rom.Image.{IsImage}
use gbrc.Decoder.Types.{Instruction}
use gbrc.Analyzer.Types.{Block, rom_end}
use gbrc.Analyzer.Chain.{Chain, IsBlock}
use gbrc.Codegen.Machine.{Runtime, Machine}
use gbrc.Codegen.Assembly.{emitted, Program, new_codegen, not_empty}
use gbrc.Codegen.Execution.{
  After, to_dispatch, ended, Services, serve, emulate, rom_main, dispatch_rounds, dispatch_round,
}
use gbrc.Codegen.Blockwise.{falls_off, falls_off_end}
use gbrc.Codegen.Emission.Blocks.{All_get, Apart}
use gbrc.Codegen.Emission.Dispatch.{block_at, block_at-some}
use gbrc.Codegen.Correct.{generated-IsProgram, rom_main-eq}
use gbrc.Codegen.Interpret.{interpret_target, interpret_round, interpret_rounds}
use gbrc.Codegen.Progress.{cpu_steps_lem, cpu_steps-Plain}

-- What the runtime does with the cycles: none for an interrupt, and in the emulator, which starts
-- where no block does and with cycles left, at least one, without an overflow.
pub record IsTimely {W : Type 0} (services : Services W) (budget : ℕ) (bs : List Block)
    : Type 0 where
  pub serves : (m : Machine W) → (services.interrupt_service m).1.cycles ≡ m.cycles
  pub runs_on :
      (m : Machine W)
      → block_at m.pc 0 bs ≡ none
      → m.cycles < budget
      → m.cycles < (services.emulator_run m.pc m).1.cycles

nonempty-length : {A : Type 0} (xs : List A) → xs ≢ [] → 0 < length xs
nonempty-length [] ne = absurd (ne refl)
nonempty-length (x ∷ xs) ne = omega arith

Chain-length :
    (rom : Rom) (a : ℕ) (is : List Instruction) (stop : ℕ)
    → Chain rom a is stop
    → is ≢ []
    → (a + length is ≤ stop) × (stop < rom_end + 3)
Chain-length rom a [] stop chain ne = absurd (ne refl)
Chain-length rom a (i ∷ []) stop chain ne =
    (omega (arith, chain.0.long, chain.1), omega (arith, chain.0.inside, chain.0.short, chain.1))
Chain-length rom a (i ∷ (j ∷ is)) stop chain ne =
    let (low, high) = Chain-length rom (a + i.length) (j ∷ is) stop chain.1 (λ e. cc) in
    (omega (arith, low, chain.0.long), high)

module _ {W : Type 0} (runtime : Runtime W) (services : Services W) (budget : ℕ) (rom : Rom)
    (bs : List Block) (image : IsImage rom) (good : All (IsBlock rom) bs)
    (timely : IsTimely services budget bs) (room : budget + 2 ^ 18 ≤ 2 ^ 32) where
  serve_cycles : (m : Machine W) → (serve services m).cycles ≡ m.cycles
  serve_cycles m = elim (Bool-cases (m.ime == 0)) [
    | inl off ↦ rw off refl
    | inr on ↦ elim (Bool-cases ((services.interrupt_service m).0 == 0xFFFF)) [
      | inl none_due ↦ rw (on, none_due) (timely.serves m)
      | inr due ↦ rw (on, due) (timely.serves m)
    ]
  ]

  -- A round below the budget: the cycles grow, or it ends with `pc` at the ROM's end or behind it.
  abbrev Moved : ℕ → Run (After W) → Type 0
  Moved n r =
      ((m' : Machine W) × (r ≡ done (to_dispatch m')) × (n < m'.cycles))
      ⊎ ((m' : Machine W) × (r ≡ done (ended m')) × (rom_end ≤ m'.pc))

  target-Moved :
      (m : Machine W)
      → m.cycles < budget
      → Moved m.cycles (interpret_target runtime services budget rom bs (block_at m.pc 0 bs) m)
  target-Moved m below = elim (Option-cases (block_at m.pc 0 bs)) [
    | inl nowhere ↦
        let more = timely.runs_on m nowhere below in
        rw nowhere (inl (emulate services m, refl, more))
    | inr (i, found) ↦
        let (j, at, b, get, start) = block_at-some m.pc 0 i bs found in
        let get' : get_elem? bs i ≡ some b =
          subst (λ x. get_elem? bs x ≡ some b) (omega (arith, at)) get in
        let is = All_get (IsBlock rom) bs i b good get' in
        let (m', ran, n, low, high, clock) =
          cpu_steps_lem runtime rom image b.start is.stop b.instructions m is.chain is.straight
            is.nonempty (sym start) in
        let some_left = nonempty-length b.instructions is.nonempty in
        let (inside, short) =
          Chain-length rom b.start b.instructions is.stop is.chain is.nonempty in
        let grew : m.cycles < m'.cycles =
          omega (arith, clock, low, high, some_left, inside, short) in
        elim (Bool-cases (falls_off b)) [
          | inl off ↦
              let (plain, past) = falls_off_end rom b is off in
              let stops =
                cpu_steps-Plain runtime rom image b.start is.stop b.instructions m m' is.chain plain
                  (sym start) ran in
              rw (found, get', ran, off) (inr (m', refl, omega (arith, stops, past)))
          | inr on ↦ rw (found, get', ran, on) (inl (m', refl, grew))
        ]
  ]

  round-Moved :
      (m : Machine W)
      → m.cycles < budget
      → Moved m.cycles (interpret_round runtime services budget rom bs m)
  round-Moved m below =
      let over : leb budget m.cycles ≡ false = ground arith in
      rw over (
        subst
          (λ n. Moved n (
            interpret_target runtime services budget rom bs (block_at (serve services m).pc 0 bs)
              (serve services m)))
          (serve_cycles m) (target-Moved (serve services m) (omega (arith, serve_cycles m))))

  over_budget : (m : Machine W) → budget ≤ m.cycles → leb budget m.cycles ≡ true
  over_budget m h = ground arith

  -- A round for each cycle up to the budget, and one that finds it used up.
  rounds_return :
      (fuel : ℕ) (m : Machine W)
      → budget ≤ m.cycles + fuel
      → (m' : Machine W) × (interpret_rounds runtime services budget rom bs (suc fuel) m ≡ done m')
        × ((budget ≤ m'.cycles) ⊎ (rom_end ≤ m'.pc))
  unfolding interpret_rounds
  rounds_return zero m enough = (m, rw (over_budget m (omega arith)) refl, inl (omega arith))
  rounds_return (suc fuel) m enough = elim (Bool-cases (leb budget m.cycles)) [
    | inl over ↦ (m, rw over refl, inl (ground arith))
    | inr more ↦ elim (round-Moved m (ground arith)) [
      | inl (m', e, grew) ↦
          let (m'', r, reached) = rounds_return fuel m' (omega (arith, grew)) in
          (m'', rw e r, reached)
      | inr (m', e, past) ↦ (m', rw e refl, inr past)
    ]
  ]

-- For every image and blocks of it with different starts, and the program that New generates for
-- them: where the runtime's interrupt_service leaves `cycles`, its emulator_run adds to it when it
-- starts with cycles left at an address where no block starts, and the budget is at least 2 ^ 18
-- below the overflow of `cycles`, `rom_main` returns from any machine, within one round of the
-- dispatcher for each cycle of the budget and one more. It returns with the budget used up or with
-- `pc` at the ROM's end or behind it, unless there are no blocks.
pub rom_main_returns :
    {W : Type 0} (runtime : Runtime W) (services : Services W) (budget : ℕ) (rom : Rom)
    (bs : List Block) (p : Program) (m : Machine W)
    → IsImage rom
    → All (IsBlock rom) bs
    → Pairs Apart bs
    → new_codegen bs ≡ emitted p
    → IsTimely services budget bs
    → budget + 2 ^ 18 ≤ 2 ^ 32
    → (m' : Machine W) × (rom_main runtime services budget p (suc budget) m ≡ done m')
      × ((bs ≡ []) ⊎ ((budget ≤ m'.cycles) ⊎ (rom_end ≤ m'.pc)))
rom_main_returns runtime services budget rom bs p m image good apart generated timely room =
    let is = generated-IsProgram rom bs p image good apart generated in
    let agrees = rom_main-eq runtime services budget rom bs p image good is (suc budget) m in
    let (m', r, reached) =
      rounds_return runtime services budget rom bs image good timely room budget m (omega arith) in
    elim (List-cases bs) [
      | inl empty ↦ (m, agrees ∙ rw empty refl, inl empty)
      | inr (b, rest, split) ↦
          let runs : not_empty bs ≡ true = rw split refl in (m', agrees ∙ rw runs r, inr reached)
    ]

-- runtime/include/gbrc.h, gb_step: the budget of the next frame.
abbrev pub next_budget : ℕ → ℕ
next_budget cycles = (cycles + 17556) % 2 ^ 32

-- For any program and machine, once `cycles` is so high that gb_step's next budget overflows 32 bits,
-- `rom_main` with that budget returns at once and leaves the whole machine as it was, `cycles`
-- included.
pub budget_overflow_stops :
    {W : Type 0} (runtime : Runtime W) (services : Services W) (p : Program) (fuel : ℕ)
    (m : Machine W)
    → m.cycles < 2 ^ 32
    → 2 ^ 32 ≤ m.cycles + 17556
    → rom_main runtime services (next_budget m.cycles) p (suc fuel) m ≡ done m
unfolding dispatch_rounds dispatch_round
budget_overflow_stops runtime services p fuel m fits over =
    let stops : leb (next_budget m.cycles) m.cycles ≡ true = ground arith in
    elim (Bool-cases p.boots) [ inl boots ↦ rw (boots, stops) refl | inr idle ↦ rw idle refl ]
