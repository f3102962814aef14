-- ===== src/Codegen/Typing/Program.antt =====
-- The widths of the globals while the assembled program runs.
use gbrc.Common.{
  ℕ, zero, suc, ◌+◌, ◌%◌, ◌^◌, ◌<◌, ◌≡◌, ◌⊎◌, inl, inr, refl, sym, subst, ◌∙◌, arith, leb, ◌==◌,
  Bool-cases, Option-cases, some, List, [], ◌∷◌, Option, if◌then◌else◌, Bool, true, false, All,
  Pairs, length, get_elem?, Run, done, out_of_fuel,
}
use gbrc.Rom.{Rom}
use gbrc.Rom.Image.{IsImage}
use gbrc.Decoder.Types.{Instruction}
use gbrc.Analyzer.Types.{Block}
use gbrc.Analyzer.Flow.{is_block_terminator}
use gbrc.Analyzer.Chain.{Sits, Chain, Straight, IsBlock}
use gbrc.Codegen.Ir.{Global}
use gbrc.Codegen.Machine.{Runtime, Machine}
use gbrc.Codegen.Compiled.{cpu_step_lem}
use gbrc.Codegen.Cpu.{advance, cpu_step, cpu_steps}
use gbrc.Codegen.Typing.Sized.{IsSized, put-IsSized}
use gbrc.Codegen.Typing.Steps.{GivesBytes}
use gbrc.Codegen.Typing.Opcodes.{decoded-IsTyped, call-IsSized}
use gbrc.Codegen.Typing.Exits.{terminator-IsTypedExit}
use gbrc.Codegen.Typing.Leaves.{Arrives, run_exit-Arrives}
use gbrc.Codegen.Progress.{step-Advanced}
use gbrc.Codegen.Assembly.{emitted, Program, new_codegen, not_empty}
use gbrc.Codegen.Execution.{After, to_dispatch, ended, Services, serve, emulate, rom_main}
use gbrc.Codegen.Blockwise.{falls_off}
use gbrc.Codegen.Emission.Blocks.{All_get, Apart}
use gbrc.Codegen.Emission.Dispatch.{block_at, block_at-some}
use gbrc.Codegen.Correct.{generated-IsProgram, rom_main-eq}
use gbrc.Codegen.Interpret.{interpret_target, interpret_round, interpret_rounds}

-- What the functions of the runtime keep that the dispatcher calls.
pub record KeepsWidths {W : Type 0} (services : Services W) : Type 0 where
  pub interrupts : (m : Machine W) → IsSized m → IsSized (services.interrupt_service m).1
  pub vector : (m : Machine W) → (services.interrupt_service m).0 < 2 ^ 16
  pub emulates : (m : Machine W) → IsSized m → IsSized (services.emulator_run m.pc m).1
  pub new_pc : (m : Machine W) → (services.emulator_run m.pc m).0 < 2 ^ 16

some_inj : {A : Type 0} {a b : A} → some a ≡ some b → a ≡ b
some_inj e = cc

if_true : {A : Type 0} (b : Bool) (x y : A) → b ≡ true → (if b then x else y) ≡ x
if_true b x y e = rw e refl

if_false : {A : Type 0} (b : Bool) (x y : A) → b ≡ false → (if b then x else y) ≡ y
if_false b x y e = rw e refl

abbrev machine_of : {W : Type 0} → After W → Machine W
machine_of (to_dispatch m) = m
machine_of (ended m) = m

module _ {W : Type 0} (runtime : Runtime W) (bytes : GivesBytes runtime) (rom : Rom)
    (image : IsImage rom) where
  cpu_step-Arrives :
      (i : Instruction) (m : Machine W)
      → Sits rom m.pc i
      → IsSized m
      → Arrives runtime bytes (cpu_step runtime rom m)
  cpu_step-Arrives i m h sized = elim (Bool-cases (is_block_terminator i)) [
    | inl jumps ↦
        let typed = terminator-IsTypedExit rom m.pc i image h.inside h.decoded jumps in
        let (m', ran, sized') = run_exit-Arrives runtime bytes i m typed sized in
        (m', cpu_step_lem runtime rom image m.pc i m h refl ∙ if_true _ _ _ jumps ∙ ran, sized')
    | inr runs ↦
        let typed = decoded-IsTyped rom m.pc i image h.decoded (rw (h.known, runs) refl) in
        let (m', ran, sized') = call-IsSized runtime bytes i m typed sized in
        (
          advance runtime rom i.length m',
          cpu_step_lem runtime rom image m.pc i m h refl ∙ if_false _ _ _ runs ∙ rw ran refl,
          put-IsSized m' Global.pc ((m'.pc + i.length) % 2 ^ 16) sized' (omega arith),
        )
  ]

  steps_on :
      (n : ℕ) (m m' : Machine W) (o : Option (Machine W))
      → cpu_step runtime rom m ≡ some m'
      → cpu_steps runtime rom n m' ≡ o
      → cpu_steps runtime rom (suc n) m ≡ o
  unfolding cpu_steps
  steps_on n m m' o e rest = rw e rest

  -- The processor on a block.
  cpu_steps-Arrives :
      (a stop : ℕ) (is : List Instruction) (m : Machine W)
      → Chain rom a is stop
      → Straight is
      → m.pc ≡ a
      → IsSized m
      → Arrives runtime bytes (cpu_steps runtime rom (length is) m)
  unfolding cpu_steps
  cpu_steps-Arrives a stop [] m chain straight e sized = (m, refl, sized)
  cpu_steps-Arrives a stop (i ∷ []) m chain straight e sized =
      let (m', ran, sized') = cpu_step-Arrives i m (rw e chain.0) sized in (m', rw ran refl, sized')
  cpu_steps-Arrives a stop (i ∷ (j ∷ is)) m chain straight e sized =
      let sits : Sits rom m.pc i = rw e chain.0 in
      let (m', ran, sized') = cpu_step-Arrives i m sits sized in
      let s = step-Advanced runtime rom image i m sits in
      let same : s.after ≡ m' = some_inj (sym s.went ∙ ran) in
      let next : m'.pc ≡ m.pc + i.length =
        subst (λ x. x.pc ≡ m.pc + i.length) same (s.next straight.0) in
      let (m'', rest, sized'') =
        cpu_steps-Arrives (a + i.length) stop (j ∷ is) m' chain.1 straight.1
          (omega (arith, next, e)) sized' in
      (m'', steps_on (suc (length is)) m m' _ ran rest, sized'')

  module _ (services : Services W) (keeps : KeepsWidths services) (budget : ℕ) (bs : List Block)
      (good : All (IsBlock rom) bs) where
    serve-IsSized : (m : Machine W) → IsSized m → IsSized (serve services m)
    serve-IsSized m h = elim (Bool-cases (m.ime == 0)) [
      | inl off ↦ rw off h
      | inr on ↦ elim (Bool-cases ((services.interrupt_service m).0 == 0xFFFF)) [
        | inl none_due ↦ rw (on, none_due) (keeps.interrupts m h)
        | inr due ↦
            rw (on, due)
              (put-IsSized (services.interrupt_service m).1 Global.pc
                (services.interrupt_service m).0 (keeps.interrupts m h) (keeps.vector m))
      ]
    ]

    abbrev ArrivesAt : Run (After W) → Type 0
    ArrivesAt r = (a : After W) × (r ≡ done a) × IsSized (machine_of a)

    target-ArrivesAt :
        (m : Machine W)
        → IsSized m
        → ArrivesAt (interpret_target runtime services budget rom bs (block_at m.pc 0 bs) m)
    target-ArrivesAt m h = elim (Option-cases (block_at m.pc 0 bs)) [
      | inl nowhere ↦ rw nowhere (
        to_dispatch (emulate services m),
        refl,
        put-IsSized (services.emulator_run m.pc m).1 Global.pc (services.emulator_run m.pc m).0
            (keeps.emulates m h) (keeps.new_pc m),
      )
      | inr (i, found) ↦
          let (j, at, b, get, start) = block_at-some m.pc 0 i bs found in
          let get' : get_elem? bs i ≡ some b =
            subst (λ x. get_elem? bs x ≡ some b) (omega (arith, at)) get in
          let is = All_get (IsBlock rom) bs i b good get' in
          let (m', ran, sized) =
            cpu_steps-Arrives b.start is.stop b.instructions m is.chain is.straight (sym start) h in
          elim (Bool-cases (falls_off b)) [
            | inl off ↦ rw (found, get', ran, off) (ended m', refl, sized)
            | inr on ↦ rw (found, get', ran, on) (to_dispatch m', refl, sized)
          ]
    ]

    round-ArrivesAt :
        (m : Machine W) → IsSized m → ArrivesAt (interpret_round runtime services budget rom bs m)
    round-ArrivesAt m h = elim (Bool-cases (leb budget m.cycles)) [
      | inl over ↦ rw over (ended m, refl, h)
      | inr more ↦ rw more (target-ArrivesAt (serve services m) (serve-IsSized m h))
    ]

    -- Still running, or back within the widths.
    abbrev StaysSized : Run (Machine W) → Type 0
    StaysSized r = (r ≡ out_of_fuel) ⊎ ((m : Machine W) × (r ≡ done m) × IsSized m)

    next_round :
        (fuel : ℕ) (m : Machine W) (a : After W)
        → interpret_round runtime services budget rom bs m ≡ done a
        → IsSized (machine_of a)
        → ((m' : Machine W)
            → IsSized m'
            → StaysSized (interpret_rounds runtime services budget rom bs fuel m'))
        → StaysSized (interpret_rounds runtime services budget rom bs (suc fuel) m)
    unfolding interpret_rounds
    next_round fuel m (ended m') r h rest = inr (m', rw r refl, h)
    next_round fuel m (to_dispatch m') r h rest = elim (rest m' h) [
      | inl out ↦ inl (rw r out)
      | inr (m'', e, h'') ↦ inr (m'', rw r e, h'')
    ]

    rounds-StaysSized :
        (fuel : ℕ) (m : Machine W)
        → IsSized m
        → StaysSized (interpret_rounds runtime services budget rom bs fuel m)
    unfolding interpret_rounds
    rounds-StaysSized zero m h = inl refl
    rounds-StaysSized (suc fuel) m h =
        let (a, r, h') = round-ArrivesAt m h in next_round fuel m a r h' (rounds-StaysSized fuel)

-- For every image and blocks of it with different starts, and the program that New generates for
-- them: where the runtime's memory reads bytes and its interrupt_service and emulator_run leave
-- every global within its width and answer with 16 bits, `rom_main`, from any machine whose globals
-- are within their widths, never gets stuck on an operand, an address or a shift: for any number of
-- rounds it is either still running or has returned, with every global within its width.
pub rom_main-IsSized :
    {W : Type 0} (runtime : Runtime W) (services : Services W) (budget fuel : ℕ) (rom : Rom)
    (bs : List Block) (p : Program) (m : Machine W)
    → IsImage rom
    → All (IsBlock rom) bs
    → Pairs Apart bs
    → new_codegen bs ≡ emitted p
    → GivesBytes runtime
    → KeepsWidths services
    → IsSized m
    → (rom_main runtime services budget p fuel m ≡ out_of_fuel)
      ⊎ ((m' : Machine W) × (rom_main runtime services budget p fuel m ≡ done m') × IsSized m')
rom_main-IsSized runtime services budget fuel rom bs p m image good apart generated bytes keeps h =
    let is = generated-IsProgram rom bs p image good apart generated in
    let agrees = rom_main-eq runtime services budget rom bs p image good is fuel m in
    elim (Bool-cases (not_empty bs)) [
      | inl runs ↦
          elim (rounds-StaysSized runtime bytes rom image services keeps budget bs good fuel m h) [
            | inl out ↦ inl (agrees ∙ rw runs out)
            | inr (m', r, h') ↦ inr (m', agrees ∙ rw runs r, h')
          ]
      | inr idle ↦ inr (m, agrees ∙ rw idle refl, h)
    ]
