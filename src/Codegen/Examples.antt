-- ===== src/Codegen/Examples.antt =====
-- Two blocks of a small image, the program that is generated for them, and `rom_init`.
mod Widths
mod Words
mod Bytes
use gbrc.Common.{
  get_elem?, map, one_of, ℕ, ◌≤◌, ◌*◌, ◌+◌, ◌%◌, ◌^◌, ◌⊎◌, some, All, Pairs, ◌<◌, false, ◌≡◌, refl,
  arith, List, [], ◌∷◌, length, get_or, ltb, if◌then◌else◌, Run, done, panic, out_of_fuel,
}
use gbrc.Rom.{read}
use gbrc.Rom.Tests.{loop_image, loop_image-IsImage}
use gbrc.Decoder.Types.{Instruction, blank as no_instruction}
use gbrc.Decoder.Facts.{is_unknown}
use gbrc.Decoder.Encoding.{imm8}
use gbrc.Decoder.Switch.{decode_opcode}
use gbrc.Decoder.Cache.{new, decode_fresh}
use gbrc.Analyzer.Types.{Block, rom_end}
use gbrc.Analyzer.Flow.{is_block_terminator, find_successors, calculate_relative_jump_address, flow}
use gbrc.Analyzer.Chain.{IsBlock, Sits}
use gbrc.Analyzer.Analyze.{analyze_blocks}
use gbrc.Codegen.Machine.{Runtime, Machine}
use gbrc.Codegen.Tests.{plain_memory, some_machine}
use gbrc.Codegen.Exits.{join_terminator}
use gbrc.Codegen.Exits.Runs.{Timed, terminator_runs}
use gbrc.Codegen.Leave.{run_exit}
use gbrc.Codegen.Cpu.{cpu_steps}
use gbrc.Codegen.Progress.{cpu_steps_lem}
use gbrc.Codegen.Returns.{IsTimely, rom_main_returns, next_budget, budget_overflow_stops}
use gbrc.Codegen.Assembly.{IrBlock, emitted, Program, new_codegen, mnemonic_to_func_name}
use gbrc.Codegen.Catalogue.{body_of, mnemonic_determines_code}
use gbrc.Codegen.Execution.{target_of, Services, rom_main}
use gbrc.Codegen.Emission.Blocks.{Apart}
use gbrc.Codegen.Correct.{new_codegen-IsProgram, dispatcher_finds, new_codegen-Differ}
use gbrc.Codegen.Emission.{Differ}
use gbrc.Codegen.Interpret.{interpret_main}
use gbrc.Codegen.Pipeline.{rom_main_refines}
use gbrc.Codegen.Globals.{rom_init, rom_init_copies}
use gbrc.Codegen.Starts.{is_block_start, is_block_start-new_codegen}

abbrev two_bytes : List ℕ
two_bytes = 0xAF ∷ 0xC9 ∷ []

abbrev instruction_of : Run Instruction → Instruction
instruction_of (done i) = i
instruction_of panic = no_instruction 0
instruction_of out_of_fuel = no_instruction 0

abbrev instruction_at : ℕ → Instruction
instruction_at a = instruction_of (decode_fresh loop_image a)

-- `XOR A`, `DEC A` and `JR NZ` in one block, and the `RET` behind them.
abbrev loop_block : Block
loop_block = record {
  start = 0;
  end = 3;
  instructions = instruction_at 0 ∷ instruction_at 1 ∷ instruction_at 2 ∷ [];
  successors = 1 ∷ 4 ∷ [];
}

abbrev ret_block : Block
ret_block = record { start = 4; end = 4; instructions = instruction_at 4 ∷ []; successors = [] }

loop_Sits :
    (a : ℕ)
    → a < rom_end
    → decode_fresh loop_image a ≡ done (instruction_at a)
    → (instruction_at a).address ≡ a
    → is_unknown (instruction_at a).instruction_type ≡ false
    → 0 < (instruction_at a).length
    → (instruction_at a).length < 4
    → Sits loop_image a (instruction_at a)
loop_Sits a inside decoded at known long short = record {
  inside = inside;
  decoded = decoded;
  at = at;
  known = known;
  long = long;
  short = short;
}

loop_block-IsBlock : IsBlock loop_image loop_block
unfolding decode_fresh decode_opcode read imm8 is_block_terminator find_successors
    calculate_relative_jump_address flow
loop_block-IsBlock = record {
  stop = 4;
  chain = (
    loop_Sits 0 (omega arith) refl refl refl (omega arith) (omega arith),
    (
      loop_Sits 1 (omega arith) refl refl refl (omega arith) (omega arith),
      (loop_Sits 2 (omega arith) refl refl refl (omega arith) (omega arith), refl),
    ),
  );
  straight = (refl, (refl, tt));
  nonempty = λ e. cc;
  ends = refl;
  follows = refl;
}

ret_block-IsBlock : IsBlock loop_image ret_block
unfolding decode_fresh decode_opcode read imm8 is_block_terminator find_successors
    calculate_relative_jump_address flow
ret_block-IsBlock = record {
  stop = 5;
  chain = (loop_Sits 4 (omega arith) refl refl refl (omega arith) (omega arith), refl);
  straight = tt;
  nonempty = λ e. cc;
  ends = refl;
  follows = refl;
}

abbrev at_start : Machine (ℕ → ℕ)
at_start = record some_machine { pc = 0 }

two_blocks-IsBlock : All (IsBlock loop_image) (loop_block ∷ ret_block ∷ [])
two_blocks-IsBlock = (loop_block-IsBlock, (ret_block-IsBlock, tt))

two_blocks-Apart : Pairs Apart (loop_block ∷ ret_block ∷ [])
two_blocks-Apart = (((λ e. cc), tt), (tt, tt))

rom_main_refines_example :
    (bs : List Block) × (p : Program) × (analyze_blocks (new loop_image) (1 ∷ []) ≡ done bs)
    × (new_codegen bs ≡ emitted p)
    × ((runtime : Runtime (ℕ → ℕ)) (services : Services (ℕ → ℕ)) (budget fuel : ℕ)
          (m : Machine (ℕ → ℕ))
        → rom_main runtime services budget p fuel m
          ≡ interpret_main runtime services budget loop_image bs fuel m)
rom_main_refines_example = rom_main_refines loop_image (1 ∷ []) loop_image-IsImage

mnemonic_determines_code_example :
    ((instruction_at 0).mnemonic ≡ (instruction_at 1).mnemonic
      → body_of (instruction_at 0) ≡ body_of (instruction_at 1))
    × (mnemonic_to_func_name (instruction_at 0).mnemonic
          ≡ mnemonic_to_func_name (instruction_at 1).mnemonic
        → (instruction_at 0).mnemonic ≡ (instruction_at 1).mnemonic)
unfolding decode_fresh decode_opcode read imm8 is_block_terminator
mnemonic_determines_code_example =
    mnemonic_determines_code loop_image 0 1 (instruction_at 0) (instruction_at 1) loop_image-IsImage
      refl refl refl refl

rom_init_copies_example :
    (ram' : ℕ → ℕ) × (rom_init two_bytes (λ a. 7) ≡ done ram')
    × ((a : ℕ) → ram' a ≡ (if ltb a (length two_bytes) then get_or two_bytes a 0 else 7))
rom_init_copies_example = rom_init_copies two_bytes (λ a. 7)

terminator_runs_example :
    (m' : Machine (ℕ → ℕ)) × (run_exit plain_memory
        (join_terminator (instruction_at 2).instruction_type (instruction_at 2))
        some_machine
      ≡ some m')
    × Timed plain_memory some_machine (instruction_at 2) m'.cycles
unfolding decode_fresh decode_opcode read imm8 is_block_terminator
terminator_runs_example =
    terminator_runs plain_memory some_machine loop_image 2 (instruction_at 2) loop_image-IsImage
      refl refl

cpu_steps_lem_example :
    (m' : Machine (ℕ → ℕ)) × (cpu_steps plain_memory loop_image
        (length loop_block.instructions)
        at_start
      ≡ some m')
    × (n : ℕ) × (length loop_block.instructions ≤ n)
    × (n ≤ 6 * length loop_block.instructions)
    × (m'.cycles ≡ (at_start.cycles + n) % 2 ^ 32)
cpu_steps_lem_example =
    cpu_steps_lem plain_memory loop_image loop_image-IsImage 0 loop_block-IsBlock.stop
      loop_block.instructions at_start loop_block-IsBlock.chain loop_block-IsBlock.straight
      loop_block-IsBlock.nonempty refl

abbrev two_block_program : Program
two_block_program =
    (new_codegen-IsProgram loop_image (loop_block ∷ ret_block ∷ []) loop_image-IsImage
      two_blocks-IsBlock two_blocks-Apart).0

two_block_program_generated : new_codegen (loop_block ∷ ret_block ∷ []) ≡ emitted two_block_program
two_block_program_generated =
    (new_codegen-IsProgram loop_image (loop_block ∷ ret_block ∷ []) loop_image-IsImage
      two_blocks-IsBlock two_blocks-Apart).1

-- A runtime with no interrupt, whose emulator counts a cycle and does nothing else.
abbrev idle_services : Services (ℕ → ℕ)
idle_services = record {
  interrupt_service = λ m. (0xFFFF, m);
  emulator_run = λ pc m. (pc, record m { cycles = m.cycles + 1 });
}

idle_services-IsTimely : IsTimely idle_services 17556 (loop_block ∷ ret_block ∷ [])
idle_services-IsTimely = record { serves = λ m. refl; runs_on = λ m nowhere below. omega arith }

rom_main_returns_example :
    (m' : Machine (ℕ → ℕ)) × (rom_main plain_memory idle_services 17556 two_block_program 17557
        at_start
      ≡ done m')
    × ((loop_block ∷ ret_block ∷ [] ≡ []) ⊎ ((17556 ≤ m'.cycles) ⊎ (rom_end ≤ m'.pc)))
rom_main_returns_example =
    rom_main_returns plain_memory idle_services 17556 loop_image (loop_block ∷ ret_block ∷ [])
      two_block_program at_start loop_image-IsImage two_blocks-IsBlock two_blocks-Apart
      two_block_program_generated idle_services-IsTimely (omega arith)

dispatcher_finds_example :
    (target_of 4 two_block_program.chain ≡ some 1)
    × (ir : IrBlock) × (get_elem? two_block_program.main 1 ≡ some ir)
    × (ir.name ≡ 4)
dispatcher_finds_example =
    dispatcher_finds loop_image (loop_block ∷ ret_block ∷ []) two_block_program 1 ret_block
      loop_image-IsImage two_blocks-IsBlock two_blocks-Apart two_block_program_generated refl

abbrev near_overflow : Machine (ℕ → ℕ)
near_overflow = record some_machine { cycles = 0xFFFFFFF0 }

budget_overflow_stops_example :
    rom_main plain_memory idle_services (next_budget 0xFFFFFFF0) two_block_program 1 near_overflow
    ≡ done near_overflow
budget_overflow_stops_example =
    budget_overflow_stops plain_memory idle_services two_block_program 0 near_overflow (omega arith)
      (omega arith)

is_block_start-new_codegen_example :
    (bs : List Block) × (p : Program) × (analyze_blocks (new loop_image) (1 ∷ []) ≡ done bs)
    × (new_codegen bs ≡ emitted p)
    × (is_block_start p.starts 4 ≡ done (one_of 4 (map (λ b. b.start) bs)))
is_block_start-new_codegen_example =
    is_block_start-new_codegen loop_image (1 ∷ []) 4 loop_image-IsImage

new_codegen-Differ_example : Pairs Differ two_block_program.module_funcs
new_codegen-Differ_example =
    new_codegen-Differ loop_image (loop_block ∷ ret_block ∷ []) two_block_program loop_image-IsImage
      two_blocks-IsBlock two_blocks-Apart two_block_program_generated
