-- ===== src/Codegen/Examples/Widths.antt =====
-- The type check and the widths on the program of two blocks.
use gbrc.Common.{ℕ, ◌%◌, ◌+◌, ◌^◌, ◌≡◌, refl, ◌⊎◌, arith, done, out_of_fuel, [], ◌∷◌}
use gbrc.Rom.{read}
use gbrc.Rom.Tests.{loop_image, loop_image-IsImage}
use gbrc.Decoder.Switch.{decode_opcode}
use gbrc.Decoder.Cache.{decode_fresh}
use gbrc.Analyzer.Flow.{is_block_terminator}
use gbrc.Codegen.Ir.{Global}
use gbrc.Codegen.Machine.{Runtime, Machine, put}
use gbrc.Codegen.Execution.{Services, rom_main}
use gbrc.Codegen.Examples.{
  instruction_at, at_start, loop_block, ret_block, two_blocks-IsBlock, two_blocks-Apart,
  two_block_program, two_block_program_generated,
}
use gbrc.Codegen.Typing.Sized.{IsSized, put-IsSized}
use gbrc.Codegen.Typing.Steps.{GivesBytes}
use gbrc.Codegen.Typing.Opcodes.{IsTyped, decoded-IsTyped}
use gbrc.Codegen.Typing.Program.{KeepsWidths, rom_main-IsSized}

-- A memory of bytes.
abbrev pub byte_memory : Runtime (ℕ → ℕ)
byte_memory = record {
  ram = λ w a. w a % 256;
  read_ram = λ w a. (w a % 256, w);
  write_ram = λ w a n. w;
}

pub byte_memory-GivesBytes : GivesBytes byte_memory
byte_memory-GivesBytes = record { ram = λ w a. omega arith; read_ram = λ w a. omega arith }

-- An emulator that counts a cycle, modulo 2 ^ 32.
abbrev counting_services : Services (ℕ → ℕ)
counting_services = record {
  interrupt_service = λ m. (0xFFFF, m);
  emulator_run = λ pc m. (0x150, put m Global.cycles ((m.cycles + 1) % 2 ^ 32));
}

counting_services-KeepsWidths : KeepsWidths counting_services
counting_services-KeepsWidths = record {
  interrupts = λ m h. h;
  vector = λ m. omega arith;
  emulates = λ m h. put-IsSized m Global.cycles ((m.cycles + 1) % 2 ^ 32) h (omega arith);
  new_pc = λ m. omega arith;
}

at_start-IsSized : IsSized at_start
at_start-IsSized Global.pc = omega arith
at_start-IsSized g = omega arith

decoded-IsTyped_example : IsTyped (instruction_at 0)
unfolding decode_fresh decode_opcode read is_block_terminator
decoded-IsTyped_example =
    decoded-IsTyped loop_image 0 (instruction_at 0) loop_image-IsImage refl refl

rom_main-IsSized_example :
    (rom_main byte_memory counting_services 17556 two_block_program 100 at_start ≡ out_of_fuel)
    ⊎ ((m' : Machine (ℕ → ℕ)) × (rom_main byte_memory counting_services 17556 two_block_program 100
            at_start
          ≡ done m')
        × IsSized m')
rom_main-IsSized_example =
    rom_main-IsSized byte_memory counting_services 17556 100 loop_image
      (loop_block ∷ ret_block ∷ []) two_block_program at_start loop_image-IsImage two_blocks-IsBlock
      two_blocks-Apart two_block_program_generated byte_memory-GivesBytes
      counting_services-KeepsWidths at_start-IsSized
