-- ===== src/Codegen/Tests.antt =====
-- The emitted code run on small machines.
use gbrc.Common.{ℕ, ◌==◌, if◌then◌else◌, ◌≡◌, refl, Option, none, some, []}
use gbrc.Decoder.Types.{Instruction, blank, InstructionType as T, reg8_b}
use gbrc.Codegen.Machine.{Runtime, Machine, exec}
use gbrc.Common.{◌+◌, ◌%◌, leb, arith}
use gbrc.Codegen.Ir.{i8}
use gbrc.Codegen.Machine.{flag, word}
use gbrc.Codegen.Alu.{run, IsMachine, tick}
use gbrc.Codegen.Stack.{hl, af, reg16_of, high_of, low_of, put_pair}
use gbrc.Codegen.Stack.{KeepsRam}
use gbrc.Codegen.Stack.Laws.{push_pop}
use gbrc.Codegen.Decimal.{decimal, decimal_add}
use gbrc.Common.{false, done}
use gbrc.Rom.{read}
use gbrc.Rom.Tests.{loop_image, loop_image-IsImage}
use gbrc.Decoder.Types.{Reg8}
use gbrc.Decoder.Switch.{decode_opcode}
use gbrc.Decoder.Cache.{decode_fresh}
use gbrc.Analyzer.Flow.{is_block_terminator}
use gbrc.Common.{◌<◌, true}
use gbrc.Decoder.Types.{JumpCondition}
use gbrc.Analyzer.Types.{rom_end}
use gbrc.Analyzer.Flow.{find_successors}
use gbrc.Codegen.Exits.{join_terminator}
use gbrc.Codegen.Leave.{
  run_exit, transfer_type, jump_if, of_transfer, contains, exit_leads_to_successor,
}
use gbrc.Codegen.Total.{call, decoded_runs}
use gbrc.Codegen.Opcodes.{emit_opcode}

-- A memory that is a function, with no devices.
abbrev pub plain_memory : Runtime (ℕ → ℕ)
plain_memory = record {
  ram = λ w a. w a;
  read_ram = λ w a. (w a, w);
  write_ram = λ w a v x. if x == a then v else w x;
}

abbrev pub some_machine : Machine (ℕ → ℕ)
some_machine = record {
  cycles = 0;
  a = 0x3C;
  b = 0xC6;
  c = 0;
  d = 0;
  e = 0;
  h = 0xC0;
  l = 0x10;
  zero_flag = 0;
  sub_flag = 1;
  half_flag = 0;
  carry_flag = 1;
  pc = 0x150;
  sp = 0xFFFE;
  ime = 0;
  world = λ _. 0;
}

abbrev run_opcode : Instruction → Option (Machine (ℕ → ℕ))
run_opcode instr = elim (emit_opcode instr.instruction_type instr []) [
  | none ↦ none
  | some (_, code) ↦ exec plain_memory none [] some_machine code
]

adc_b :
    run_opcode
      (record (blank 0x150) { instruction_type = T.adc_r8; reg8_src = reg8_b; base_m_cycles = 1 })
    ≡ some
        (record some_machine { cycles = 1; a = 0x03; sub_flag = 0; half_flag = 1; carry_flag = 1 })
adc_b = refl

abbrev xor_a : Instruction
xor_a = record (blank 0) {
  mnemonic = "XOR A";
  instruction_type = T.xor_r8;
  length = 1;
  base_m_cycles = 1;
  reg8_src = Reg8.reg8_a;
  reg8_dest = Reg8.reg8_a;
}

pub some_machine-IsMachine : IsMachine some_machine
some_machine-IsMachine = record {
  a = omega arith;
  b = omega arith;
  c = omega arith;
  d = omega arith;
  e = omega arith;
  h = omega arith;
  l = omega arith;
  zero_flag = omega arith;
  sub_flag = omega arith;
  half_flag = omega arith;
  carry_flag = omega arith;
  sp = omega arith;
}

abbrev pub one_cycle : Instruction
one_cycle = record (blank 0x150) { base_m_cycles = 1 }

pub plain_memory-KeepsRam : KeepsRam plain_memory
plain_memory-KeepsRam w a v b low high bound byte = refl

abbrev pub stacked : Machine (ℕ → ℕ)
stacked = record some_machine { sp = 0xDFFE }

stacked-IsMachine : IsMachine stacked
stacked-IsMachine = record {
  a = omega arith;
  b = omega arith;
  c = omega arith;
  d = omega arith;
  e = omega arith;
  h = omega arith;
  l = omega arith;
  zero_flag = omega arith;
  sub_flag = omega arith;
  half_flag = omega arith;
  carry_flag = omega arith;
  sp = omega arith;
}

push_pop_example :
    (m' : Machine (ℕ → ℕ)) × (run plain_memory none
        (emit_opcode T.push_r16
          (record one_cycle { instruction_type = T.push_r16; reg16 = reg16_of hl }))
        stacked
      ≡ some m')
    × (run plain_memory none
          (emit_opcode T.pop_r16
            (record one_cycle { instruction_type = T.pop_r16; reg16 = reg16_of af }))
          m'
        ≡ some (
            tick 1 (
              put_pair af
                (high_of hl stacked)
                (low_of hl stacked)
                (record (tick 1 stacked) { world = m'.world }))))
push_pop_example =
    push_pop plain_memory hl af one_cycle one_cycle stacked plain_memory-KeepsRam stacked-IsMachine
      (omega arith) (omega arith)

abbrev fifty_eight : Machine (ℕ → ℕ)
fifty_eight = record some_machine { a = 0x58 }

fifty_eight-IsMachine : IsMachine fifty_eight
fifty_eight-IsMachine = record {
  a = omega arith;
  b = omega arith;
  c = omega arith;
  d = omega arith;
  e = omega arith;
  h = omega arith;
  l = omega arith;
  zero_flag = omega arith;
  sub_flag = omega arith;
  half_flag = omega arith;
  carry_flag = omega arith;
  sp = omega arith;
}

decimal_add_example :
    (m' : Machine (ℕ → ℕ)) × (run plain_memory
        (some (word i8 (decimal 67)))
        (emit_opcode T.add_n (record one_cycle { instruction_type = T.add_n }))
        fifty_eight
      ≡ some m')
    × (run plain_memory none (emit_opcode T.daa (record one_cycle { instruction_type = T.daa })) m'
        ≡ some (
            tick 1 (
              tick 1 (record fifty_eight {
                a = decimal ((58 + 67) % 100);
                zero_flag = flag ((58 + 67) % 100 == 0);
                sub_flag = 0;
                half_flag = 0;
                carry_flag = flag (leb 100 (58 + 67));
              }))))
decimal_add_example =
    decimal_add plain_memory 58 67 one_cycle one_cycle fifty_eight (omega arith) (omega arith)
      fifty_eight-IsMachine refl

xor_a_decoded : decode_fresh loop_image 0 ≡ done xor_a
unfolding decode_fresh decode_opcode read
xor_a_decoded = refl

xor_a_runs : is_block_terminator xor_a ≡ false
unfolding is_block_terminator
xor_a_runs = refl

decoded_runs_example :
    (m' : Machine (ℕ → ℕ)) × (call plain_memory xor_a some_machine ≡ some m')
    × (m'.pc ≡ 0x150)
    × (m'.cycles ≡ 1)
decoded_runs_example =
    decoded_runs plain_memory some_machine loop_image 0 xor_a loop_image-IsImage xor_a_decoded refl
      xor_a_runs

abbrev jump_back : Instruction
jump_back = record one_cycle { length = 3; imm16_bit = 0x120; additional_m_cycles = 1 }

exit_leads_to_successor_example :
    (m' : Machine (ℕ → ℕ)) × (run_exit plain_memory
        (join_terminator (transfer_type jump_if) (of_transfer jump_if JumpCondition.c jump_back))
        some_machine
      ≡ some m')
    × (m'.pc < rom_end
        → contains m'.pc (find_successors 0x150 (of_transfer jump_if JumpCondition.c jump_back))
          ≡ true)
exit_leads_to_successor_example =
    exit_leads_to_successor plain_memory jump_if JumpCondition.c jump_back some_machine
      (omega arith)
