-- ===== src/Codegen/Examples/Words.antt =====
-- The 16-bit arithmetic, and a call with its return, on concrete machines.
use gbrc.Common.{ℕ, ◌≡◌, refl, ◌+◌, some, arith}
use gbrc.Decoder.Types.{Instruction}
use gbrc.Codegen.Machine.{Machine, word}
use gbrc.Codegen.Ir.{i8}
use gbrc.Codegen.Opcodes.{emit_opcode}
use gbrc.Codegen.Alu.{run, tick}
use gbrc.Codegen.Exits.{join_terminator}
use gbrc.Codegen.Leave.{run_exit}
use gbrc.Codegen.Tests.{plain_memory, plain_memory-KeepsRam, one_cycle, stacked}
use gbrc.Codegen.WordAlu.{to_hl, offset_type, offset_register, after_offset}
use gbrc.Codegen.WordAlu.Laws.{offset-eq}
use gbrc.Codegen.Stack.Return.{
  calls, returns_enabled, caller_type, returner_type, destination, enabled, KeepsFrame, call_ret,
}

offset-eq_example :
    run plain_memory (some (word i8 0xFE)) (emit_opcode (offset_type to_hl) one_cycle) stacked
    ≡ some (after_offset (offset_register to_hl) one_cycle 0xFE stacked)
offset-eq_example = offset-eq plain_memory to_hl one_cycle 0xFE stacked (omega arith)

abbrev clear_a : {W : Type 0} → Machine W → Machine W
clear_a m = record m { a = 0 }

clear_a-KeepsFrame : KeepsFrame plain_memory clear_a
clear_a-KeepsFrame = record { same_sp = λ m. refl; same_bytes = λ m b low high. refl }

abbrev call_0x120 : Instruction
call_0x120 = record one_cycle { length = 3; imm16_bit = 0x120 }

call_ret_example :
    (m' : Machine (ℕ → ℕ)) × (run_exit plain_memory
        (join_terminator (caller_type calls) call_0x120)
        stacked
      ≡ some m')
    × (m'.pc ≡ destination calls call_0x120)
    × (run_exit plain_memory
          (join_terminator (returner_type returns_enabled) one_cycle)
          (clear_a m')
        ≡ some (
            enabled returns_enabled (record (tick one_cycle.base_m_cycles (clear_a m')) {
              pc = call_0x120.address + call_0x120.length;
              sp = stacked.sp;
            })))
call_ret_example =
    call_ret plain_memory calls returns_enabled call_0x120 one_cycle clear_a stacked
      plain_memory-KeepsRam clear_a-KeepsFrame (omega arith) (omega arith) (omega arith)
