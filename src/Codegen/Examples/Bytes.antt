-- ===== src/Codegen/Examples/Bytes.antt =====
-- The arithmetic on bytes, the loads and the digits of bytes on a concrete machine.
use gbrc.Common.{◌≡◌, none, some, arith}
use gbrc.Codegen.Opcodes.{emit_opcode}
use gbrc.Codegen.Alu.{run}
use gbrc.Codegen.Tests.{plain_memory, some_machine, some_machine-IsMachine, one_cycle}
use gbrc.Codegen.Alu.Operands.{up, step_type, of_step, after_step, step-eq}
use gbrc.Codegen.Rotation.Operands.{rlca, form_type, of_form, after_form, rotation-eq}
use gbrc.Codegen.Loads.{
  from_memory, a_hl_inc, load_type, load_argument, of_load, after_load, load-eq,
}
use gbrc.Codegen.BitOps.{in_memory}
use gbrc.Codegen.Examples.Widths.{byte_memory, byte_memory-GivesBytes}

step-eq_example :
    run byte_memory none
      (emit_opcode (step_type up in_memory) (of_step up in_memory one_cycle))
      some_machine
    ≡ some (after_step byte_memory up in_memory one_cycle some_machine)
step-eq_example =
    step-eq byte_memory byte_memory-GivesBytes up in_memory one_cycle some_machine
      some_machine-IsMachine

load-eq_example :
    run plain_memory
      (load_argument (from_memory a_hl_inc) 0)
      (emit_opcode (load_type (from_memory a_hl_inc)) (of_load (from_memory a_hl_inc) one_cycle))
      some_machine
    ≡ some (after_load plain_memory 0 (from_memory a_hl_inc) one_cycle some_machine)
load-eq_example =
    load-eq plain_memory (from_memory a_hl_inc) one_cycle 0 some_machine some_machine-IsMachine
      (omega arith)

rotation-eq_example :
    run byte_memory none (emit_opcode (form_type rlca) (of_form rlca one_cycle)) some_machine
    ≡ some (after_form byte_memory rlca one_cycle some_machine)
rotation-eq_example =
    rotation-eq byte_memory byte_memory-GivesBytes rlca one_cycle some_machine
      some_machine-IsMachine
