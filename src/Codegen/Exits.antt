-- ===== src/Codegen/Exits.antt =====
-- internal/codegen/opcodes.go, the block terminators, by the switch of joinBlocks in
-- internal/codegen/codegen.go: what follows the calls in a block, up to the return dispatcher.
pub mod Total
pub mod Runs
use gbrc.Common.{◌+◌, none, some, List, []}
use gbrc.Decoder.Types.{Instruction, InstructionType, InstructionType as T, reg16_hl}
use gbrc.Analyzer.Flow.{calculate_relative_jump_address}
use gbrc.Codegen.Ir.{i8, i16, Global, Value, new_int, global, Inst}
use gbrc.Codegen.Build.{Build, ◌>>=◌, ◌>>◌, pure, fail, new_store, new_select}
use gbrc.Codegen.Helpers.{
  increase_cycles, increase_additional_cycles, load_condition, push_return_address,
  pop_return_address, find_reg16_global_defs, read_reg16,
}

-- How a block ends: in the dispatcher, or in one of two blocks that end there.
pub data Exit : Type 0 where
  br : Exit
  cond_br : (cond : Value) (taken skipped : List Inst) → Exit

-- `cg.main.NewBlock`: code that is built in a block of its own.
abbrev pub new_block : Build (Unit {0}) → Build (List Inst)
new_block build code = elim (build []) [ none ↦ none | some (_, block) ↦ some (block, code) ]

abbrev pub set_pc : Value → Build (Unit {0})
set_pc target = new_store target (global Global.pc)

-- `int64(instr.Address)+int64(instr.Length)` as a constant of 16 bits.
abbrev pub after : Instruction → Value
after instr = new_int i16 (instr.address + instr.length)

abbrev pub jp_nn : Instruction → Build Exit
jp_nn instr = do increase_cycles instr; set_pc (new_int i16 instr.imm16_bit); pure br

-- The end of jp_cc_nn and jr_cc_e, which differ in the target.
abbrev pub jump_on_condition : Instruction → Value → Build Exit
jump_on_condition instr target = do
  cond ← load_condition instr.jump_condition
  next_pc ← new_select cond target (after instr)
  set_pc next_pc
  taken ← new_block (increase_additional_cycles instr)
  pure (cond_br cond taken [])

abbrev pub jp_cc_nn : Instruction → Build Exit
jp_cc_nn instr = increase_cycles instr >> jump_on_condition instr (new_int i16 instr.imm16_bit)

-- helpers.go has the analyzer's calculateRelativeJumpAddress again, at the instruction's address.
abbrev pub jump_target : Instruction → Value
jump_target instr = new_int i16 (calculate_relative_jump_address instr.address instr)

abbrev pub jr_e : Instruction → Build Exit
jr_e instr = do increase_cycles instr; set_pc (jump_target instr); pure br

abbrev pub jr_cc_e : Instruction → Build Exit
jr_cc_e instr = increase_cycles instr >> jump_on_condition instr (jump_target instr)

abbrev pub call_nn : Instruction → Build Exit
call_nn instr = do
  increase_cycles instr
  push_return_address (after instr)
  set_pc (new_int i16 instr.imm16_bit)
  pure br

abbrev pub call_cc_nn : Instruction → Build Exit
call_cc_nn instr = do
  increase_cycles instr
  cond ← load_condition instr.jump_condition
  next_pc ← new_select cond (new_int i16 instr.imm16_bit) (after instr)
  set_pc next_pc
  taken ← new_block (push_return_address (after instr) >> increase_additional_cycles instr)
  pure (cond_br cond taken [])

-- In the three that return, and in jp_hl, the dispatcher's block is set up before.
abbrev pub ret : Instruction → Build Exit
ret instr = do increase_cycles instr; ret_addr ← pop_return_address; set_pc ret_addr; pure br

abbrev pub reti : Instruction → Build Exit
reti instr = do
  increase_cycles instr
  ret_addr ← pop_return_address
  set_pc ret_addr
  new_store (new_int i8 1) (global Global.ime)
  pure br

abbrev pub ret_cc : Instruction → Build Exit
ret_cc instr = do
  increase_cycles instr
  cond ← load_condition instr.jump_condition
  skipped ← new_block (set_pc (after instr))
  taken ←
      new_block do ret_addr ← pop_return_address; increase_additional_cycles instr; set_pc ret_addr
  pure (cond_br cond taken skipped)

abbrev pub jp_hl : Instruction → Build Exit
jp_hl instr = do
  increase_cycles instr
  hl ← find_reg16_global_defs reg16_hl
  hl_val ← read_reg16 hl
  set_pc hl_val
  pure br

abbrev pub rst_n : Instruction → Build Exit
rst_n instr = do
  increase_cycles instr
  push_return_address (after instr)
  set_pc (new_int i16 instr.call_function_address)
  pure br

-- The cases of the switch of joinBlocks that are terminators.
abbrev pub join_terminator : InstructionType → Instruction → Build Exit
join_terminator T.jp_nn instr = jp_nn instr
join_terminator T.jp_cc_nn instr = jp_cc_nn instr
join_terminator T.jr_e instr = jr_e instr
join_terminator T.jr_cc_e instr = jr_cc_e instr
join_terminator T.call_nn instr = call_nn instr
join_terminator T.call_cc_nn instr = call_cc_nn instr
join_terminator T.ret instr = ret instr
join_terminator T.reti instr = reti instr
join_terminator T.ret_cc instr = ret_cc instr
join_terminator T.jp_hl instr = jp_hl instr
join_terminator T.rst_n instr = rst_n instr
join_terminator _ instr = fail
