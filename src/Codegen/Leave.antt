-- ===== src/Codegen/Leave.antt =====
-- The jumps and calls that end a block lead where the analyzer expects.
use gbrc.Common.{
  ℕ, ◌+◌, ◌^◌, ◌<◌, ◌≡◌, refl, Bool, true, false, ◌==◌, ◌||◌, if◌then◌else◌, Option, some, none,
  List, [], ◌∷◌, ◌++◌, bit_xor, arith,
}
use gbrc.Decoder.Types.{Instruction, InstructionType, InstructionType as T, JumpCondition}
use gbrc.Analyzer.Types.{rom_end}
use gbrc.Analyzer.Flow.{find_successors, calculate_relative_jump_address}
use gbrc.Codegen.Ir.{i1, Inst}
use gbrc.Codegen.Build.{Build}
use gbrc.Codegen.Machine.{Runtime, Machine, Datum, word, value_of, step, exec}
use gbrc.Codegen.Exits.{Exit, br, cond_br, join_terminator}

module _ {W : Type 0} (runtime : Runtime W) where
  -- `exec` with the values that the code computed.
  abbrev pub run_locals : List Datum → Machine W → List Inst → Option (List Datum × Machine W)
  run_locals locals m [] = some (locals, m)
  run_locals locals m (inst ∷ code) = elim (step runtime none locals m inst) [
    | none ↦ none
    | some (v, m') ↦ run_locals (locals ++ v ∷ []) m' code
  ]

  abbrev pub branch : Option Datum → (taken skipped : List Inst) → Machine W → Option (Machine W)
  branch (some (word i1 n)) taken skipped m =
      if n == 0 then exec runtime none [] m skipped else exec runtime none [] m taken
  branch _ taken skipped m = none

  abbrev pub leave : Exit → List Datum → Machine W → Option (Machine W)
  leave br locals m = some m
  leave (cond_br cond taken skipped) locals m =
      branch (value_of runtime none locals cond) taken skipped m

  abbrev pub run_exit : Build Exit → Machine W → Option (Machine W)
  run_exit build m = elim (build []) [
    | none ↦ none
    | some (exit, code) ↦ elim (run_locals [] m code) [
      | none ↦ none
      | some (locals, m') ↦ leave exit locals m'
    ]
  ]

-- The terminators whose target is in the instruction.
pub data Transfer : Type 0 where
  jump jump_if relative relative_if call call_if restart : Transfer

abbrev pub transfer_type : Transfer → InstructionType
transfer_type jump = T.jp_nn
transfer_type jump_if = T.jp_cc_nn
transfer_type relative = T.jr_e
transfer_type relative_if = T.jr_cc_e
transfer_type call = T.call_nn
transfer_type call_if = T.call_cc_nn
transfer_type restart = T.rst_n

abbrev pub holds : {W : Type 0} → JumpCondition → Machine W → ℕ
holds JumpCondition.c m = m.carry_flag
holds JumpCondition.nc m = bit_xor m.carry_flag 1
holds JumpCondition.z m = m.zero_flag
holds JumpCondition.nz m = bit_xor m.zero_flag 1
holds JumpCondition.jump_condition_unknown m = bit_xor m.zero_flag 1

abbrev pub contains : ℕ → List ℕ → Bool
contains a [] = false
contains a (x ∷ xs) = x == a || contains a xs

abbrev pub of_transfer : Transfer → JumpCondition → Instruction → Instruction
of_transfer k condition i = record i {
  instruction_type = transfer_type k;
  jump_condition = condition;
}

module _ {W : Type 0} (runtime : Runtime W) where
  -- With the tests of the cycles and of the condition decided.
  leads_if :
      (none_more fails : Bool) (k : Transfer) (condition : JumpCondition) (i : Instruction)
      (m : Machine W)
      → (i.additional_m_cycles == 0) ≡ none_more
      → (holds condition m == 0) ≡ fails
      → i.address + i.length < 2 ^ 16
      → (m' : Machine W) × (run_exit runtime
            (join_terminator (transfer_type k) (of_transfer k condition i))
            m
          ≡ some m')
        × (m'.pc < rom_end
            → contains m'.pc (find_successors i.address (of_transfer k condition i)) ≡ true)
  unfolding find_successors calculate_relative_jump_address
  leads_if more fails jump condition i m e f h = (_, refl, λ inside. ground arith)
  leads_if more fails relative condition i m e f h = (_, refl, λ inside. ground arith)
  leads_if more fails call condition i m e f h = (_, refl, λ inside. ground arith)
  leads_if more fails restart condition i m e f h = (_, refl, λ inside. ground arith)
  leads_if true true k JumpCondition.c i m e f h = rw (e, f) (_, refl, λ inside. ground arith)
  leads_if true true k condition i m e f h = rw (e, f) (_, refl, λ inside. ground arith)
  leads_if true false k JumpCondition.c i m e f h = rw (e, f) (_, refl, λ inside. ground arith)
  leads_if true false k condition i m e f h = rw (e, f) (_, refl, λ inside. ground arith)
  leads_if false true k JumpCondition.c i m e f h = rw (e, f) (_, refl, λ inside. ground arith)
  leads_if false true k condition i m e f h = rw (e, f) (_, refl, λ inside. ground arith)
  leads_if false false k JumpCondition.c i m e f h = rw (e, f) (_, refl, λ inside. ground arith)
  leads_if false false k condition i m e f h = rw (e, f) (_, refl, λ inside. ground arith)

  -- For each of JP nn, JP cc,nn, JR e, JR cc,e, CALL nn, CALL cc,nn and RST at the end of a block,
  -- under any condition and on any machine, if the address behind the instruction fits 16 bits,
  -- then the code that joinBlocks emits has no error and runs to the end; and if it leaves the
  -- program counter below ROM_END, then that is one of the successors that findSuccessors gives
  -- for the instruction.
  pub exit_leads_to_successor :
      (k : Transfer) (condition : JumpCondition) (i : Instruction) (m : Machine W)
      → i.address + i.length < 2 ^ 16
      → (m' : Machine W) × (run_exit runtime
            (join_terminator (transfer_type k) (of_transfer k condition i))
            m
          ≡ some m')
        × (m'.pc < rom_end
            → contains m'.pc (find_successors i.address (of_transfer k condition i)) ≡ true)
  exit_leads_to_successor k condition i m h =
      leads_if (i.additional_m_cycles == 0) (holds condition m == 0) k condition i m refl refl h
