-- ===== src/Analyzer/Flow/Bounds.antt =====
-- Every successor that findSuccessors returns is an address in the ROM.
use gbrc.Common.{
  Option, none, some, ℕ, ◌<◌, ltb, ltb→lt, Bool-cases, inl, inr, List, [], ◌∷◌, All, All-append,
}
use gbrc.Decoder.Types.{Instruction, InstructionType, InstructionType as T}
use gbrc.Analyzer.Types.{rom_end}
use gbrc.Analyzer.Flow.{
  is_block_terminator, flow, add, successors_by, find_successors, calculate_relative_jump_address,
}

abbrev pub InRom : List ℕ → Type 0
InRom = All (λ a. a < rom_end)

add-InRom : (xs : List ℕ) (t : ℕ) → InRom xs → InRom (add xs t)
add-InRom xs t h = elim (Bool-cases (ltb t rom_end)) [
  | inl inside ↦ rw inside (All-append (λ a. a < rom_end) xs (t ∷ []) h (ltb→lt _ _ inside, tt))
  | inr outside ↦ rw outside h
]

successors_by-InRom :
    (t : InstructionType) (addr next : ℕ) (i : Instruction) → InRom (successors_by t addr next i)
unfolding successors_by
successors_by-InRom T.jp_nn addr next i = add-InRom [] i.imm16_bit tt
successors_by-InRom T.jp_cc_nn addr next i = add-InRom _ next (add-InRom [] i.imm16_bit tt)
successors_by-InRom T.jr_e addr next i = add-InRom [] (calculate_relative_jump_address addr i) tt
successors_by-InRom T.jr_cc_e addr next i =
    add-InRom _ next (add-InRom [] (calculate_relative_jump_address addr i) tt)
successors_by-InRom T.call_nn addr next i = add-InRom _ next (add-InRom [] i.imm16_bit tt)
successors_by-InRom T.call_cc_nn addr next i = add-InRom _ next (add-InRom [] i.imm16_bit tt)
successors_by-InRom T.ret_cc addr next i = add-InRom [] next tt
successors_by-InRom T.rst_n addr next i = add-InRom _ next (add-InRom [] i.call_function_address tt)
successors_by-InRom _ addr next i = tt

-- Every successor of every instruction at every address is less than ROM_END.
pub find_successors-InRom : (addr : ℕ) (i : Instruction) → InRom (find_successors addr i)
unfolding find_successors
find_successors-InRom addr i = successors_by-InRom i.instruction_type addr _ i

pub flow-InRom : (stop : ℕ) (last : Option Instruction) → InRom (flow stop last)
unfolding flow
flow-InRom stop none = tt
flow-InRom stop (some i) = elim (Bool-cases (is_block_terminator i)) [
  | inl jumps ↦ rw jumps (find_successors-InRom i.address i)
  | inr runs ↦ rw runs (add-InRom [] stop tt)
]
