-- ===== src/Analyzer/Flow.antt =====
-- internal/analyzer/helpers.go, and findSuccessors with calculateRelativeJumpAddress of analyzer.go.
pub mod Bounds
use gbrc.Common.{
  ℕ, ◌+◌, ◌%◌, ◌^◌, Bool, true, false, Option, none, some, ltb, if◌then◌else◌, List, [], ◌∷◌, ◌++◌,
}
use gbrc.Decoder.Types.{Instruction, InstructionType, InstructionType as T}
use gbrc.Analyzer.Types.{rom_end, add16}

-- The switch of IsBlockTerminator.
terminator_type : InstructionType → Bool
terminator_type T.jp_nn = true
terminator_type T.jp_hl = true
terminator_type T.jr_e = true
terminator_type T.ret = true
terminator_type T.reti = true
terminator_type T.jp_cc_nn = true
terminator_type T.jr_cc_e = true
terminator_type T.ret_cc = true
terminator_type T.call_nn = true
terminator_type T.call_cc_nn = true
terminator_type T.rst_n = true
terminator_type _ = false

unfoldable pub is_block_terminator : Instruction → Bool
unfolding terminator_type
is_block_terminator instr = terminator_type instr.instruction_type

-- `int16(int8(n))`, as a pattern of 16 bits.
unfoldable pub sign_extend8 : ℕ → ℕ
sign_extend8 n = if ltb n 0x80 then n else n + 0xFF00

-- The sum of three int16 as a uint16: two's complement adds like unsigned numbers.
unfoldable pub calculate_relative_jump_address : ℕ → Instruction → ℕ
unfolding sign_extend8
calculate_relative_jump_address addr instr =
    (addr + instr.length + sign_extend8 instr.imm8_bit) % 2 ^ 16

-- The closure `add`: targets outside the ROM are dropped.
abbrev pub add : List ℕ → ℕ → List ℕ
add successors t = if ltb t rom_end then successors ++ t ∷ [] else successors

-- The switch, with the address behind the instruction.
pub successors_by : InstructionType → ℕ → ℕ → Instruction → List ℕ
unfolding calculate_relative_jump_address
successors_by T.jp_nn addr next instr = add [] instr.imm16_bit
successors_by T.jp_cc_nn addr next instr = add (add [] instr.imm16_bit) next
successors_by T.jr_e addr next instr = add [] (calculate_relative_jump_address addr instr)
successors_by T.jr_cc_e addr next instr =
    add (add [] (calculate_relative_jump_address addr instr)) next
successors_by T.call_nn addr next instr = add (add [] instr.imm16_bit) next
successors_by T.call_cc_nn addr next instr = add (add [] instr.imm16_bit) next
successors_by T.ret_cc addr next instr = add [] next
successors_by T.rst_n addr next instr = add (add [] instr.call_function_address) next
successors_by _ addr next instr = []

unfoldable pub find_successors : ℕ → Instruction → List ℕ
unfolding successors_by
find_successors addr instr =
    successors_by instr.instruction_type addr (add16 addr instr.length) instr

-- The successors that a block ending before `stop` should have.
unfoldable pub flow : ℕ → Option Instruction → List ℕ
flow stop none = []
flow stop (some i) =
    if is_block_terminator i
    then find_successors i.address i
    else if ltb stop rom_end
    then stop ∷ []
    else []
