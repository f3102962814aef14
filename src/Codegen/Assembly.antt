-- ===== src/Codegen/Assembly.antt =====
-- internal/codegen/codegen.go: the functions by mnemonic, the blocks and the dispatcher's chain.
use Prim.Native.Char.{Char, code}
use Prim.Native.String.{String}
use text.Mathlib.Text.{◌==◌ as str_eq}
use gbrc.Common.{
  ℕ, ◌||◌, ◌==◌, if◌then◌else◌, Bool, true, false, Option, some, none, List, [], ◌∷◌, ◌++◌, map,
  length, get_elem?, set,
}
use gbrc.Decoder.Types.{Instruction}
use gbrc.Analyzer.Types.{Block}
use gbrc.Analyzer.Flow.{is_block_terminator}
use gbrc.Codegen.Ir.{Width, i16, Global, Value, new_int, global, Inst}
use gbrc.Codegen.Build.{Build, ◌>>=◌ as then_build, new_load, new_add, new_store}
use gbrc.Codegen.Opcodes.{emit_opcode, arguments}
use gbrc.Codegen.Exits.{Exit, join_terminator, set_pc}

-- A value, a returned error, or an index out of range.
pub data Emit {ℓ} (A : Type ℓ) : Type ℓ where
  emitted : A → Emit A
  failed panicked : Emit A

infixl 5 ◌>>=◌
abbrev pub ◌>>=◌ {ℓ κ} : {A : Type ℓ} {B : Type κ} → Emit A → (A → Emit B) → Emit B
emitted a >>= f = f a
failed >>= f = failed
panicked >>= f = panicked

abbrev pub or_fail {ℓ} : {A : Type ℓ} → Option A → Emit A
or_fail none = failed
or_fail (some a) = emitted a

-- `*ir.Func` of an opcode: its name, the type of its parameter, where it has one, and the code of
-- its entry block, which returns at the end.
pub record Func : Type 0 where
  pub name : String
  pub parameter : Option Width
  pub code : List Inst

-- `function`: the call that emitCalls makes.
pub record Call : Type 0 where
  pub ir_func : Func
  pub args : Option Value

-- A stretch of a block: a call, or instructions that use no value from outside the stretch.
pub data Segment : Type 0 where
  new_call : Call → Segment
  plain : List Inst → Segment

-- The terminator, after its own code: to the dispatcher by way of an `Exit`, or `ret i32 0`.
pub data Terminator : Type 0 where
  leaves : List Inst → Exit → Terminator
  returns : Terminator

pub record IrBlock : Type 0 where
  pub name : ℕ
  pub body : List Segment
  pub term : Option Terminator

-- The fields of the struct that change: the module's functions, `instrFuncs`, the blocks of `main`
-- in their order, and `irBlocks`, with an index in that order for a pointer.
pub record Codegen : Type 0 where
  pub module_funcs : List Func
  pub instr_funcs : String → Option Func
  pub main : List IrBlock
  pub ir_blocks : ℕ → Option ℕ

-- helpers.go: the pairs of `mnemonicReplacer`, and mnemonicToFuncName.
abbrev replace_char : Char → Char
replace_char c =
    if code c == b' ' || (code c == b',' || (code c == b'(' || code c == b')')) then "_" else c

abbrev pub mnemonic_to_func_name : String → String
mnemonic_to_func_name String.[] = ""
mnemonic_to_func_name (String.◌∷◌ c s) = String.◌∷◌ (replace_char c) (mnemonic_to_func_name s)

abbrev pub built : {A : Type 0} → Build A → Option (A × List Inst)
built build = build []

-- A miss of `instrFuncs`: the function is emitted and kept.
unfoldable pub add_instr_func : Codegen → Instruction → Emit (Func × Codegen)
add_instr_func cg instr =
    or_fail (built (emit_opcode instr.instruction_type instr)) >>= λ (parameter, insts).
    let f : Func = record {
      name = mnemonic_to_func_name instr.mnemonic;
      parameter = parameter;
      code = insts;
    } in
    emitted (
      f,
      record cg {
        module_funcs = cg.module_funcs ++ f ∷ [];
        instr_funcs = λ k. if str_eq k instr.mnemonic then some f else cg.instr_funcs k;
      },
    )

unfoldable pub emit_instruction : Codegen → Instruction → Emit (Call × Codegen)
unfolding add_instr_func
emit_instruction cg instr =
    elim (cg.instr_funcs instr.mnemonic) [
      | some f ↦ emitted (f, cg)
      | none ↦ add_instr_func cg instr
    ]
    >>= λ (f, cg').
        emitted (record { ir_func = f; args = arguments instr.instruction_type instr }, cg')

-- The load, the addition and the store of `pc` behind a call.
abbrev pub advance_pc : ℕ → Build (Unit {0})
advance_pc n = then_build (new_load i16 (global Global.pc)) λ pc_val.
    then_build (new_add pc_val (new_int i16 n)) λ pc_inc. new_store pc_inc (global Global.pc)

unfoldable pub emit_calls : Codegen → List Instruction → Emit (List Segment × Codegen)
unfolding emit_instruction
emit_calls cg [] = emitted ([], cg)
emit_calls cg (instr ∷ instrs) = elim (is_block_terminator instr) [
  | true ↦ emit_calls cg instrs
  | false ↦ emit_instruction cg instr >>= λ (fn, cg').
      or_fail (built (advance_pc instr.length)) >>= λ (_, insts).
      emit_calls cg' instrs >>= λ (rest, cg''). emitted (new_call fn ∷ plain insts ∷ rest, cg'')
]

unfoldable pub emit_block : Codegen → Block → Emit Codegen
unfolding emit_calls
emit_block cg block = emit_calls cg block.instructions >>= λ (segments, cg'). emitted (record cg' {
  main = cg'.main ++ record { name = block.start; body = segments; term = none } ∷ [];
  ir_blocks = λ a. if a == block.start then some (length cg'.main) else cg'.ir_blocks a;
})

unfoldable pub emit_blocks : Codegen → List Block → Emit Codegen
unfolding emit_block
emit_blocks cg [] = emitted cg
emit_blocks cg (block ∷ blocks) = emit_block cg block >>= λ cg'. emit_blocks cg' blocks

-- `block.Instructions[len(block.Instructions)-1]`
abbrev pub last_instr : List Instruction → Emit Instruction
last_instr [] = panicked
last_instr (i ∷ []) = emitted i
last_instr (i ∷ (j ∷ is)) = last_instr (j ∷ is)

-- The default case of the switch: one successor, or the end of the program.
abbrev pub fall_through : List ℕ → Option Terminator
fall_through (next ∷ []) = elim (set_pc (new_int i16 next) []) [
  | none ↦ none
  | some (_, insts) ↦ some (leaves insts Exit.br)
]
fall_through _ = some returns

abbrev pub terminator_of : Block → Instruction → Option Terminator
terminator_of block instr =
    if is_block_terminator instr
    then elim (join_terminator instr.instruction_type instr []) [
      | none ↦ none
      | some (exit, insts) ↦ some (leaves insts exit)
    ]
    else fall_through block.successors

abbrev pub set_term : Option Terminator → IrBlock → IrBlock
set_term t b = record b { term = t }

unfoldable pub join_blocks : Codegen → Block → Emit Codegen
join_blocks cg block = or_fail (cg.ir_blocks block.start) >>= λ p.
    last_instr block.instructions >>= λ instr. or_fail (terminator_of block instr) >>= λ t.
    or_fail (get_elem? cg.main p) >>= λ ir_block.
    emitted (record cg { main = set cg.main p (set_term (some t) ir_block) })

unfoldable pub join_all : Codegen → List Block → Emit Codegen
unfolding join_blocks
join_all cg [] = emitted cg
join_all cg (block ∷ blocks) = join_blocks cg block >>= λ cg'. join_all cg' blocks

-- The chain of comparisons in setupReturnDispatcher: a start, and the block that it leads to.
unfoldable pub setup_return_dispatcher : Codegen → List Block → Emit (List (ℕ × ℕ))
setup_return_dispatcher cg [] = emitted []
setup_return_dispatcher cg (block ∷ blocks) = or_fail (cg.ir_blocks block.start) >>= λ target.
    setup_return_dispatcher cg blocks >>= λ chain. emitted ((block.start, target) ∷ chain)

-- emitBlockStarts: the constants of the array, with its end mark.
abbrev pub block_starts : List Block → List ℕ
block_starts blocks = map (λ b. b.start) blocks ++ 0xFFFF ∷ []

pub record Program : Type 0 where
  pub module_funcs : List Func
  pub main : List IrBlock
  pub chain : List (ℕ × ℕ)
  pub starts : List ℕ
  pub boots : Bool

abbrev pub no_code : Codegen
no_code = record { module_funcs = []; instr_funcs = λ _. none; main = []; ir_blocks = λ _. none }

abbrev pub not_empty : List Block → Bool
not_empty [] = false
not_empty (_ ∷ _) = true

-- New, without the globals. `boots` tells whether the entry leads to the dispatcher or returns.
unfoldable pub new_codegen : List Block → Emit Program
new_codegen blocks = emit_blocks no_code blocks >>= λ cg.
    setup_return_dispatcher cg blocks >>= λ chain. join_all cg blocks >>= λ cg'. emitted (record {
      module_funcs = cg'.module_funcs;
      main = cg'.main;
      chain = chain;
      starts = block_starts blocks;
      boots = not_empty blocks;
    })
