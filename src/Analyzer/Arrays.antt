-- ===== src/Analyzer/Arrays.antt =====
-- internal/analyzer/analyzer.go: the loops over the arrays and over a block's instructions. Each
-- counted loop recurs on the rounds that are left.
pub mod Laws
use gbrc.Common.{
  ℕ, zero, suc, ◌+◌, ◌-◌, Bool, true, false, not, ◌&&◌, ◌||◌, ltb, leb, ◌==◌, if◌then◌else◌, Option,
  none, some, List, [], ◌∷◌, ◌++◌,
}
use gbrc.Decoder.Types.{Instruction}
use gbrc.Analyzer.Types.{Block, rom_end, Owners, Starts, State, sub16}

abbrev pub is_owned : Option ℕ → Bool
is_owned none = false
is_owned (some _) = true

-- `owned[i] = v`
abbrev pub store : Owners → ℕ → Option ℕ → Owners
store owned i v a = if a == i then v else owned a

-- `for i := from; i <= to && int(i) < len(ownedBy); i++ { ownedBy[i] = v }`
unfoldable pub fill : ℕ → ℕ → ℕ → Option ℕ → Owners → Owners
fill zero i to v owned = owned
fill (suc rounds) i to v owned =
    let rest = fill rounds (i + 1) to v (store owned i v) in
    if leb i to && ltb i rom_end then rest else owned

unfoldable pub claim_bytes : Owners → ℕ → ℕ → ℕ → Owners
unfolding fill
claim_bytes owned block from to = fill (to + 1 - from) from to (some block) owned

-- The loop of spansKnownStart from `i` on.
unfoldable pub spans : ℕ → ℕ → Owners → Starts → Bool
spans zero i owned starts = false
spans (suc rounds) i owned starts =
    let rest = spans rounds (i + 1) owned starts in
    if ltb i rom_end && (starts i || is_owned (owned i)) then true else rest

unfoldable pub spans_known_start : Owners → Starts → ℕ → ℕ → Bool
unfolding spans
spans_known_start owned starts from to = spans (to - from) (from + 1) owned starts

unfoldable pub is_boundary_of : ℕ → List Instruction → Bool
is_boundary_of addr [] = false
is_boundary_of addr (instr ∷ instrs) =
    let rest = is_boundary_of addr instrs in
    if instr.address == addr then true else if ltb addr instr.address then false else rest

unfoldable pub is_instruction_boundary : Block → ℕ → Bool
unfolding is_boundary_of
is_instruction_boundary block addr = is_boundary_of addr block.instructions

-- The instructions before the first one at or behind an address.
unfoldable pub truncate : ℕ → List Instruction → List Instruction
truncate addr [] = []
truncate addr (instr ∷ instrs) = if leb addr instr.address then [] else instr ∷ truncate addr instrs

-- cutBlock: the array, and the block that the pointer leads to.
unfoldable pub cut_owners : Owners → Block → ℕ → Owners
unfolding fill
cut_owners owned block addr = fill (block.end + 1 - addr) addr block.end none owned

unfoldable pub cut_block : Block → ℕ → Block
unfolding truncate
cut_block block addr = record block {
  instructions = truncate addr block.instructions;
  end = sub16 addr 1;
  successors = addr ∷ [];
}

abbrev pub mark : Starts → ℕ → Starts
mark starts addr a = if a == addr then true else starts a

unfoldable pub enqueue : State → ℕ → State
enqueue s addr =
    if ltb addr rom_end && not (s.block_start addr)
    then record s { block_start = mark s.block_start addr; queue = s.queue ++ addr ∷ [] }
    else s

unfoldable pub enqueue_all : State → List ℕ → State
unfolding enqueue
enqueue_all s [] = s
enqueue_all s (addr ∷ addrs) = enqueue_all (enqueue s addr) addrs
