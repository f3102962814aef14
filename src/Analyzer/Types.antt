-- ===== src/Analyzer/Types.antt =====
-- internal/analyzer/analyzer.go: blocks, addresses of entry, and the arrays of AnalyzeBlocks.
use gbrc.Common.{ℕ, ◌+◌, ◌-◌, ◌%◌, ◌^◌, Bool, Option, List, [], ◌∷◌}
use gbrc.Decoder.Types.{Instruction}
use gbrc.Decoder.Cache.{Decoder}

pub record Block : Type 0 where
  pub start : ℕ
  pub end : ℕ
  pub instructions : List Instruction
  pub successors : List ℕ

abbrev pub rom_end : ℕ
rom_end = 0x8000

-- The restart vectors, the interrupt vectors, the cartridge's entry and the code behind its header.
abbrev pub seeds : List ℕ
seeds =
    0x00 ∷ 0x08 ∷ 0x10 ∷ 0x18 ∷ 0x20 ∷ 0x28 ∷ 0x30 ∷ 0x38 ∷ 0x40 ∷ 0x48 ∷ 0x50 ∷ 0x58 ∷ 0x100
    ∷ 0x150 ∷ []

-- The slice `ownedBy`, of length ROM_END. A pointer to a block is its index in `blocks`; the block
-- that is being collected has the index at which it will be appended.
abbrev pub Owners : Type 0
Owners = ℕ → Option ℕ

-- The slice `blockStart`, of length ROM_END.
abbrev pub Starts : Type 0
Starts = ℕ → Bool

-- What AnalyzeBlocks keeps: the decoder's cache, the two slices, the blocks and the queue.
pub record State : Type 0 where
  pub decoder : Decoder
  pub owned_by : Owners
  pub block_start : Starts
  pub blocks : List Block
  pub queue : List ℕ

-- The uint16 `a - b`.
abbrev pub sub16 : ℕ → ℕ → ℕ
sub16 a b = (a + 2 ^ 16 - b) % 2 ^ 16

-- The uint16 `a + b`.
abbrev pub add16 : ℕ → ℕ → ℕ
add16 a b = (a + b) % 2 ^ 16
