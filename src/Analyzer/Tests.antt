-- ===== src/Analyzer/Tests.antt =====
-- AnalyzeBlocks on a small image.
use gbrc.Common.{Pairs, ℕ, ◌≡◌, refl, List, [], ◌∷◌, ◌++◌, replicate, map, Run, done, ◌>>=◌, length}
use mathlib.Core.List.Permᴰ.{swap}
use gbrc.Rom.{Rom, read, merge_bytes}
use gbrc.Decoder.Encoding.{imm8, imm16}
use gbrc.Decoder.Switch.{decode_opcode}
use gbrc.Decoder.Cb.{decode_cb_prefixed_opcode}
use gbrc.Decoder.Cache.{new, decode_fresh, decode_at}
use gbrc.Analyzer.Types.{Block}
use gbrc.Analyzer.Flow.{is_block_terminator, find_successors}
use gbrc.Analyzer.Arrays.{
  claim_bytes, spans_known_start, is_instruction_boundary, cut_block, cut_owners, enqueue,
  enqueue_all,
}
use gbrc.Analyzer.Collect.{collect_block, round}
use gbrc.Analyzer.Analyze.{collect_at, cut_at, visit, analyze_blocks}
use gbrc.Common.{◌<◌, ◌==◌, none, some, if◌then◌else◌, All, arith}
use gbrc.Rom.Tests.{loop_image, loop_image-IsImage}
use gbrc.Decoder.Types.{Instruction, blank, InstructionType as T}
use gbrc.Decoder.Cache.Laws.{new-IsConsistent}
use gbrc.Analyzer.Types.{rom_end, State}
use gbrc.Analyzer.Arrays.Laws.{within, claim_bytes-eq}
use gbrc.Analyzer.Flow.Bounds.{InRom, find_successors-InRom}
use gbrc.Analyzer.Chain.{IsBlock}
use gbrc.Analyzer.Collect.{Collected}
use gbrc.Analyzer.Collect.Invariant.{IsCollected}
use gbrc.Analyzer.Collect.Total.{collect_block_returns}
use gbrc.Analyzer.Schedule.{Marks, Schedules, enqueue-Schedules}
use gbrc.Analyzer.Invariant.{IsState, Steps, visit-Steps}
use gbrc.Analyzer.Sorted.{Before, sort_blocks-Before}
use gbrc.Analyzer.Sorted.Unique.{sort_blocks_unique}
use gbrc.Analyzer.Analyze.{initial, sort_blocks}
use gbrc.Analyzer.Reachable.{Reaches, analyze_blocks-Reaches}
use gbrc.Analyzer.Types.{seeds}
use gbrc.Analyzer.Correct.{initial-IsState, analyze_blocks_correct}

-- `RET` at every vector; the entry jumps to 0x150, where `XOR A`, `DEC A` and `JR NZ` to the `DEC`
-- loop before a `RET`.
abbrev image : Rom
image = record {
  bytes =
      replicate 0x100 0xC9
      ++ (0xC3 ∷ 0x50 ∷ 0x01 ∷ [])
      ++ replicate 0x4D 0xC9
      ++ (0xAF ∷ 0x3D ∷ 0x20 ∷ 0xFD ∷ 0xC9 ∷ []);
}

abbrev outline : Block → List ℕ
outline b = b.start ∷ b.end ∷ length b.instructions ∷ b.successors

abbrev outlines : List ℕ → Run (List (List ℕ))
outlines extra = analyze_blocks (new image) extra >>= λ bs. done (map outline bs)

-- Fourteen seeds, and the loop at 0x151 that the jump at 0x152 leads to cuts the block at 0x150.
outlines_of_image :
    outlines []
    ≡ done (
        (0x00 ∷ 0x00 ∷ 1 ∷ [])
        ∷ (0x08 ∷ 0x08 ∷ 1 ∷ [])
        ∷ (0x10 ∷ 0x10 ∷ 1 ∷ [])
        ∷ (0x18 ∷ 0x18 ∷ 1 ∷ [])
        ∷ (0x20 ∷ 0x20 ∷ 1 ∷ [])
        ∷ (0x28 ∷ 0x28 ∷ 1 ∷ [])
        ∷ (0x30 ∷ 0x30 ∷ 1 ∷ [])
        ∷ (0x38 ∷ 0x38 ∷ 1 ∷ [])
        ∷ (0x40 ∷ 0x40 ∷ 1 ∷ [])
        ∷ (0x48 ∷ 0x48 ∷ 1 ∷ [])
        ∷ (0x50 ∷ 0x50 ∷ 1 ∷ [])
        ∷ (0x58 ∷ 0x58 ∷ 1 ∷ [])
        ∷ (0x100 ∷ 0x102 ∷ 1 ∷ 0x150 ∷ [])
        ∷ (0x150 ∷ 0x150 ∷ 1 ∷ 0x151 ∷ [])
        ∷ (0x151 ∷ 0x153 ∷ 2 ∷ 0x151 ∷ 0x154 ∷ [])
        ∷ (0x154 ∷ 0x154 ∷ 1 ∷ [])
        ∷ [])
unfolding analyze_blocks visit collect_at cut_at collect_block round is_block_terminator
    find_successors claim_bytes spans_known_start is_instruction_boundary cut_block cut_owners
    enqueue enqueue_all new decode_at decode_fresh decode_opcode decode_cb_prefixed_opcode read
    merge_bytes imm8 imm16
outlines_of_image = refl

analyze_blocks_correct_example :
    (bs : List Block) × (analyze_blocks (new loop_image) (1 ∷ []) ≡ done bs)
    × All (IsBlock loop_image) bs
    × Pairs Before bs
analyze_blocks_correct_example = analyze_blocks_correct loop_image (1 ∷ []) loop_image-IsImage

collect_block_returns_example :
    (c : Collected) × (collect_block (new loop_image) (λ _. none) (λ a. a == 1) 0 0 ≡ done c)
    × IsCollected loop_image 0 0 (λ _. none) c
collect_block_returns_example =
    collect_block_returns loop_image loop_image-IsImage (λ a. a == 1) 0 0 (λ _. none) (omega arith)
      refl (new loop_image) (new-IsConsistent loop_image)

abbrev first_state : State
first_state = initial (new loop_image) []

first_state-IsState : IsState loop_image first_state
first_state-IsState =
    (initial-IsState loop_image loop_image-IsImage (new loop_image) []
      (new-IsConsistent loop_image)).0

first_state_marked : Marks first_state.block_start 0x100
unfolding initial enqueue_all
first_state_marked = refl

visit-Steps_example : Steps loop_image first_state (visit 0x100 first_state)
visit-Steps_example =
    visit-Steps loop_image loop_image-IsImage 0x100 first_state first_state-IsState (omega arith)
      first_state_marked

abbrev low : Block
low = record { start = 0; end = 3; instructions = []; successors = [] }

abbrev high : Block
high = record { start = 4; end = 9; instructions = []; successors = [] }

sort_blocks-Before_example : Pairs Before (sort_blocks (high ∷ low ∷ []))
sort_blocks-Before_example = sort_blocks-Before (high ∷ low ∷ []) (omega arith) (omega arith)

sort_blocks_unique_example : low ∷ high ∷ [] ≡ sort_blocks (high ∷ low ∷ [])
sort_blocks_unique_example =
    sort_blocks_unique (high ∷ low ∷ []) (low ∷ high ∷ []) (((λ e. omega (arith, e)), tt), (tt, tt))
      (swap refl refl) ((omega arith, tt), (tt, tt))

abbrev far_call : Instruction
far_call = record (blank 0x7FFE) { instruction_type = T.call_nn; length = 3; imm16_bit = 0xC000 }

find_successors-InRom_example : InRom (find_successors 0x7FFE far_call)
find_successors-InRom_example = find_successors-InRom 0x7FFE far_call

claim_bytes-eq_example :
    claim_bytes (λ _. none) 7 0x7FFE 0x8001 0x7FFF
    ≡ (if within 0x7FFE 0x8001 0x7FFF then some 7 else none)
claim_bytes-eq_example = claim_bytes-eq (λ _. none) 7 0x7FFE 0x8001 0x7FFF (omega arith)

enqueue-Schedules_example :
    Schedules first_state (enqueue first_state 0x200)
    × (0x200 < rom_end → Marks (enqueue first_state 0x200).block_start 0x200)
enqueue-Schedules_example = enqueue-Schedules first_state 0x200

analyze_blocks-Reaches_example :
    (bs : List Block) × (analyze_blocks (new loop_image) (0x151 ∷ []) ≡ done bs)
    × All (λ b. Reaches loop_image (seeds ++ 0x151 ∷ []) b.start) bs
analyze_blocks-Reaches_example = analyze_blocks-Reaches loop_image (0x151 ∷ []) loop_image-IsImage
