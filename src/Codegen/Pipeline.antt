-- ===== src/Codegen/Pipeline.antt =====
-- internal/analyzer and internal/codegen together, as cmd.go runs them: from the ROM to the program.
use gbrc.Common.{ℕ, ◌<◌, ◌≡◌, arith, List, [], ◌∷◌, All, All-map, Pairs, done}
use gbrc.Rom.{Rom}
use gbrc.Rom.Image.{IsImage}
use gbrc.Decoder.Cache.{new}
use gbrc.Analyzer.Types.{Block}
use gbrc.Analyzer.Chain.{IsBlock}
use gbrc.Analyzer.Analyze.{analyze_blocks}
use gbrc.Analyzer.Sorted.{IsProper, Before}
use gbrc.Analyzer.Correct.{analyze_blocks_correct, IsBlock-IsProper}
use gbrc.Codegen.Machine.{Runtime, Machine}
use gbrc.Codegen.Assembly.{emitted, Program, new_codegen}
use gbrc.Codegen.Execution.{Services, rom_main}
use gbrc.Codegen.Emission.Blocks.{Apart}
use gbrc.Codegen.Correct.{new_codegen-IsProgram, rom_main-eq}
use gbrc.Codegen.Interpret.{interpret_main}

-- Blocks in the order of their addresses have different starts.
pub Before-Apart : (bs : List Block) → All IsProper bs → Pairs Before bs → Pairs Apart bs
Before-Apart [] proper before = tt
Before-Apart (b ∷ bs) proper before = (
  All-map (Before b) (Apart b)
      (λ c h same. let below : b.end < c.start = h in absurd (omega (arith, proper.0, same))) bs
      before.0,
  Before-Apart bs proper.1 before.1,
)

-- For every image and every list of extra seeds AnalyzeBlocks returns and New generates a program
-- without an error, in which `rom_main`, from any machine and with any runtime, does what a
-- processor does that decodes at `pc` and performs one instruction at a time: the code of a block
-- stands for as many steps as the block has instructions.
pub rom_main_refines :
    {W : Type 0} (rom : Rom) (extra : List ℕ)
    → IsImage rom
    → (bs : List Block) × (p : Program) × (analyze_blocks (new rom) extra ≡ done bs)
      × (new_codegen bs ≡ emitted p)
      × ((runtime : Runtime W) (services : Services W) (budget fuel : ℕ) (m : Machine W)
          → rom_main runtime services budget p fuel m
            ≡ interpret_main runtime services budget rom bs fuel m)
rom_main_refines rom extra image =
    let (bs, e, good, before) = analyze_blocks_correct rom extra image in
    let proper = All-map (IsBlock rom) IsProper (IsBlock-IsProper rom) bs good in
    let (p, f, is) = new_codegen-IsProgram rom bs image good (Before-Apart bs proper before) in
    (
      bs,
      p,
      e,
      f,
      λ runtime services budget. rom_main-eq runtime services budget rom bs p image good is,
    )
