-- ===== src/Codegen/Correct.antt =====
-- The generated program against the processor: the rounds of the dispatcher, and `rom_main`.
use gbrc.Common.{
  ◌∙◌, ap, arith, ℕ, zero, suc, ◌≡◌, inl, inr, refl, sym, subst, arith, leb, some, List, [],
  get_elem?, lt-length_of_get_elem?, All, Pairs, Bool-cases, Option-cases, Run, done, panic,
  out_of_fuel, ◌>>=◌,
}
use gbrc.Rom.{Rom}
use gbrc.Rom.Image.{IsImage}
use gbrc.Analyzer.Types.{Block}
use gbrc.Analyzer.Chain.{IsBlock}
use gbrc.Codegen.Machine.{Runtime, Machine}
use gbrc.Codegen.Assembly.{emitted, Program, no_code, new_codegen, not_empty, block_starts}
use gbrc.Codegen.Execution.{
  After, to_dispatch, ended, Services, serve, target_of, dispatch_round, dispatch_rounds, rom_main,
  run_target,
}
use gbrc.Codegen.Compiled.{Compiled}
use gbrc.Codegen.Assembly.{IrBlock, Codegen}
use gbrc.Codegen.Assembly.{emit_blocks, join_all, setup_return_dispatcher}
use gbrc.Codegen.Blockwise.{run_block-steps}
use gbrc.Codegen.Emission.{Differ, no_code-IsCached}
use gbrc.Codegen.Emission.Blocks.{All_get, IsEnded, IsLaid, Apart, emit_blocks-IsLaid}
use gbrc.Codegen.Emission.Join.{join_all-IsLaid}
use gbrc.Codegen.Emission.Dispatch.{block_at, block_at_start, block_at-some, dispatcher_leads}
use gbrc.Codegen.Interpret.{interpret_target, interpret_round, interpret_rounds, interpret_main}

-- A block of the analyzer in the program, at its index.
pub record IsBuilt (k : ℕ) (b : Block) (p : Program) : Type 0 where
  pub ir : IrBlock
  pub here : get_elem? p.main k ≡ some ir
  pub name : ir.name ≡ b.start
  pub compiled : Compiled b.instructions ir.body
  pub ended : IsEnded b ir.term

-- The program of some blocks: no two functions with one name, a chain that leads to each start, and
-- the blocks at their indices.
pub record IsProgram (bs : List Block) (p : Program) : Type 0 where
  pub distinct : Pairs Differ p.module_funcs
  pub leads : (pc : ℕ) → target_of pc p.chain ≡ block_at pc 0 bs
  pub at : (k : ℕ) (b : Block) → get_elem? bs k ≡ some b → IsBuilt k b p
  pub starts : p.starts ≡ block_starts bs
  pub boots : p.boots ≡ not_empty bs

abbrev assembled : List Block → Codegen → List (ℕ × ℕ) → Program
assembled bs cg chain = record {
  module_funcs = cg.module_funcs;
  main = cg.main;
  chain = chain;
  starts = block_starts bs;
  boots = not_empty bs;
}

new_codegen-assembled :
    (bs : List Block) (cg cg' : Codegen) (chain : List (ℕ × ℕ))
    → emit_blocks no_code bs ≡ emitted cg
    → setup_return_dispatcher cg bs ≡ emitted chain
    → join_all cg bs ≡ emitted cg'
    → new_codegen bs ≡ emitted (assembled bs cg' chain)
unfolding new_codegen
new_codegen-assembled bs cg cg' chain e f g = rw (e, f, g) refl

assembled-IsProgram :
    (bs : List Block) (cg : Codegen) (chain : List (ℕ × ℕ))
    → Pairs Differ cg.module_funcs
    → ((pc : ℕ) → target_of pc chain ≡ block_at pc 0 bs)
    → ((k : ℕ) (b : Block) → get_elem? bs k ≡ some b → IsBuilt k b (assembled bs cg chain))
    → IsProgram bs (assembled bs cg chain)
assembled-IsProgram bs cg chain distinct leads at = record {
  distinct = distinct;
  leads = leads;
  at = at;
  starts = refl;
  boots = refl;
}

-- For every image and list of the analyzer's blocks with different starts, New has no error: it finds
-- every block that it looks up, and no index is out of range. In its program no two functions have
-- one name; the dispatcher's chain leads from an address to the block that starts there, if there is
-- one; each block has, at its index, a call of the right function and an update of `pc` for each
-- instruction that is no terminator, and the terminator that joinBlocks chooses; the array of starts
-- is complete with its end mark; and the entry leads to the dispatcher just where there are blocks.
pub new_codegen-IsProgram :
    (rom : Rom) (bs : List Block)
    → IsImage rom
    → All (IsBlock rom) bs
    → Pairs Apart bs
    → (p : Program) × (new_codegen bs ≡ emitted p) × IsProgram bs p
new_codegen-IsProgram rom bs image good apart =
    let start : IsLaid 0 [] no_code = record {
      cached = no_code-IsCached;
      count = refl;
      laid = λ k b e. cc;
    } in
    let (cg, e, laid) = emit_blocks-IsLaid rom image [] bs no_code start good apart in
    let (chain, f, leads) = dispatcher_leads 0 [] bs cg laid in
    let (cg', g, joined) = join_all-IsLaid rom image [] bs cg laid good in
    (
      assembled bs cg' chain,
      new_codegen-assembled bs cg cg' chain e f g,
      assembled-IsProgram bs cg' chain joined.cached.distinct leads λ k b get.
          let at = joined.laid k b get in
          record {
            ir = at.ir;
            here = at.here;
            name = at.name;
            compiled = at.compiled;
            ended = at.ended (lt-length_of_get_elem? bs k b get);
          },
    )

emitted_inj : {A : Type 0} {a b : A} → emitted a ≡ emitted b → a ≡ b
emitted_inj e = cc

pub generated-IsProgram :
    (rom : Rom) (bs : List Block) (p : Program)
    → IsImage rom
    → All (IsBlock rom) bs
    → Pairs Apart bs
    → new_codegen bs ≡ emitted p
    → IsProgram bs p
generated-IsProgram rom bs p image good apart generated =
    let (q, e, is) = new_codegen-IsProgram rom bs image good apart in
    subst (λ x. IsProgram bs x) (emitted_inj (sym e ∙ generated)) is

-- For every image, blocks of it with different starts, and the program that New generates for them:
-- the dispatcher's chain leads from the start of each block to the block's index, and what stands
-- there in `rom_main` has the name of that start.
pub dispatcher_finds :
    (rom : Rom) (bs : List Block) (p : Program) (k : ℕ) (b : Block)
    → IsImage rom
    → All (IsBlock rom) bs
    → Pairs Apart bs
    → new_codegen bs ≡ emitted p
    → get_elem? bs k ≡ some b
    → (target_of b.start p.chain ≡ some k)
      × (ir : IrBlock) × (get_elem? p.main k ≡ some ir)
      × (ir.name ≡ b.start)
dispatcher_finds rom bs p k b image good apart generated get =
    let is = generated-IsProgram rom bs p image good apart generated in
    let at = is.at k b get in
    (
      is.leads b.start ∙ block_at_start 0 k bs b apart get ∙ ap some (omega arith),
      at.ir,
      at.here,
      at.name,
    )

-- For every image, blocks of it with different starts, and the program that New generates for them:
-- no two functions of instructions have one name, as LLVM asks of a module.
pub new_codegen-Differ :
    (rom : Rom) (bs : List Block) (p : Program)
    → IsImage rom
    → All (IsBlock rom) bs
    → Pairs Apart bs
    → new_codegen bs ≡ emitted p
    → Pairs Differ p.module_funcs
new_codegen-Differ rom bs p image good apart generated =
    let is = generated-IsProgram rom bs p image good apart generated in is.distinct

module _ {W : Type 0} (runtime : Runtime W) (services : Services W) (budget : ℕ) (rom : Rom)
    (bs : List Block) (p : Program) (image : IsImage rom) (good : All (IsBlock rom) bs)
    (is : IsProgram bs p) where
  -- A start leads into the program's block, which does what the processor does.
  target-eq :
      (m : Machine W)
      → run_target runtime services budget p (block_at m.pc 0 bs) m
        ≡ interpret_target runtime services budget rom bs (block_at m.pc 0 bs) m
  target-eq m = elim (Option-cases (block_at m.pc 0 bs)) [
    | inl nowhere ↦ rw nowhere refl
    | inr (i, found) ↦
        let (j, at, b, get, start) = block_at-some m.pc 0 i bs found in
        let get' : get_elem? bs i ≡ some b =
          subst (λ x. get_elem? bs x ≡ some b) (omega (arith, at)) get in
        let built = is.at i b get' in
        rw
          (
            found,
            get',
            built.here,
            run_block-steps runtime rom b built.ir m image (All_get (IsBlock rom) bs i b good get')
                built.compiled built.ended (sym start),
          )
          refl
  ]

  dispatch_round-eq :
      (m : Machine W)
      → dispatch_round runtime services budget p m
        ≡ interpret_round runtime services budget rom bs m
  unfolding dispatch_round
  dispatch_round-eq m = elim (Bool-cases (leb budget m.cycles)) [
    | inl over ↦ rw over refl
    | inr more ↦ rw (more, is.leads (serve services m).pc) (target-eq (serve services m))
  ]

  after_round-eq :
      (fuel : ℕ) (r : Run (After W))
      → ((m : Machine W)
          → dispatch_rounds runtime services budget p fuel m
            ≡ interpret_rounds runtime services budget rom bs fuel m)
      → (r >>= λ a. elim a [
        | ended m' ↦ done m'
        | to_dispatch m' ↦ dispatch_rounds runtime services budget p fuel m'
      ])
        ≡ (r >>= λ a. elim a [
          | ended m' ↦ done m'
          | to_dispatch m' ↦ interpret_rounds runtime services budget rom bs fuel m'
        ])
  after_round-eq fuel (done (ended m')) ih = refl
  after_round-eq fuel (done (to_dispatch m')) ih = ih m'
  after_round-eq fuel panic ih = refl
  after_round-eq fuel out_of_fuel ih = refl

  dispatch_rounds-eq :
      (fuel : ℕ) (m : Machine W)
      → dispatch_rounds runtime services budget p fuel m
        ≡ interpret_rounds runtime services budget rom bs fuel m
  unfolding dispatch_rounds interpret_rounds
  dispatch_rounds-eq zero m = refl
  dispatch_rounds-eq (suc fuel) m = rw (dispatch_round-eq m) (
      after_round-eq fuel (interpret_round runtime services budget rom bs m)
        (dispatch_rounds-eq fuel))

  pub rom_main-eq :
      (fuel : ℕ) (m : Machine W)
      → rom_main runtime services budget p fuel m
        ≡ interpret_main runtime services budget rom bs fuel m
  rom_main-eq fuel m = rw (dispatch_rounds-eq fuel m, is.boots) refl
