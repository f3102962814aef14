-- ===== src/Analyzer/Analyze.antt =====
-- internal/analyzer/analyzer.go, AnalyzeBlocks.
use gbrc.Common.{
  ℕ, zero, suc, ltb, ◌==◌, not, if◌then◌else◌, false, none, some, List, [], ◌∷◌, ◌++◌, length,
  get_elem?, set, Run, done, out_of_fuel, panic, of_option, ◌>>=◌,
}
use gbrc.Decoder.Cache.{Decoder}
use gbrc.Analyzer.Types.{Block, State, rom_end, seeds}
use gbrc.Analyzer.Arrays.{is_instruction_boundary, cut_owners, cut_block, enqueue_all}
use gbrc.Analyzer.Collect.{collect_block}

-- After `collectBlock`: on nil go on; else enqueue the successors and append the block. The block's
-- pointer is the index that it is appended at.
unfoldable pub collect_at : ℕ → State → Run State
collect_at start s =
    collect_block s.decoder s.owned_by s.block_start (length s.blocks) start >>= λ c.
    let s' = record s { decoder = c.decoder; owned_by = c.owned_by } in
    elim c.found [
      | none ↦ done s'
      | some block ↦
          let s'' = enqueue_all s' block.successors in
          done (record s'' { blocks = s''.blocks ++ block ∷ [] })
    ]

-- Cuts the block that owns `start`.
unfoldable pub cut_at : ℕ → ℕ → Block → State → State
cut_at start pointer block s = record s {
  owned_by = cut_owners s.owned_by block start;
  blocks = set s.blocks pointer (cut_block block start);
}

-- The loop's body, with the head of the queue already removed. The index into `ownedBy` is checked.
unfoldable pub visit : ℕ → State → Run State
visit start s = if not (ltb start rom_end) then panic else elim (s.owned_by start) [
  | none ↦ collect_at start s
  | some pointer ↦ of_option (get_elem? s.blocks pointer) >>= λ block.
      if block.start == start
      then done s
      else if not (is_instruction_boundary block start)
      then done s
      else collect_at start (cut_at start pointer block s)
]

unfoldable pub analyze_loop : ℕ → State → Run State
analyze_loop zero s = elim s.queue [ [] ↦ done s | _ ∷ _ ↦ out_of_fuel ]
analyze_loop (suc fuel) s = elim s.queue [
  | [] ↦ done s
  | start ∷ queue ↦ visit start (record s { queue = queue }) >>= λ s'. analyze_loop fuel s'
]

-- `slices.SortFunc` by the start; no two blocks have the same start.
unfoldable pub insert_block : Block → List Block → List Block
insert_block x [] = x ∷ []
insert_block x (y ∷ ys) = if ltb y.start x.start then y ∷ insert_block x ys else x ∷ (y ∷ ys)

unfoldable pub sort_blocks : List Block → List Block
unfolding insert_block
sort_blocks [] = []
sort_blocks (x ∷ xs) = insert_block x (sort_blocks xs)

-- The state before the loop, with both lists of seeds enqueued.
unfoldable pub initial : Decoder → List ℕ → State
initial decoder extra_seeds =
    enqueue_all
      (enqueue_all
        (record {
          decoder = decoder;
          owned_by = λ _. none;
          block_start = λ _. false;
          blocks = [];
          queue = [];
        })
        seeds)
      extra_seeds

-- An address is enqueued at most once, so ROM_END rounds are enough.
unfoldable pub analyze_blocks : Decoder → List ℕ → Run (List Block)
unfolding analyze_loop initial sort_blocks
analyze_blocks decoder extra_seeds =
    analyze_loop rom_end (initial decoder extra_seeds) >>= λ s. done (sort_blocks s.blocks)
