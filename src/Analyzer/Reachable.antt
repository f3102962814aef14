-- ===== src/Analyzer/Reachable.antt =====
-- internal/analyzer/analyzer.go: where control can get to from the seeds, and the blocks there.
use gbrc.Common.{
  lt→ltb, ◌⊎◌, ◌++◌, ℕ, zero, suc, ◌+◌, ◌≤◌, ◌≡◌, sym, ap, subst, ◌∙◌, inl, inr, arith, true, List,
  [], ◌∷◌, List-cases, some, one_of, length, All, done, ◌==◌, Bool-cases,
}
use gbrc.Rom.{Rom}
use gbrc.Rom.Image.{IsImage}
use gbrc.Decoder.Types.{Instruction}
use gbrc.Decoder.Cache.{Decoder, new, decode_fresh}
use gbrc.Decoder.Cache.Laws.{new-IsConsistent}
use gbrc.Analyzer.Types.{Block, State, rom_end, seeds}
use gbrc.Analyzer.Flow.{flow}
use gbrc.Analyzer.Chain.{Chain, Straight, last?, IsBlock}
use gbrc.Analyzer.Schedule.{Marks, work, enqueue_all-news}
use gbrc.Analyzer.Arrays.{enqueue_all}
use gbrc.Analyzer.Invariant.{IsState, Led, visit-Steps}
use gbrc.Analyzer.Sorted.{sort_blocks-All}
use gbrc.Analyzer.Correct.{
  loop_empty, loop_step, loop_finishes, popped, initial-IsState, blank_state, All-of_each,
}
use gbrc.Analyzer.Analyze.{analyze_loop, initial, sort_blocks, analyze_blocks}

-- The addresses that control can get to from some others: from an instruction to where it jumps,
-- calls or goes on, as long as that is inside the ROM.
pub data Reaches (rom : Rom) (from : List ℕ) : ℕ → Type 0 where
  seeded : (a : ℕ) → one_of a from ≡ true → Reaches rom from a
  flows :
      (a b : ℕ) (i : Instruction)
      → Reaches rom from a
      → decode_fresh rom a ≡ done i
      → one_of b (flow (a + i.length) (some i)) ≡ true
      → Reaches rom from b

done_inj : {A : Type 0} {a b : A} → done a ≡ done b → a ≡ b
done_inj e = cc

module _ (rom : Rom) (from : List ℕ) where
  -- Along a block, and out of it.
  Chain-Reaches :
      (a : ℕ) (is : List Instruction) (stop b : ℕ)
      → Chain rom a is stop
      → Straight is
      → Reaches rom from a
      → one_of b (flow stop (last? is)) ≡ true
      → Reaches rom from b
  unfolding flow
  Chain-Reaches a [] stop b chain straight r out = cc
  Chain-Reaches a (i ∷ []) stop b chain straight r out =
      flows a b i r chain.0.decoded
        (subst (λ x. one_of b (flow x (some i)) ≡ true) (sym chain.1) out)
  Chain-Reaches a (i ∷ (j ∷ is)) stop b chain straight r out =
      let next : one_of (a + i.length) (flow (a + i.length) (some i)) ≡ true =
        rw (straight.0, lt→ltb _ _ chain.1.0.inside) (ground arith) in
      Chain-Reaches (a + i.length) (j ∷ is) stop b chain.1 straight.1
        (flows a (a + i.length) i r chain.0.decoded next) out

  -- The successors of a block that can be reached.
  block-Reaches :
      (b : Block) (a : ℕ)
      → IsBlock rom b
      → Reaches rom from b.start
      → one_of a b.successors ≡ true
      → Reaches rom from a
  block-Reaches b a is r out =
      Chain-Reaches b.start b.instructions is.stop a is.chain is.straight r
        (subst (λ l. one_of a l ≡ true) is.follows out)

  abbrev MarksReach : State → Type 0
  MarksReach s = (a : ℕ) → Marks s.block_start a → Reaches rom from a

  visited-MarksReach :
      (s s' : State)
      → IsState rom s'
      → MarksReach s
      → ((a : ℕ) → Marks s'.block_start a → Marks s.block_start a ⊎ Led rom s s' a)
      → MarksReach s'
  visited-MarksReach s s' k reach news a m = elim (news a m) [
    | inl old ↦ reach a old
    | inr (p, b, get, started, out) ↦
        block-Reaches b a (k.owning.good p b get) (reach b.start started) out
  ]

  loop-MarksReach :
      (image : IsImage rom) (fuel : ℕ) (s s' : State)
      → IsState rom s
      → work s ≤ fuel
      → MarksReach s
      → analyze_loop fuel s ≡ done s'
      → MarksReach s'
  loop-MarksReach image zero s s' h enough reach e = elim (List-cases s.queue) [
    | inl empty ↦
        let same : s ≡ s' = done_inj (sym (loop_empty rom image zero s empty) ∙ e) in
        subst MarksReach same reach
    | inr (start, rest, split) ↦ absurd (omega (arith, ap length split))
  ]
  loop-MarksReach image (suc fuel) s s' h enough reach e = elim (List-cases s.queue) [
    | inl empty ↦
        let same : s ≡ s' = done_inj (sym (loop_empty rom image (suc fuel) s empty) ∙ e) in
        subst MarksReach same reach
    | inr (start, rest, split) ↦
        let (h', inside, marked) = popped rom image s start rest split h in
        let s₀ = record s { queue = rest } in
        let (s₁, v, k, same, _, news) = visit-Steps rom image start s₀ h' inside marked in
        loop-MarksReach image fuel s₁ s' k (omega (arith, same, ap length split))
          (visited-MarksReach s₀ s₁ k reach news)
          (sym (loop_step rom image fuel s s₁ start rest split v) ∙ e)
  ]

one_of-right : (a : ℕ) (l r : List ℕ) → one_of a r ≡ true → one_of a (l ++ r) ≡ true
one_of-right a [] r h = h
one_of-right a (b ∷ l) r h = ground (arith, one_of-right a l r h)

one_of-left : (a : ℕ) (l r : List ℕ) → one_of a l ≡ true → one_of a (l ++ r) ≡ true
one_of-left a [] r h = cc
one_of-left a (b ∷ l) r h = elim (Bool-cases (a == b)) [
  | inl same ↦ ground (arith, same)
  | inr other ↦
      let later : one_of a l ≡ true = rw other at h in ground (arith, one_of-left a l r later)
]

initial-MarksReach :
    (rom : Rom) (image : IsImage rom) (d : Decoder) (extra : List ℕ)
    → MarksReach rom (seeds ++ extra) (initial d extra)
unfolding initial blank_state
initial-MarksReach rom image d extra a m =
    let fixed = enqueue_all (blank_state rom image d) seeds in
    elim (enqueue_all-news fixed extra a m) [
      | inr added ↦ seeded a (one_of-right a seeds extra added)
      | inl old ↦ elim (enqueue_all-news (blank_state rom image d) seeds a old) [
        | inl blank ↦ cc
        | inr one ↦ seeded a (one_of-left a seeds extra one)
      ]
    ]

-- For every image and every list of extra seeds AnalyzeBlocks returns, and control can get to the
-- start of each block that it returns: from one of the fixed seeds or of the extra ones, by a chain
-- of instructions that are decoded from the ROM, in which each next one is where the one before
-- jumps, calls or goes on.
pub analyze_blocks-Reaches :
    (rom : Rom) (extra : List ℕ)
    → IsImage rom
    → (bs : List Block) × (analyze_blocks (new rom) extra ≡ done bs)
      × All (λ b. Reaches rom (seeds ++ extra) b.start) bs
unfolding analyze_blocks
analyze_blocks-Reaches rom extra image =
    let (start, fits) = initial-IsState rom image (new rom) extra (new-IsConsistent rom) in
    let (s, e, f) = loop_finishes rom image rom_end (initial (new rom) extra) start (omega arith) in
    let reach =
      loop-MarksReach rom (seeds ++ extra) image rom_end (initial (new rom) extra) s start
        (omega arith) (initial-MarksReach rom image (new rom) extra) e in
    (
      sort_blocks s.blocks,
      rw e,
      sort_blocks-All _ s.blocks
          (All-of_each _ s.blocks (λ p b get. reach b.start (f.state.started p b get))),
    )
