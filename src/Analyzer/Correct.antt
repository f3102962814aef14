-- ===== src/Analyzer/Correct.antt =====
-- AnalyzeBlocks: its loop ends, no index is out of range, and its blocks are runs of the ROM's
-- instructions that share no byte.
use gbrc.Common.{
  Pairs, ℕ, zero, suc, ◌+◌, ◌≤◌, ◌<◌, ◌≡◌, ◌≢◌, refl, false, inl, inr, max, dec_lt, List, [], ◌∷◌,
  List-cases, arith, All, All-map, get_elem?, some, none, ap, sym, subst, ◌∙◌, length, done,
}
use mathlib.Core.Path.{subst₂}
use gbrc.Rom.{Rom}
use gbrc.Rom.Image.{IsImage}
use gbrc.Decoder.Cache.{Decoder, new}
use gbrc.Decoder.Cache.Laws.{IsConsistent, new-IsConsistent}
use gbrc.Analyzer.Types.{Block, State, rom_end, seeds}
use gbrc.Analyzer.Arrays.{enqueue_all}
use gbrc.Analyzer.Chain.{Chain, Chain-le, IsBlock}
use gbrc.Analyzer.Ownership.{Owning}
use gbrc.Analyzer.Schedule.{
  Marks, work, unmarked_none, Schedules, Schedules-trans, enqueue_all-Schedules,
}
use gbrc.Analyzer.Invariant.{IsState, visit-Steps}
use gbrc.Analyzer.Sorted.{IsProper, Disjoint, Before, sort_blocks-All, sort_blocks-Before}
use gbrc.Analyzer.Analyze.{visit, analyze_loop, initial, sort_blocks, analyze_blocks}

pub All-of_each :
    (P : Block → Type 0) (bs : List Block)
    → ((p : ℕ) (b : Block) → get_elem? bs p ≡ some b → P b)
    → All P bs
All-of_each P [] h = tt
All-of_each P (b ∷ bs) h = (h 0 b refl, All-of_each P bs (λ p c e. h (suc p) c e))

Pairs-of_each :
    (R : Block → Block → Type 0) (bs : List Block)
    → ((p q : ℕ) (b c : Block) → get_elem? bs p ≡ some b → get_elem? bs q ≡ some c → p ≢ q → R b c)
    → Pairs R bs
Pairs-of_each R [] h = tt
Pairs-of_each R (b ∷ bs) h = (
  All-of_each (R b) bs (λ p c e. h 0 (suc p) b c refl e (λ q. omega arith)),
  Pairs-of_each R bs (λ p q c d e f ne. h (suc p) (suc q) c d e f (λ s. ne (omega arith))),
)

module _ (rom : Rom) where
  pub IsBlock-IsProper : (b : Block) → IsBlock rom b → IsProper b
  IsBlock-IsProper b h = elim (List-cases b.instructions) [
    | inl empty ↦ absurd (h.nonempty empty)
    | inr (i, is, e) ↦
        let chain = subst (λ l. Chain rom b.start l h.stop) e h.chain in
        let le = Chain-le rom (b.start + i.length) is h.stop chain.1 in
        omega (arith, h.ends, chain.0.inside, chain.0.long)
  ]

  Owning-Disjoint : (s : State) → Owning rom s.owned_by s.blocks → Pairs Disjoint s.blocks
  Owning-Disjoint s h = Pairs-of_each Disjoint s.blocks (λ p q b c e f ne.
      let bp = IsBlock-IsProper b (h.good p b e) in
      let cp = IsBlock-IsProper c (h.good q c f) in
      elim (dec_lt b.end c.start) [
        | yes before ↦ inl before
        | no not_before ↦ elim (dec_lt c.end b.start) [
          | yes after ↦ inr after
          | no not_after ↦
              let a = max b.start c.start in
              let here = h.owns p b e a (omega arith, omega arith) in
              let there = h.owns q c f a (omega arith, omega arith) in absurd (ne cc)
        ]
      ])

  -- The invariant at the end of the loop, with nothing left to visit.
  pub record IsFinished (s s' : State) : Type 0 where
    pub state : IsState rom s'
    pub drained : s'.queue ≡ []
    pub grows : (a : ℕ) → Marks s.block_start a → Marks s'.block_start a

module _ (rom : Rom) (image : IsImage rom) where
  pub loop_empty : (fuel : ℕ) (s : State) → s.queue ≡ [] → analyze_loop fuel s ≡ done s
  unfolding analyze_loop
  loop_empty zero s e = simp (e, analyze_loop)
  loop_empty (suc fuel) s e = simp (e, analyze_loop)

  pub loop_step :
      (fuel : ℕ) (s s' : State) (start : ℕ) (rest : List ℕ)
      → s.queue ≡ start ∷ rest
      → visit start (record s { queue = rest }) ≡ done s'
      → analyze_loop (suc fuel) s ≡ analyze_loop fuel s'
  unfolding analyze_loop
  loop_step fuel s s' start rest e v = rw (e, v)

  -- The head of the queue is taken off.
  pub popped :
      (s : State) (start : ℕ) (rest : List ℕ)
      → s.queue ≡ start ∷ rest
      → IsState rom s
      → IsState rom (record s { queue = rest }) × (start < rom_end) × Marks s.block_start start
  popped s start rest e h =
      let all = subst (All (λ q. (q < rom_end) × Marks s.block_start q)) e h.queued in
      (
        record {
          consistent = h.consistent;
          owning = h.owning;
          queued = all.1;
          successors = h.successors;
          started = h.started;
        },
        all.0.0,
        all.0.1,
      )

  -- An address is queued once, so the loop ends within as many rounds as there is work.
  pub loop_finishes :
      (fuel : ℕ) (s : State)
      → IsState rom s
      → work s ≤ fuel
      → (s' : State) × (analyze_loop fuel s ≡ done s') × IsFinished rom s s'
  loop_finishes zero s h enough = elim (List-cases s.queue) [
    | inl empty ↦
        (s, loop_empty zero s empty, record { state = h; drained = empty; grows = λ a m. m })
    | inr (start, rest, e) ↦ absurd (omega (arith, ap length e))
  ]
  loop_finishes (suc fuel) s h enough = elim (List-cases s.queue) [
    | inl empty ↦
        (s, loop_empty (suc fuel) s empty, record { state = h; drained = empty; grows = λ a m. m })
    | inr (start, rest, e) ↦
        let (h', inside, marked) = popped s start rest e h in
        let s₀ = record s { queue = rest } in
        let (s', v, k, same, grows, _) = visit-Steps rom image start s₀ h' inside marked in
        let (s'', l, f) = loop_finishes fuel s' k (omega (arith, ap length e)) in
        (
          s'',
          loop_step fuel s s' start rest e v ∙ l,
          record { state = f.state; drained = f.drained; grows = λ a m. f.grows a (grows a m) },
        )
  ]

  unfoldable pub blank_state : Decoder → State
  blank_state d = record {
    decoder = d;
    owned_by = λ _. none;
    block_start = λ _. false;
    blocks = [];
    queue = [];
  }

  pub initial-Schedules :
      (d : Decoder) (extra : List ℕ) → Schedules (blank_state d) (initial d extra)
  unfolding initial blank_state
  initial-Schedules d extra =
      let one = enqueue_all-Schedules (blank_state d) seeds in
      Schedules-trans (blank_state d) (enqueue_all (blank_state d) seeds) (initial d extra) one
        (enqueue_all-Schedules (enqueue_all (blank_state d) seeds) extra)

  pub initial-IsState :
      (d : Decoder) (extra : List ℕ)
      → IsConsistent rom d
      → IsState rom (initial d extra) × (work (initial d extra) ≡ rom_end)
  unfolding blank_state
  initial-IsState d extra h =
      let sch = initial-Schedules d extra in
      (
        record {
          consistent = subst (IsConsistent rom) (sym sch.decoder) h;
          owning =
              subst₂ (λ o bs. Owning rom o bs) (sym sch.owned_by) (sym sch.blocks)
                (record { good = λ p b e. cc; owns = λ p b e a i. cc; owner = λ a p e. cc });
          queued = sch.queued tt;
          successors = λ p b e. let e' = subst (λ bs. get_elem? bs p ≡ some b) sch.blocks e in cc;
          started = λ p b e. let e' = subst (λ bs. get_elem? bs p ≡ some b) sch.blocks e in cc;
        },
        sch.work_same ∙ omega (arith, unmarked_none rom_end),
      )

  -- AnalyzeBlocks returns.
  pub analyze_finishes :
      (d : Decoder) (extra : List ℕ)
      → IsConsistent rom d
      → (s : State) × (analyze_blocks d extra ≡ done (sort_blocks s.blocks))
        × IsFinished rom (initial d extra) s
  unfolding analyze_blocks
  analyze_finishes d extra h =
      let (start, fits) = initial-IsState d extra h in
      let (s, e, f) = loop_finishes rom_end (initial d extra) start (omega arith) in (s, rw e, f)

-- For every image and every list of extra seeds AnalyzeBlocks returns: it neither panics on an
-- index or a mnemonic nor runs out of its rounds. Each block that it returns holds the ROM's
-- instructions from its start on without gap or overlap, at least one, with no terminator before
-- the last, ends at the last byte inside the ROM, and has that instruction's successors. The blocks
-- are in the order of their addresses, and each ends before the next starts.
pub analyze_blocks_correct :
    (rom : Rom) (extra : List ℕ)
    → IsImage rom
    → (bs : List Block) × (analyze_blocks (new rom) extra ≡ done bs)
      × All (IsBlock rom) bs
      × Pairs Before bs
analyze_blocks_correct rom extra image =
    let (s, e, f) = analyze_finishes rom image (new rom) extra (new-IsConsistent rom) in
    let good = All-of_each (IsBlock rom) s.blocks f.state.owning.good in
    let proper = All-map (IsBlock rom) IsProper (IsBlock-IsProper rom) s.blocks good in
    (
      sort_blocks s.blocks,
      e,
      sort_blocks-All (IsBlock rom) s.blocks good,
      sort_blocks-Before s.blocks proper (Owning-Disjoint rom s f.state.owning),
    )
