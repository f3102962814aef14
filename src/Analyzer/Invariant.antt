-- ===== src/Analyzer/Invariant.antt =====
-- The invariant of the loop of AnalyzeBlocks, and the loop's body.
use gbrc.Common.{
  ℕ, ◌⊎◌, one_of, get_elem?-middle, ◌<◌, ◌≡◌, ◌≢◌, refl, true, ◌==◌, Option, some, none,
  Option-cases, [], ◌∷◌, ◌++◌, arith, Bool-cases, inl, inr, sym, subst, lt→ltb, length, get_elem?,
  append_cases, set_cases, lt-length_of_get_elem?, Run, done, All, All-map,
}
use mathlib.Core.Path.{fun_ext, subst₂}
use gbrc.Rom.{Rom}
use gbrc.Rom.Image.{IsImage}
use gbrc.Decoder.Cache.Laws.{IsConsistent}
use gbrc.Analyzer.Types.{Block, State, rom_end}
use gbrc.Analyzer.Flow.Bounds.{InRom, flow-InRom}
use gbrc.Analyzer.Arrays.{is_instruction_boundary, cut_block, enqueue_all}
use gbrc.Analyzer.Chain.{last?}
use gbrc.Analyzer.Ownership.{Owning, append-Owning, cut-Owning}
use gbrc.Analyzer.Schedule.{
  Marks, Queued, work, enqueue_all-Schedules, enqueue_all-Marks, enqueue_all-news,
}
use gbrc.Analyzer.Collect.{Collected, collect_block}
use gbrc.Analyzer.Collect.Invariant.{IsCollected, Found}
use gbrc.Analyzer.Collect.Total.{collect_block_returns}
use gbrc.Analyzer.Analyze.{collect_at, cut_at, visit}

module _ (rom : Rom) where
  pub record IsState (s : State) : Type 0 where
    pub consistent : IsConsistent rom s.decoder
    pub owning : Owning rom s.owned_by s.blocks
    pub queued : Queued s
    pub successors :
        (p : ℕ) (b : Block) → get_elem? s.blocks p ≡ some b → All (Marks s.block_start) b.successors
    pub started : (p : ℕ) (b : Block) → get_elem? s.blocks p ≡ some b → Marks s.block_start b.start

  -- A successor of a block that `s'` has, whose start was marked in `s`.
  abbrev pub Led : State → State → ℕ → Type 0
  Led s s' a =
      (p : ℕ) × (b : Block) × (get_elem? s'.blocks p ≡ some b)
      × Marks s.block_start b.start
      × (one_of a b.successors ≡ true)

  -- A call that returns a state of the same kind, with no mark lost and the work unchanged, and with
  -- no new mark but at a successor.
  abbrev pub Steps : State → Run State → Type 0
  Steps s r =
      (s' : State) × (r ≡ done s')
      × IsState s'
      × (work s' ≡ work s)
      × ((a : ℕ) → Marks s.block_start a → Marks s'.block_start a)
      × ((a : ℕ) → Marks s'.block_start a → Marks s.block_start a ⊎ Led s s' a)

  -- What follows `collectBlock`, by its result.
  after_collect :
      (start : ℕ) (s : State) (c : Collected)
      → IsState s
      → Marks s.block_start start
      → collect_block s.decoder s.owned_by s.block_start (length s.blocks) start ≡ done c
      → IsCollected rom (length s.blocks) start s.owned_by c
      → (o : Option Block) → c.found ≡ o
      → Found rom (length s.blocks) start s.owned_by c.owned_by o
      → Steps s (collect_at start s)
  unfolding collect_at
  after_collect start s c h marked e k none nil same = (
    record s { decoder = c.decoder; owned_by = c.owned_by },
    rw (e, nil),
    record {
      consistent = k.consistent;
      owning = subst (λ o. Owning rom o s.blocks) (sym (fun_ext same)) h.owning;
      queued = h.queued;
      successors = h.successors;
      started = h.started;
    },
    refl,
    λ a m. m,
    λ a m. inl m,
  )
  after_collect start s c h marked e k (some b) found f =
      let s' = record s { decoder = c.decoder; owned_by = c.owned_by } in
      let s'' = enqueue_all s' b.successors in
      let sch = enqueue_all-Schedules s' b.successors in
      let in_rom : InRom b.successors =
        rw f.block.follows (flow-InRom f.block.stop (last? b.instructions)) in
      let before : (p : ℕ) (x : Block)
          → get_elem? s''.blocks p ≡ some x
          → get_elem? s.blocks p ≡ some x =
        λ p x old. subst (λ bs. get_elem? bs p ≡ some x) sch.blocks old in
      let marks = enqueue_all-Marks s' b.successors in_rom in
      (
        record s'' { blocks = s''.blocks ++ b ∷ [] },
        rw (e, found),
        record {
          consistent = subst (IsConsistent rom) (sym sch.decoder) k.consistent;
          owning =
              subst₂ (λ o bs. Owning rom o (bs ++ b ∷ [])) (sym sch.owned_by) (sym sch.blocks)
                (append-Owning rom s.owned_by c.owned_by s.blocks start b h.owning f);
          queued = sch.queued h.queued;
          successors = λ p x get. elim (append_cases s''.blocks b p x get) [
            | inl (_, this) ↦ subst (λ y. All (Marks s''.block_start) y.successors) this marks
            | inr (_, old) ↦
                All-map (Marks s.block_start) (Marks s''.block_start) sch.grows x.successors
                  (h.successors p x (before p x old))
          ];
          started = λ p x get. elim (append_cases s''.blocks b p x get) [
            | inl (_, this) ↦
                subst (λ y. Marks s''.block_start y.start) this
                  (sch.grows b.start (subst (Marks s.block_start) (sym f.starts_at) marked))
            | inr (_, old) ↦ sch.grows x.start (h.started p x (before p x old))
          ];
        },
        sch.work_same,
        sch.grows,
        λ a m. elim (enqueue_all-news s' b.successors a m) [
          | inl old ↦ inl old
          | inr new ↦ inr (
            length s''.blocks,
            b,
            get_elem?-middle s''.blocks b [],
            subst (Marks s.block_start) (sym f.starts_at) marked,
            new,
          )
        ],
      )

module _ (rom : Rom) (image : IsImage rom) where
  -- Collecting at an address that nobody owns.
  collect_at-Steps :
      (start : ℕ) (s : State)
      → IsState rom s
      → start < rom_end
      → Marks s.block_start start
      → s.owned_by start ≡ none
      → Steps rom s (collect_at start s)
  collect_at-Steps start s h inside marked nobody =
      let (c, e, k) =
        collect_block_returns rom image s.block_start (length s.blocks) start s.owned_by inside
          nobody s.decoder h.consistent in
      after_collect rom start s c h marked e k c.found refl k.outcome

  -- Cutting the block that owns an address inside it.
  cut_at-IsState :
      (start : ℕ) (s : State) (p : ℕ) (b : Block)
      → IsState rom s
      → Marks s.block_start start
      → get_elem? s.blocks p ≡ some b
      → is_instruction_boundary b start ≡ true
      → b.start ≢ start
      → IsState rom (cut_at start p b s) × ((cut_at start p b s).owned_by start ≡ none)
  unfolding cut_at cut_block
  cut_at-IsState start s p b h marked get bound ne =
      let (owning, free) = cut-Owning rom s.owned_by s.blocks p b start h.owning get bound ne in
      let in_range = lt-length_of_get_elem? s.blocks p b get in
      (
        record {
          consistent = h.consistent;
          owning = owning;
          queued = h.queued;
          successors = λ q x e. elim (set_cases s.blocks p q (cut_block b start) x in_range e) [
            | inl (_, this) ↦ subst (λ y. All (Marks s.block_start) y.successors) this (marked, tt)
            | inr (_, old) ↦ h.successors q x old
          ];
          started = λ q x e. elim (set_cases s.blocks p q (cut_block b start) x in_range e) [
            | inl (_, this) ↦ subst (λ y. Marks s.block_start y.start) this (h.started p b get)
            | inr (_, old) ↦ h.started q x old
          ];
        },
        free,
      )

  visit_cut :
      (start : ℕ) (s : State) (p : ℕ) (b : Block)
      → IsState rom s
      → start < rom_end
      → Marks s.block_start start
      → get_elem? s.blocks p ≡ some b
      → is_instruction_boundary b start ≡ true
      → b.start ≢ start
      → Steps rom s (collect_at start (cut_at start p b s))
  unfolding cut_at
  visit_cut start s p b h inside marked get bound ne =
      let (h', free) = cut_at-IsState start s p b h marked get bound ne in
      collect_at-Steps start (cut_at start p b s) h' inside marked free

  -- From a state that satisfies the invariant `IsState`, one iteration of the main loop at a marked
  -- address in the ROM returns, without a panic, a state that satisfies `IsState` again. That says:
  -- the decoder's cache is consistent; every block is a well-formed run of the ROM's instructions
  -- and ownedBy points to a block at exactly the block's bytes; every queued address is in the ROM
  -- and marked; every block's start and successors are marked. The number of unmarked addresses
  -- plus the queue's length is unchanged, no mark is lost, and each new mark is at a successor of a
  -- block of the new state whose start was marked before.
  pub visit-Steps :
      (start : ℕ) (s : State)
      → IsState rom s
      → start < rom_end
      → Marks s.block_start start
      → Steps rom s (visit start s)
  unfolding visit
  visit-Steps start s h inside marked = elim (Option-cases (s.owned_by start)) [
    | inl nobody ↦ rw (lt→ltb _ _ inside, nobody) (collect_at-Steps start s h inside marked nobody)
    | inr (p, owned) ↦
        let (b, get, _) = h.owning.owner start p owned in
        elim (Bool-cases (b.start == start)) [
          | inl same ↦
              (s, rw (lt→ltb _ _ inside, owned, get, same), h, refl, λ a m. m, λ a m. inl m)
          | inr other ↦ elim (Bool-cases (is_instruction_boundary b start)) [
            | inl bound ↦
                let apart : b.start ≢ start = λ e. ground arith in
                rw (lt→ltb _ _ inside, owned, get, other, bound)
                  (visit_cut start s p b h inside marked get bound apart)
            | inr off ↦
                (s, rw (lt→ltb _ _ inside, owned, get, other, off), h, refl, λ a m. m, λ a m. inl m)
          ]
        ]
  ]
