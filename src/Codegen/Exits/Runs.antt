-- ===== src/Codegen/Exits/Runs.antt =====
-- Every terminator that is decoded runs to the end, and the cycles that it takes.
use gbrc.Common.{
  ℕ, ◌+◌, ◌%◌, ◌^◌, ◌≡◌, ◌≢◌, ◌⊎◌, inl, inr, refl, subst, Bool, true, false, ◌==◌, if◌then◌else◌,
  Option, some, none, List, [], ◌∷◌, All, Bool-cases, Run, done, panic, out_of_fuel, table,
}
use gbrc.Rom.{Rom}
use gbrc.Rom.Image.{IsImage}
use gbrc.Decoder.Types.{Instruction, InstructionType, InstructionType as T}
use gbrc.Decoder.Switch.{decode_opcode}
use gbrc.Decoder.Cb.{decode_cb_prefixed_opcode}
use gbrc.Decoder.Cache.{decode_fresh}
use gbrc.Decoder.Every.{decode_fresh_ext}
use gbrc.Analyzer.Flow.{is_block_terminator}
use gbrc.Codegen.Ir.{i1, Inst}
use gbrc.Codegen.Machine.{Runtime, Machine, Datum, word, value_of, exec}
use gbrc.Codegen.Exits.{Exit, br, cond_br, join_terminator}
use gbrc.Codegen.Leave.{run_exit, run_locals, branch, leave}

-- The four terminators that are taken or not.
abbrev pub is_conditional : InstructionType → Bool
is_conditional T.jp_cc_nn = true
is_conditional T.jr_cc_e = true
is_conditional T.call_cc_nn = true
is_conditional T.ret_cc = true
is_conditional _ = false

module _ {W : Type 0} (runtime : Runtime W) (m : Machine W) where
  -- The cycles at the end, of both ways where there are two. Empty where there is an error.
  abbrev of_ways : Option Datum → (taken skipped : Option (Machine W)) → List ℕ
  of_ways (some (word i1 n)) (some a) (some b) = a.cycles ∷ b.cycles ∷ []
  of_ways _ _ _ = []

  abbrev of_exit : Exit → Option (List Datum × Machine W) → List ℕ
  of_exit exit none = []
  of_exit br (some (_, m')) = m'.cycles ∷ []
  of_exit (cond_br cond taken skipped) (some (locals, m')) =
      of_ways (value_of runtime none locals cond) (exec runtime none [] m' taken)
        (exec runtime none [] m' skipped)

  abbrev of_code : Option (Exit × List Inst) → List ℕ
  of_code none = []
  of_code (some (exit, code)) = of_exit exit (run_locals runtime [] m code)

  abbrev clocks : Run Instruction → List ℕ
  clocks (done i) =
      if is_block_terminator i then of_code (join_terminator i.instruction_type i []) else []
  clocks panic = []
  clocks out_of_fuel = []

  abbrev base_clock : Instruction → ℕ
  base_clock i = (m.cycles + i.base_m_cycles) % 2 ^ 32

  abbrev expected_clocks : Run Instruction → List ℕ
  expected_clocks (done i) =
      if is_block_terminator i
      then (if is_conditional i.instruction_type
          then (base_clock i + i.additional_m_cycles) % 2 ^ 32 ∷ base_clock i ∷ []
          else base_clock i ∷ [])
      else []
  expected_clocks panic = []
  expected_clocks out_of_fuel = []

  module _ (rom : Rom) (addr : ℕ) where
    clocks-plain :
        table 256 (λ op. clocks (decode_opcode rom op addr))
        ≡ table 256 (λ op. expected_clocks (decode_opcode rom op addr))
    unfolding decode_opcode is_block_terminator
    clocks-plain = refl

    clocks-prefixed :
        table 256 (λ op. clocks (decode_cb_prefixed_opcode op addr))
        ≡ table 256 (λ op. expected_clocks (decode_cb_prefixed_opcode op addr))
    unfolding decode_cb_prefixed_opcode is_block_terminator
    clocks-prefixed = refl

  -- What is true of the cycles of both ways is true of the way that is gone.
  module _ (P : ℕ → Type 0) where
    branch-runs :
        (n : ℕ) (m' : Machine W) (taken skipped : List Inst) (a b : Option (Machine W))
        → exec runtime none [] m' taken ≡ a
        → exec runtime none [] m' skipped ≡ b
        → of_ways (some (word i1 n)) a b ≢ []
        → All P (of_ways (some (word i1 n)) a b)
        → (m'' : Machine W) × (branch runtime (some (word i1 n)) taken skipped m' ≡ some m'')
          × P m''.cycles
    branch-runs n m' taken skipped none b e f ne all = absurd (ne refl)
    branch-runs n m' taken skipped (some x) none e f ne all = absurd (ne refl)
    branch-runs n m' taken skipped (some x) (some y) e f ne all = elim (Bool-cases (n == 0)) [
      | inl stays ↦ (y, rw (stays, f) refl, all.1.0)
      | inr jumps ↦ (x, rw (jumps, e) refl, all.0)
    ]

    exit-runs :
        (exit : Exit) (code : List Inst)
        → of_exit exit (run_locals runtime [] m code) ≢ []
        → All P (of_exit exit (run_locals runtime [] m code))
        → (m' : Machine W) × ((elim (run_locals runtime [] m code) [
          | none ↦ none
          | some (locals, m₁) ↦ leave runtime exit locals m₁
        ])
            ≡ some m')
          × P m'.cycles
    exit-runs exit code = go exit (run_locals runtime [] m code)
      where
        go :
            (exit : Exit) (o : Option (List Datum × Machine W))
            → of_exit exit o ≢ []
            → All P (of_exit exit o)
            → (m' : Machine W) × ((elim o [
              | none ↦ none
              | some (locals, m₁) ↦ leave runtime exit locals m₁
            ])
                ≡ some m')
              × P m'.cycles
        go exit none ne all = absurd (ne refl)
        go br (some (locals, m₁)) ne all = (m₁, refl, all.0)
        go (cond_br cond taken skipped) (some (locals, m₁)) ne all =
            ways (value_of runtime none locals cond) ne all
          where
            ways :
                (d : Option Datum)
                → of_ways d (exec runtime none [] m₁ taken) (exec runtime none [] m₁ skipped) ≢ []
                → All P
                    (of_ways d (exec runtime none [] m₁ taken) (exec runtime none [] m₁ skipped))
                → (m' : Machine W) × (branch runtime d taken skipped m₁ ≡ some m') × P m'.cycles
            ways (some (word i1 n)) ne all = branch-runs n m₁ taken skipped _ _ refl refl ne all
            ways _ ne all = absurd (ne refl)

    build-runs :
        (o : Option (Exit × List Inst))
        → of_code o ≢ []
        → All P (of_code o)
        → (m' : Machine W) × (run_exit runtime (λ _. o) m ≡ some m') × P m'.cycles
    build-runs none ne all = absurd (ne refl)
    build-runs (some (exit, code)) ne all = exit-runs exit code ne all

  abbrev pub Timed : Instruction → ℕ → Type 0
  Timed i n =
      (n ≡ base_clock i)
      ⊎ ((is_conditional i.instruction_type ≡ true)
          × (n ≡ (base_clock i + i.additional_m_cycles) % 2 ^ 32))

  clocks_of :
      (i : Instruction) (b : Bool)
      → is_conditional i.instruction_type ≡ b
      → (xs : List ℕ)
      → xs ≡ (
          if b
          then (base_clock i + i.additional_m_cycles) % 2 ^ 32 ∷ base_clock i ∷ []
          else base_clock i ∷ [])
      → (xs ≢ []) × All (Timed i) xs
  clocks_of i true h xs e = rw e ((λ f. cc), (inr (h, refl), (inl refl, tt)))
  clocks_of i false h xs e = rw e ((λ f. cc), (inl refl, tt))

  -- For every image and every block terminator that is decoded from it, and on any machine, the code
  -- that joinBlocks emits for it has no error and runs to the end, and it adds the instruction's base
  -- cycles, or, only where the terminator is conditional, these and the additional ones.
  pub terminator_runs :
      (rom : Rom) (addr : ℕ) (i : Instruction)
      → IsImage rom
      → decode_fresh rom addr ≡ done i
      → is_block_terminator i ≡ true
      → (m' : Machine W) × (run_exit runtime (join_terminator i.instruction_type i) m ≡ some m')
        × Timed i m'.cycles
  terminator_runs rom addr i image decoded h =
      let e : clocks (done i) ≡ expected_clocks (done i) =
        subst (λ r. clocks r ≡ expected_clocks r) decoded
          (decode_fresh_ext rom addr clocks expected_clocks image (clocks-plain rom addr)
            (clocks-prefixed rom addr)) in
      let (ne, all) = clocks_of i _ refl _ (rw h at e) in
      build-runs (Timed i) (join_terminator i.instruction_type i []) ne all
