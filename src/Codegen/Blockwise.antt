-- ===== src/Codegen/Blockwise.antt =====
-- A joined block does what the processor does from its start on.
use gbrc.Common.{
  ℕ, ◌≡◌, inl, inr, refl, sym, subst, ◌∙◌, Bool, true, false, ltb, if◌then◌else◌, Option, some,
  none, List, [], ◌∷◌, length, Bool-cases, Option-cases, ◌≤◌, arith,
}
use gbrc.Rom.{Rom}
use gbrc.Rom.Image.{IsImage}
use gbrc.Decoder.Types.{Instruction}
use gbrc.Analyzer.Types.{Block, rom_end}
use gbrc.Analyzer.Flow.{flow, is_block_terminator}
use gbrc.Analyzer.Chain.{IsBlock, Plain, Straight, last?}
use gbrc.Codegen.Ir.{i16, Global, store, new_int, global, Inst}
use gbrc.Codegen.Machine.{Runtime, Machine, Datum}
use gbrc.Codegen.Exits.{Exit, join_terminator}
use gbrc.Codegen.Leave.{run_exit, run_locals, leave}
use gbrc.Codegen.Assembly.{IrBlock, Terminator, terminator_of}
use gbrc.Codegen.Compiled.{Compiled, segments-Runs, conclude}
use gbrc.Codegen.Execution.{After, to_dispatch, ended, finish, run_term, run_block}
use gbrc.Codegen.Cpu.{cpu_steps}
use gbrc.Codegen.Emission.Blocks.{IsEnded}

abbrev is_nil : List ℕ → Bool
is_nil [] = true
is_nil (_ ∷ _) = false

-- A block that runs into the end of the ROM, where `rom_main` returns.
abbrev runs_out : Option Instruction → List ℕ → Bool
runs_out none successors = false
runs_out (some i) successors = if is_block_terminator i then false else is_nil successors

abbrev pub falls_off : Block → Bool
falls_off b = runs_out (last? b.instructions) b.successors

-- Where the machine is after a block that the processor has done.
abbrev pub after_block : {W : Type 0} → Bool → Option (Machine W) → Option (After W)
after_block off none = none
after_block off (some m) = some (if off then ended m else to_dispatch m)

Straight-Plain :
    (is : List Instruction) (i : Instruction)
    → Straight is
    → last? is ≡ some i
    → is_block_terminator i ≡ false
    → Plain is
Straight-Plain [] i h e t = tt
Straight-Plain (j ∷ []) i h e t =
    let q : j ≡ i = cc in (subst (λ x. is_block_terminator x ≡ false) (sym q) t, tt)
Straight-Plain (j ∷ (k ∷ is)) i h e t = (h.0, Straight-Plain (k ∷ is) i h.1 e t)

-- A block that runs into the end of the ROM holds no terminator and stops there.
pub falls_off_end :
    (rom : Rom) (b : Block) (is : IsBlock rom b)
    → falls_off b ≡ true
    → Plain b.instructions × (rom_end ≤ is.stop)
unfolding flow
falls_off_end rom b is off = elim (Option-cases (last? b.instructions)) [
  | inl empty ↦ let e : false ≡ true = rw empty at off in cc
  | inr (i, last) ↦ elim (Bool-cases (is_block_terminator i)) [
    | inl jumps ↦ let e : false ≡ true = rw (last, jumps) at off in cc
    | inr runs ↦ elim (Bool-cases (ltb is.stop rom_end)) [
      | inl inside ↦
          let follows : b.successors ≡ is.stop ∷ [] = is.follows ∙ rw (last, runs, inside) refl in
          let e : false ≡ true = rw (last, runs, follows) at off in cc
      | inr outside ↦
          (Straight-Plain b.instructions i is.straight last runs, ground (arith, outside))
    ]
  ]
]

module _ {W : Type 0} (runtime : Runtime W) (m : Machine W) where
  -- The terminator's code and its exit, as the block has them and as the processor has them.
  leaves-run_exit :
      (b : Block) (i : Instruction) (t : Terminator)
      → is_block_terminator i ≡ true
      → terminator_of b i ≡ some t
      → run_term runtime (some t) m
        ≡ finish runtime (run_exit runtime (join_terminator i.instruction_type i) m)
  leaves-run_exit b i t jumps chosen =
      go (join_terminator i.instruction_type i []) (rw jumps at chosen)
    where
      after :
          (o : Option (List Datum × Machine W)) (exit : Exit)
          → (elim o [
            | none ↦ none
            | some (locals, m') ↦ finish runtime (leave runtime exit locals m')
          ])
            ≡ finish runtime
                (elim o [ none ↦ none | some (locals, m') ↦ leave runtime exit locals m' ])
      after none exit = refl
      after (some (locals, m')) exit = refl

      go :
          (o : Option (Exit × List Inst))
          → (elim o [ none ↦ none | some (exit, insts) ↦ some (Terminator.leaves insts exit) ])
            ≡ some t
          → run_term runtime (some t) m
            ≡ finish runtime (elim o [
              | none ↦ none
              | some (exit, code) ↦ elim (run_locals runtime [] m code) [
                | none ↦ none
                | some (locals, m') ↦ leave runtime exit locals m'
              ]
            ])
      go none e = cc
      go (some (exit, insts)) e =
          let q : Terminator.leaves insts exit ≡ t = cc in
          rw (← q) (after (run_locals runtime [] m insts) exit)

  finish-after_block : (o : Option (Machine W)) → finish runtime o ≡ after_block false o
  finish-after_block none = refl
  finish-after_block (some m') = refl

  -- The terminator ends what the calls leave, at `m`.
  term-after_block :
      (rom : Rom) (image : IsImage rom) (b : Block) (i : Instruction) (t : Terminator)
      (is : IsBlock rom b)
      → last? b.instructions ≡ some i
      → terminator_of b i ≡ some t
      → (Plain b.instructions → m.pc ≡ is.stop)
      → run_term runtime (some t) m
        ≡ after_block (falls_off b) (conclude runtime rom image (last? b.instructions) m)
  unfolding flow
  term-after_block rom image b i t is last chosen at = elim (Bool-cases (is_block_terminator i)) [
    | inl jumps ↦
        rw (last, jumps)
          (leaves-run_exit b i t jumps chosen
            ∙ finish-after_block (run_exit runtime (join_terminator i.instruction_type i) m))
    | inr runs ↦
        let here = at (Straight-Plain b.instructions i is.straight last runs) in
        elim (Bool-cases (ltb is.stop rom_end)) [
          | inl inside ↦
              let follows : b.successors ≡ is.stop ∷ [] =
                is.follows ∙ rw (last, runs, inside) refl in
              let q : some (
                    Terminator.leaves (store (new_int i16 is.stop) (global Global.pc) ∷ []) Exit.br)
                  ≡ some t =
                rw (runs, follows) at chosen in
              let r : Terminator.leaves (store (new_int i16 is.stop) (global Global.pc) ∷ [])
                    Exit.br
                  ≡ t =
                cc in
              rw (last, runs, follows, ← r, ← here) refl
          | inr outside ↦
              let follows : b.successors ≡ [] = is.follows ∙ rw (last, runs, outside) refl in
              let q : some Terminator.returns ≡ some t = rw (runs, follows) at chosen in
              let r : Terminator.returns ≡ t = cc in rw (last, runs, follows, ← r) refl
        ]
  ]

-- Where the machine is at the start of a block of the analyzer, its code does just what the
-- processor does in as many steps as the block has instructions.
pub run_block-steps :
    {W : Type 0} (runtime : Runtime W) (rom : Rom) (b : Block) (ir : IrBlock) (m : Machine W)
    → IsImage rom
    → IsBlock rom b
    → Compiled b.instructions ir.body
    → IsEnded b ir.term
    → m.pc ≡ b.start
    → run_block runtime ir m
      ≡ after_block (falls_off b) (cpu_steps runtime rom (length b.instructions) m)
run_block-steps runtime rom b ir m image is compiled ends e =
    let r =
      segments-Runs runtime rom image b.start is.stop b.instructions ir.body m is.chain is.straight
        compiled e in
    rw (run_block, r.ran, ends.set_to, r.steps)
      (term-after_block runtime r.after rom image b ends.last ends.term is ends.is_last ends.chosen
        r.at)
