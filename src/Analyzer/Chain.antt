-- ===== src/Analyzer/Chain.antt =====
-- Runs of instructions that follow one another in the ROM, and what cutting does to them.
pub mod Cut
use gbrc.Common.{
  ℕ, min, zero, suc, ◌+◌, ◌-◌, ◌≤◌, ◌<◌, ◌≡◌, ◌≢◌, refl, Bool, true, false, ltb, leb, ◌==◌,
  if◌then◌else◌, Option, some, none, List, [], ◌∷◌, ◌++◌, Run, done, arith, ℕ_discrete,
}
use gbrc.Rom.{Rom}
use gbrc.Decoder.Types.{Instruction}
use gbrc.Decoder.Facts.{is_unknown}
use gbrc.Decoder.Cache.{decode_fresh}
use gbrc.Analyzer.Types.{Block, rom_end}
use gbrc.Analyzer.Flow.{flow, is_block_terminator, find_successors}
use gbrc.Analyzer.Arrays.{is_boundary_of, truncate}

-- The instruction that the ROM holds at an address inside it.
pub record Sits (rom : Rom) (a : ℕ) (i : Instruction) : Type 0 where
  pub inside : a < rom_end
  pub decoded : decode_fresh rom a ≡ done i
  pub at : i.address ≡ a
  pub known : is_unknown i.instruction_type ≡ false
  pub long : 0 < i.length
  pub short : i.length < 4

-- The instructions from `a` up to `stop`, with no gap and no overlap.
abbrev pub Chain : Rom → ℕ → List Instruction → ℕ → Type 0
Chain rom a [] stop = a ≡ stop
Chain rom a (i ∷ is) stop = Sits rom a i × Chain rom (a + i.length) is stop

-- No terminator.
abbrev pub Plain : List Instruction → Type 0
Plain [] = Unit
Plain (i ∷ is) = (is_block_terminator i ≡ false) × Plain is

-- No terminator but maybe the last.
abbrev pub Straight : List Instruction → Type 0
Straight [] = Unit
Straight (i ∷ []) = Unit
Straight (i ∷ (j ∷ is)) = (is_block_terminator i ≡ false) × Straight (j ∷ is)

abbrev pub last? : List Instruction → Option Instruction
last? [] = none
last? (i ∷ []) = some i
last? (i ∷ (j ∷ is)) = last? (j ∷ is)

module _ (rom : Rom) where
  pub Chain-le : (a : ℕ) (is : List Instruction) (stop : ℕ) → Chain rom a is stop → a ≤ stop
  Chain-le a [] stop h = omega arith
  Chain-le a (i ∷ is) stop h = omega (arith, Chain-le (a + i.length) is stop h.1, h.0.long)

  pub Chain-append :
      (a : ℕ) (is : List Instruction) (b : ℕ) (i : Instruction)
      → Chain rom a is b
      → Sits rom b i
      → Chain rom a (is ++ i ∷ []) (b + i.length)
  Chain-append a [] b i h s = rw h (s, refl)
  Chain-append a (j ∷ is) b i h s = (h.0, Chain-append (a + j.length) is b i h.1 s)

pub Plain-append :
    (is : List Instruction) (i : Instruction)
    → Plain is
    → is_block_terminator i ≡ false
    → Plain (is ++ i ∷ [])
Plain-append [] i h e = (e, tt)
Plain-append (j ∷ is) i h e = (h.0, Plain-append is i h.1 e)

pub Straight-append : (is : List Instruction) (i : Instruction) → Plain is → Straight (is ++ i ∷ [])
Straight-append [] i h = tt
Straight-append (j ∷ []) i h = (h.0, tt)
Straight-append (j ∷ (k ∷ is)) i h = (h.0, Straight-append (k ∷ is) i h.1)

pub Straight-of_Plain : (is : List Instruction) → Plain is → Straight is
Straight-of_Plain [] h = tt
Straight-of_Plain (i ∷ []) h = tt
Straight-of_Plain (i ∷ (j ∷ is)) h = (h.0, Straight-of_Plain (j ∷ is) h.1)

pub last?-append : (is : List Instruction) (i : Instruction) → last? (is ++ i ∷ []) ≡ some i
last?-append [] i = refl
last?-append (j ∷ []) i = refl
last?-append (j ∷ (k ∷ is)) i = last?-append (k ∷ is) i

-- A block in which nothing jumps goes on at the address behind it.
pub flow-Plain :
    (stop : ℕ) (is : List Instruction)
    → Plain is
    → is ≢ []
    → flow stop (last? is) ≡ (if ltb stop rom_end then stop ∷ [] else [])
unfolding flow
flow-Plain stop [] h ne = absurd (ne refl)
flow-Plain stop (i ∷ []) h ne = rw h.0
flow-Plain stop (i ∷ (j ∷ is)) h ne = flow-Plain stop (j ∷ is) h.1 (λ e. cc)

pub flow_terminator :
    (stop : ℕ) (i : Instruction)
    → is_block_terminator i ≡ true
    → flow stop (some i) ≡ find_successors i.address i
unfolding flow
flow_terminator stop i h = rw h

-- A block as it should be: the instructions of the ROM from its start on, one behind the other, no
-- terminator before the last, its end the last byte inside the ROM, and its successors those of the
-- last instruction.
pub record IsBlock (rom : Rom) (b : Block) : Type 0 where
  pub stop : ℕ
  pub chain : Chain rom b.start b.instructions stop
  pub straight : Straight b.instructions
  pub nonempty : b.instructions ≢ []
  pub ends : b.end + 1 ≡ min stop rom_end
  pub follows : b.successors ≡ flow stop (last? b.instructions)
