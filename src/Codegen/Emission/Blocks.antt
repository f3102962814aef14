-- ===== src/Codegen/Emission/Blocks.antt =====
-- Emitting all blocks: each is at its own index, holds the calls of its instructions and can be
-- found by its start.
use mathlib.Core.List.{append_assoc, append-nil}
use mathlib.Core.Path.{subst₂}
use gbrc.Common.{
  ℕ, zero, suc, ◌<◌, ◌≡◌, ◌≢◌, inl, inr, refl, sym, ap, subst, ◌∙◌, arith, ◌==◌, if◌then◌else◌,
  Option, some, none, List, [], ◌∷◌, ◌++◌, length, length-append, get_elem?, get_elem?-append,
  append_cases, All, Pairs,
}
use gbrc.Rom.{Rom}
use gbrc.Rom.Image.{IsImage}
use gbrc.Decoder.Types.{Instruction}
use gbrc.Analyzer.Types.{Block}
use gbrc.Analyzer.Chain.{IsBlock, last?}
use gbrc.Codegen.Assembly.{
  Segment, emitted, IrBlock, Terminator, Codegen, emit_block, emit_blocks, terminator_of,
}
use gbrc.Codegen.Compiled.{Compiled}
use gbrc.Codegen.Emission.{IsCached, Keeps, emit_calls-AreEmitted}

abbrev pub Apart : Block → Block → Type 0
Apart b c = b.start ≢ c.start

-- The terminator of a joined block.
pub record IsEnded (b : Block) (t : Option Terminator) : Type 0 where
  pub last : Instruction
  pub term : Terminator
  pub is_last : last? b.instructions ≡ some last
  pub chosen : terminator_of b last ≡ some term
  pub set_to : t ≡ some term

-- The block at index `p`, joined if the index is below `n`.
pub record IsAt (n p : ℕ) (b : Block) (cg : Codegen) : Type 0 where
  pub ir : IrBlock
  pub here : get_elem? cg.main p ≡ some ir
  pub name : ir.name ≡ b.start
  pub compiled : Compiled b.instructions ir.body
  pub found : cg.ir_blocks b.start ≡ some p
  pub ended : p < n → IsEnded b ir.term

pub record IsLaid (n : ℕ) (bs : List Block) (cg : Codegen) : Type 0 where
  pub cached : IsCached cg
  pub count : length cg.main ≡ length bs
  pub laid : (p : ℕ) (b : Block) → get_elem? bs p ≡ some b → IsAt n p b cg

All_at :
    {A : Type 0} (P : A → Type 0) (xs : List A) (y : A) (zs : List A) → All P (xs ++ y ∷ zs) → P y
All_at P [] y zs h = h.0
All_at P (x ∷ xs) y zs h = All_at P xs y zs h.1

pub All_get :
    {A : Type 0} (P : A → Type 0) (xs : List A) (p : ℕ) (x : A)
    → All P xs
    → get_elem? xs p ≡ some x
    → P x
All_get P [] p x h e = cc
All_get P (y ∷ xs) zero x h e = let q : y ≡ x = cc in subst P q h.0
All_get P (y ∷ xs) (suc p) x h e = All_get P xs p x h.1 e

Pairs-split :
    {A : Type 0} (R : A → A → Type 0) (xs : List A) (y : A) (zs : List A)
    → Pairs R (xs ++ y ∷ zs)
    → All (λ x. R x y) xs
Pairs-split R [] y zs h = tt
Pairs-split R (x ∷ xs) y zs h = (All_at (R x) xs y zs h.0, Pairs-split R xs y zs h.1)

-- The state after a block is emitted, with `segments` for its calls.
abbrev laid_block : Codegen → Block → List Segment → Codegen
laid_block cg b segments = record cg {
  main = cg.main ++ record { name = b.start; body = segments; term = none } ∷ [];
  ir_blocks = λ a. if a == b.start then some (length cg.main) else cg.ir_blocks a;
}

module _ (cg : Codegen) (b : Block) (segments : List Segment) where
  new-IsAt : Compiled b.instructions segments → IsAt 0 (length cg.main) b (laid_block cg b segments)
  new-IsAt compiled =
      let ir : IrBlock = record { name = b.start; body = segments; term = none } in
      record {
        ir = ir;
        here = ground (arith, get_elem?-append cg.main ir (length cg.main));
        name = refl;
        compiled = compiled;
        found = ground arith;
        ended = λ l. absurd (omega arith);
      }

  old-IsAt :
      (p : ℕ) (c : Block)
      → IsAt 0 p c cg
      → p < length cg.main
      → Apart c b
      → IsAt 0 p c (laid_block cg b segments)
  old-IsAt p c h below apart =
      let ir : IrBlock = record { name = b.start; body = segments; term = none } in
      record {
        ir = h.ir;
        here = ground (arith, get_elem?-append cg.main ir p, h.here);
        name = h.name;
        compiled = h.compiled;
        found = ground (arith, h.found, apart);
        ended = h.ended;
      }

module _ (rom : Rom) (image : IsImage rom) where
  kept-IsAt : (cg cg' : Codegen) (p : ℕ) (b : Block) → Keeps cg cg' → IsAt 0 p b cg → IsAt 0 p b cg'
  kept-IsAt cg cg' p b k h = record {
    ir = h.ir;
    here = rw k.main h.here;
    name = h.name;
    compiled = h.compiled;
    found = rw k.ir_blocks h.found;
    ended = h.ended;
  }

  emit_block-IsLaid :
      (pre : List Block) (b : Block) (cg : Codegen)
      → IsLaid 0 pre cg
      → IsBlock rom b
      → All (λ c. Apart c b) pre
      → (cg' : Codegen) × (emit_block cg b ≡ emitted cg') × IsLaid 0 (pre ++ b ∷ []) cg'
  unfolding emit_block
  emit_block-IsLaid pre b cg h is apart =
      let r = emit_calls-AreEmitted rom image cg b.start is.stop b.instructions h.cached is.chain in
      let count : length r.next.main ≡ length pre = ap length r.keeps.main ∙ h.count in
      (
        laid_block r.next b r.segments,
        rw r.emits refl,
        record {
          cached = record {
            holds = r.keeps.cached.holds;
            kept = r.keeps.cached.kept;
            distinct = r.keeps.cached.distinct;
          };
          count =
              omega (arith, length-append r.next.main (_ ∷ []), length-append pre (b ∷ []), count);
          laid = λ p c e. elim (append_cases pre b p c e) [
            | inl (at, same) ↦
                subst₂ (λ q d. IsAt 0 q d (laid_block r.next b r.segments)) (count ∙ sym at) same
                  (new-IsAt r.next b r.segments r.compiled)
            | inr (below, old) ↦
                old-IsAt r.next b r.segments p c (kept-IsAt cg r.next p c r.keeps (h.laid p c old))
                  (omega (arith, count)) (All_get (λ d. Apart d b) pre p c apart old)
          ];
        },
      )

  pub emit_blocks-IsLaid :
      (pre rest : List Block) (cg : Codegen)
      → IsLaid 0 pre cg
      → All (IsBlock rom) rest
      → Pairs Apart (pre ++ rest)
      → (cg' : Codegen) × (emit_blocks cg rest ≡ emitted cg') × IsLaid 0 (pre ++ rest) cg'
  unfolding emit_blocks
  emit_blocks-IsLaid pre [] cg h all apart = (cg, refl, rw append-nil h)
  emit_blocks-IsLaid pre (b ∷ rest) cg h all apart =
      let (one, e, laid) =
        emit_block-IsLaid pre b cg h all.0 (Pairs-split Apart pre b rest apart) in
      let regroup : (pre ++ b ∷ []) ++ rest ≡ pre ++ b ∷ rest = append_assoc pre (b ∷ []) rest in
      let (cg', f, done) =
        emit_blocks-IsLaid (pre ++ b ∷ []) rest one laid all.1
          (subst (Pairs Apart) (sym regroup) apart) in
      (cg', rw (e, f) refl, subst (λ bs. IsLaid 0 bs cg') regroup done)
