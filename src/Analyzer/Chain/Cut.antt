-- ===== src/Analyzer/Chain/Cut.antt =====
-- Cutting a run of instructions at one of its boundaries.
use gbrc.Common.{
  ℕ, ◌+◌, ◌<◌, ◌≡◌, ◌≢◌, refl, true, false, List, [], ◌∷◌, arith, ℕ_discrete, sym, ◌∙◌,
}
use mathlib.Core.Bool.{false≢true}
use gbrc.Rom.{Rom}
use gbrc.Decoder.Types.{Instruction}
use gbrc.Analyzer.Types.{rom_end}
use gbrc.Analyzer.Arrays.{is_boundary_of, truncate}
use gbrc.Analyzer.Chain.{Sits, Chain, Plain, Straight, Chain-le}

-- What is left of a run from `a` when it is cut at `addr`.
pub record IsCut (rom : Rom) (a addr stop : ℕ) (left : List Instruction) : Type 0 where
  pub chain : Chain rom a left addr
  pub plain : Plain left
  pub before : a < addr
  pub nonempty : left ≢ []
  pub inside : addr < rom_end
  pub below : addr < stop

module _ (rom : Rom) (addr stop : ℕ) where
  -- A boundary at the head leaves nothing before it.
  truncate_head :
      (is : List Instruction)
      → Chain rom addr is stop
      → is_boundary_of addr is ≡ true
      → (truncate addr is ≡ []) × (addr < rom_end) × (addr < stop)
  unfolding truncate is_boundary_of
  truncate_head [] h e = cc
  truncate_head (i ∷ is) h e = (
    ground (arith, h.0.at),
    h.0.inside,
    omega (arith, Chain-le rom (addr + i.length) is stop h.1, h.0.long),
  )

  no_boundary : is_boundary_of addr [] ≡ false
  unfolding is_boundary_of
  no_boundary = refl

  -- The boundary is not the head, so it is behind it.
  behind_head :
      (a : ℕ) (i : Instruction) (is : List Instruction)
      → Sits rom a i
      → is_boundary_of addr (i ∷ is) ≡ true
      → a ≢ addr
      → (a < addr)
        × (is_boundary_of addr is ≡ true)
        × (truncate addr (i ∷ is) ≡ i ∷ truncate addr is)
  unfolding truncate is_boundary_of
  behind_head a i is s e ne = ground (arith, s.at)

  pub truncate-IsCut :
      (a : ℕ) (is : List Instruction)
      → Chain rom a is stop
      → Straight is
      → is_boundary_of addr is ≡ true
      → a ≢ addr
      → IsCut rom a addr stop (truncate addr is)
  truncate-IsCut a [] h s e ne = absurd (false≢true (sym no_boundary ∙ e))
  truncate-IsCut a (i ∷ []) h s e ne =
      absurd (false≢true (sym no_boundary ∙ (behind_head a i [] h.0 e ne).1))
  truncate-IsCut a (i ∷ (j ∷ is)) h s e ne =
      let (before, rest, cut) = behind_head a i (j ∷ is) h.0 e ne in
      elim (ℕ_discrete (a + i.length) addr) [
        | yes meets ↦
            let next : Chain rom addr (j ∷ is) stop = rw meets at h.1 in
            let (empty, inside, below) = truncate_head (j ∷ is) next rest in
            rw (cut, empty)
              (record {
                chain = (h.0, meets);
                plain = (s.0, tt);
                before = before;
                nonempty = λ q. cc;
                inside = inside;
                below = below;
              })
        | no apart ↦
            let tail = truncate-IsCut (a + i.length) (j ∷ is) h.1 s.1 rest apart in
            rw cut (record {
              chain = (h.0, tail.chain);
              plain = (s.0, tail.plain);
              before = before;
              nonempty = λ q. cc;
              inside = tail.inside;
              below = tail.below;
            })
      ]
