-- ===== src/Codegen/Emission/Join.antt =====
-- Joining the blocks: each gets its terminator, and the dispatcher's chain finds each by its start.
use mathlib.Core.List.{append_assoc}
use mathlib.Core.Path.{subst₂}
use gbrc.Common.{
  ℕ, suc, ◌+◌, ◌≡◌, ◌≢◌, inl, inr, refl, sym, subst, ◌∙◌, arith, ltb, ◌==◌, ==_iff, length-set,
  if◌then◌else◌, some, List, [], ◌∷◌, ◌++◌, length, length-append, get_elem?, get_elem?-middle,
  get_elem?-set, lt-length_of_get_elem?, set, All, Bool-cases,
}
use gbrc.Rom.{Rom}
use gbrc.Rom.Image.{IsImage}
use gbrc.Decoder.Types.{Instruction}
use gbrc.Analyzer.Types.{Block, rom_end}
use gbrc.Analyzer.Flow.{flow, is_block_terminator}
use gbrc.Analyzer.Chain.{Sits, Chain, IsBlock, last?}
use gbrc.Codegen.Ir.{i16, Global, store, new_int, global}
use gbrc.Codegen.Exits.{Exit}
use gbrc.Codegen.Exits.Total.{terminator_has_exit}
use gbrc.Codegen.Assembly.{
  emitted, Terminator, Codegen, last_instr, terminator_of, set_term, join_blocks, join_all,
}
use gbrc.Codegen.Emission.Blocks.{IsAt, IsLaid, IsEnded}

last_instr-last? :
    (is : List Instruction) (i : Instruction) → last? is ≡ some i → last_instr is ≡ emitted i
last_instr-last? [] i e = cc
last_instr-last? (j ∷ []) i e = cc
last_instr-last? (j ∷ (k ∷ is)) i e = last_instr-last? (k ∷ is) i e

last_exists : (is : List Instruction) → is ≢ [] → (i : Instruction) × (last? is ≡ some i)
last_exists [] ne = absurd (ne refl)
last_exists (i ∷ []) ne = (i, refl)
last_exists (i ∷ (j ∷ is)) ne = last_exists (j ∷ is) (λ e. cc)

module _ (rom : Rom) (image : IsImage rom) where
  last-Sits :
      (a stop : ℕ) (is : List Instruction) (i : Instruction)
      → Chain rom a is stop
      → last? is ≡ some i
      → (x : ℕ) × Sits rom x i
  last-Sits a stop [] i chain e = cc
  last-Sits a stop (j ∷ []) i chain e = let q : j ≡ i = cc in (a, subst (Sits rom a) q chain.0)
  last-Sits a stop (j ∷ (k ∷ is)) i chain e = last-Sits (a + j.length) stop (k ∷ is) i chain.1 e

  -- A block of the analyzer has a terminator that can be emitted.
  terminator_exists :
      (b : Block) (i : Instruction)
      → IsBlock rom b
      → last? b.instructions ≡ some i
      → (t : Terminator) × (terminator_of b i ≡ some t)
  unfolding flow
  terminator_exists b i h last = elim (Bool-cases (is_block_terminator i)) [
    | inl jumps ↦
        let (x, sits) = last-Sits b.start h.stop b.instructions i h.chain last in
        let (t, e) = terminator_has_exit rom x i image sits.decoded jumps in
        (Terminator.leaves t.1 t.0, rw (jumps, e) refl)
    | inr runs ↦ elim (Bool-cases (ltb h.stop rom_end)) [
      | inl inside ↦
          let follows : b.successors ≡ h.stop ∷ [] = h.follows ∙ rw (last, runs, inside) refl in
          (
            Terminator.leaves (store (new_int i16 h.stop) (global Global.pc) ∷ []) Exit.br,
            rw (runs, follows) refl,
          )
      | inr outside ↦
          let follows : b.successors ≡ [] = h.follows ∙ rw (last, runs, outside) refl in
          (Terminator.returns, rw (runs, follows) refl)
    ]
  ]

  module _ (n : ℕ) (bs : List Block) (cg : Codegen) (b : Block) (h : IsLaid n bs cg)
      (get : get_elem? bs n ≡ some b) (at : IsAt n n b cg) (t : Terminator) where
    joined : Codegen
    joined = record cg { main = set cg.main n (set_term (some t) at.ir) }

    joined_at :
        (q : ℕ)
        → get_elem? joined.main q
          ≡ (if q == n then some (set_term (some t) at.ir) else get_elem? cg.main q)
    unfolding joined
    joined_at q =
        get_elem?-set cg.main n q (set_term (some t) at.ir)
          (lt-length_of_get_elem? cg.main n at.ir at.here)

    joined-IsAt :
        (q : ℕ) (c : Block) → get_elem? bs q ≡ some c → IsEnded b (some t) → IsAt (suc n) q c joined
    unfolding joined
    joined-IsAt q c e ends = elim (Bool-cases (q == n)) [
      | inl same ↦
          let p : q ≡ n = (==_iff q n).0 same in
          let d : b ≡ c =
            (let f : get_elem? bs n ≡ some c = subst (λ x. get_elem? bs x ≡ some c) p e in cc) in
          subst (λ x. IsAt (suc n) q x joined) d
            (record {
              ir = set_term (some t) at.ir;
              here = joined_at q ∙ rw same refl;
              name = at.name;
              compiled = at.compiled;
              found = subst (λ x. cg.ir_blocks b.start ≡ some x) (sym p) at.found;
              ended = λ _. ends;
            })
      | inr other ↦
          let old = h.laid q c e in
          record {
            ir = old.ir;
            here = joined_at q ∙ rw other old.here;
            name = old.name;
            compiled = old.compiled;
            found = old.found;
            ended = λ l. old.ended (ground arith);
          }
    ]

  join_blocks-IsLaid :
      (n : ℕ) (bs : List Block) (cg : Codegen) (b : Block)
      → IsLaid n bs cg
      → get_elem? bs n ≡ some b
      → IsBlock rom b
      → (cg' : Codegen) × (join_blocks cg b ≡ emitted cg') × IsLaid (suc n) bs cg'
  unfolding join_blocks joined
  join_blocks-IsLaid n bs cg b h get is =
      let at = h.laid n b get in
      let (i, last) = last_exists b.instructions is.nonempty in
      let (t, chosen) = terminator_exists b i is last in
      let ends : IsEnded b (some t) = record {
        last = i;
        term = t;
        is_last = last;
        chosen = chosen;
        set_to = refl;
      } in
      (
        joined n bs cg b h get at t,
        rw (at.found, last_instr-last? b.instructions i last, chosen, at.here) refl,
        record {
          cached = record {
            holds = h.cached.holds;
            kept = h.cached.kept;
            distinct = h.cached.distinct;
          };
          count = length-set cg.main n (set_term (some t) at.ir) ∙ h.count;
          laid = λ q c e. joined-IsAt n bs cg b h get at t q c e ends;
        },
      )

  pub join_all-IsLaid :
      (pre rest : List Block) (cg : Codegen)
      → IsLaid (length pre) (pre ++ rest) cg
      → All (IsBlock rom) rest
      → (cg' : Codegen) × (join_all cg rest ≡ emitted cg')
        × IsLaid (length (pre ++ rest)) (pre ++ rest) cg'
  unfolding join_all
  join_all-IsLaid pre [] cg h all =
      (cg, refl, subst (λ n. IsLaid n (pre ++ []) cg) (omega (arith, length-append pre [])) h)
  join_all-IsLaid pre (b ∷ rest) cg h all =
      let (one, e, laid) =
        join_blocks-IsLaid (length pre) (pre ++ b ∷ rest) cg b h (get_elem?-middle pre b rest)
          all.0 in
      let regroup : (pre ++ b ∷ []) ++ rest ≡ pre ++ b ∷ rest = append_assoc pre (b ∷ []) rest in
      let count : suc (length pre) ≡ length (pre ++ b ∷ []) =
        omega (arith, length-append pre (b ∷ [])) in
      let (cg', f, all_laid) =
        join_all-IsLaid (pre ++ b ∷ []) rest one
          (subst₂ (λ n bs. IsLaid n bs one) count (sym regroup) laid) all.1 in
      (cg', rw (e, f) refl, subst (λ bs. IsLaid (length bs) bs cg') regroup all_laid)
