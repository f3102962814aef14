-- ===== src/Codegen/Emission/Dispatch.antt =====
-- The dispatcher's chain: it leads a start to the index of its block, and any other address nowhere.
use gbrc.Common.{
  inl, inr, Bool-cases, sym, ==_iff, ℕ, zero, suc, ◌+◌, ◌≡◌, ◌≢◌, refl, sym, subst, arith, ◌==◌,
  if◌then◌else◌, Option, some, none, List, [], ◌∷◌, ◌++◌, length, length-append, get_elem?,
  get_elem?-middle, Pairs,
}
use mathlib.Core.List.{append_assoc}
use gbrc.Analyzer.Types.{Block}
use gbrc.Codegen.Assembly.{emitted, Codegen, setup_return_dispatcher}
use gbrc.Codegen.Execution.{target_of}
use gbrc.Codegen.Emission.Blocks.{IsLaid, Apart, All_get}

-- The index, counted from `k`, of the first block that starts at an address.
abbrev pub block_at : ℕ → ℕ → List Block → Option ℕ
block_at pc k [] = none
block_at pc k (b ∷ bs) = if pc == b.start then some k else block_at pc (k + 1) bs

pub dispatcher_leads :
    (n : ℕ) (pre rest : List Block) (cg : Codegen)
    → IsLaid n (pre ++ rest) cg
    → (chain : List (ℕ × ℕ)) × (setup_return_dispatcher cg rest ≡ emitted chain)
      × ((pc : ℕ) → target_of pc chain ≡ block_at pc (length pre) rest)
unfolding setup_return_dispatcher
dispatcher_leads n pre [] cg h = ([], refl, λ pc. refl)
dispatcher_leads n pre (b ∷ rest) cg h =
    let at = h.laid (length pre) b (get_elem?-middle pre b rest) in
    let regroup : (pre ++ b ∷ []) ++ rest ≡ pre ++ b ∷ rest = append_assoc pre (b ∷ []) rest in
    let (chain, e, leads) =
      dispatcher_leads n (pre ++ b ∷ []) rest cg (subst (λ bs. IsLaid n bs cg) (sym regroup) h) in
    let count : length (pre ++ b ∷ []) ≡ length pre + 1 =
      omega (arith, length-append pre (b ∷ [])) in
    ((b.start, length pre) ∷ chain, rw (at.found, e) refl, λ pc. rw (leads pc, count) refl)

-- Where no two blocks start alike, a start leads to its own block.
pub block_at_start :
    (k p : ℕ) (bs : List Block) (b : Block)
    → Pairs Apart bs
    → get_elem? bs p ≡ some b
    → block_at b.start k bs ≡ some (k + p)
block_at_start k p [] b apart e = cc
block_at_start k zero (c ∷ bs) b apart e = ground arith
block_at_start k (suc p) (c ∷ bs) b apart e =
    let other : c.start ≢ b.start = All_get (Apart c) bs p b apart.0 e in
    ground (arith, block_at_start (k + 1) p bs b apart.1 e)

-- What `block_at` finds is a block with that start.
pub block_at-some :
    (pc k i : ℕ) (bs : List Block)
    → block_at pc k bs ≡ some i
    → (j : ℕ) × (i ≡ k + j) × (b : Block) × (get_elem? bs j ≡ some b) × (b.start ≡ pc)
block_at-some pc k i [] e = cc
block_at-some pc k i (b ∷ bs) e = elim (Bool-cases (pc == b.start)) [
  | inl same ↦
      let q : some k ≡ some i = rw same at e in
      let r : k ≡ i = cc in (0, omega (arith, r), b, refl, sym ((==_iff pc b.start).0 same))
  | inr other ↦
      let (j, at, c, get, start) = block_at-some pc (k + 1) i bs (rw other at e) in
      (suc j, omega (arith, at), c, get, start)
]
