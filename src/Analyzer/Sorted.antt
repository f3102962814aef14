-- ===== src/Analyzer/Sorted.antt =====
-- The sorted blocks: the same blocks, in the order of their addresses, with no byte in common.
pub mod Unique
use gbrc.Common.{
  Pairs, ◌≤◌, ◌<◌, ltb, ltb→lt, ltb-false, Bool-cases, inl, inr, ◌⊎◌, List, [], ◌∷◌, arith, All,
  All-map,
}
use gbrc.Analyzer.Types.{Block}
use gbrc.Analyzer.Analyze.{insert_block, sort_blocks}

abbrev pub IsProper : Block → Type 0
IsProper b = b.start ≤ b.end

abbrev pub Disjoint : Block → Block → Type 0
Disjoint b c = (b.end < c.start) ⊎ (c.end < b.start)

abbrev pub Before : Block → Block → Type 0
Before b c = b.end < c.start

module _ (P : Block → Type 0) where
  insert_block-All : (x : Block) (ys : List Block) → P x → All P ys → All P (insert_block x ys)
  unfolding insert_block
  insert_block-All x [] h k = (h, tt)
  insert_block-All x (y ∷ ys) h k = elim (Bool-cases (ltb y.start x.start)) [
    | inl after ↦ rw after (k.0, insert_block-All x ys h k.1)
    | inr here ↦ rw here (h, k)
  ]

  pub sort_blocks-All : (xs : List Block) → All P xs → All P (sort_blocks xs)
  unfolding sort_blocks
  sort_blocks-All [] h = tt
  sort_blocks-All (x ∷ xs) h = insert_block-All x (sort_blocks xs) h.0 (sort_blocks-All xs h.1)

insert_block-Before :
    (x : Block) (ys : List Block)
    → IsProper x
    → All IsProper ys
    → All (Disjoint x) ys
    → Pairs Before ys
    → Pairs Before (insert_block x ys)
unfolding insert_block
insert_block-Before x [] hx hy d p = (tt, tt)
insert_block-Before x (y ∷ ys) hx hy d p = elim (Bool-cases (ltb y.start x.start)) [
  | inl after ↦
      let behind : Before y x = ground (arith, ltb→lt _ _ after) in
      rw after
        (insert_block-All (Before y) x ys behind p.0, insert_block-Before x ys hx hy.1 d.1 p.1)
  | inr here ↦
      let first : Before x y = ground (arith, ltb-false _ _ here) in
      rw here ((first, All-map (Before y) (Before x) (λ z q. omega (arith, hy.0)) ys p.0), p)
]

-- Sorting blocks whose start is not above their end, and of which no two share a byte, puts each
-- block before the later ones: it ends before they start.
pub sort_blocks-Before :
    (xs : List Block) → All IsProper xs → Pairs Disjoint xs → Pairs Before (sort_blocks xs)
unfolding sort_blocks
sort_blocks-Before [] h d = tt
sort_blocks-Before (x ∷ xs) h d =
    insert_block-Before x (sort_blocks xs) h.0 (sort_blocks-All IsProper xs h.1)
      (sort_blocks-All (Disjoint x) xs d.0) (sort_blocks-Before xs h.1 d.1)
