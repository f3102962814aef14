-- ===== src/Analyzer/Sorted/Unique.antt =====
-- internal/analyzer/analyzer.go: the sort of AnalyzeBlocks by its comparison, apart from the algorithm
-- of slices.SortFunc.
use mathlib.Core.List.{Permᴰ}
use mathlib.Core.List.Permᴰ.{nil, cons, swap, trans}
use gbrc.Common.{
  Pairs, ◌≤◌, ◌≡◌, ◌≢◌, refl, sym, ap, ◌∙◌, subst, ltb, true, false, Bool-cases, inl, inr, List, [],
  ◌∷◌, arith, All,
}
use gbrc.Analyzer.Types.{Block}
use gbrc.Analyzer.Analyze.{insert_block, sort_blocks}

abbrev pub StartsDiffer : Block → Block → Type 0
StartsDiffer b c = b.start ≢ c.start

-- The result of the comparison is not positive.
abbrev pub InOrder : Block → Block → Type 0
InOrder b c = b.start ≤ c.start

All-perm : (P : Block → Type 0) (xs ys : List Block) → Permᴰ xs ys → All P xs → All P ys
All-perm P _ _ nil h = tt
All-perm P _ _ (cons e d) h = (subst P e h.0, All-perm P _ _ d h.1)
All-perm P _ _ (swap e f) h = (subst P f h.1.0, (subst P e h.0, h.1.1))
All-perm P _ _ (trans d d') h = All-perm P _ _ d' (All-perm P _ _ d h)

Pairs-perm : (xs ys : List Block) → Permᴰ xs ys → Pairs StartsDiffer xs → Pairs StartsDiffer ys
Pairs-perm _ _ nil h = tt
Pairs-perm _ _ (cons {a} {b} {l₁} {l₂} e d) h = (
  subst (λ c. All (StartsDiffer c) l₂) e (All-perm (StartsDiffer a) _ _ d h.0),
  Pairs-perm _ _ d h.1,
)
Pairs-perm _ _ (swap {a} {b} {a'} {b'} {l} e f) h =
    let back : a'.start ≢ b'.start =
      λ g. h.0.0 (ap (λ c. c.start) e ∙ sym g ∙ sym (ap (λ c. c.start) f)) in
    (
      (back, subst (λ c. All (StartsDiffer c) l) f h.1.0),
      (subst (λ c. All (StartsDiffer c) l) e h.0.1, h.1.1),
    )
Pairs-perm _ _ (trans d d') h = Pairs-perm _ _ d' (Pairs-perm _ _ d h)

insert_block_swap :
    (x y : Block) (zs : List Block)
    → x.start ≢ y.start
    → insert_block x (insert_block y zs) ≡ insert_block y (insert_block x zs)
unfolding insert_block
insert_block_swap x y [] differ = elim (Bool-cases (ltb y.start x.start)) [
  | inl h ↦ let k : ltb x.start y.start ≡ false = ground (arith, h) in rw (h, k) refl
  | inr h ↦ let k : ltb x.start y.start ≡ true = ground (arith, h, differ) in rw (h, k) refl
]
insert_block_swap x y (z ∷ zs) differ = elim (Bool-cases (ltb z.start y.start)) [
  | inl zy ↦ elim (Bool-cases (ltb z.start x.start)) [
    | inl zx ↦ rw (zy, zx) (rw zy (ap (λ r. z ∷ r) (insert_block_swap x y zs differ)))
    | inr zx ↦
        let k : ltb x.start y.start ≡ true = ground (arith, zy, zx) in rw (zy, zx) (rw (k, zy) refl)
  ]
  | inr zy ↦ elim (Bool-cases (ltb z.start x.start)) [
    | inl zx ↦
        let k : ltb y.start x.start ≡ true = ground (arith, zy, zx) in rw (zy, zx) (rw (k, zy) refl)
    | inr zx ↦ elim (Bool-cases (ltb y.start x.start)) [
      | inl h ↦ let k : ltb x.start y.start ≡ false = ground (arith, h) in rw (zy, zx, h, k) refl
      | inr h ↦
          let k : ltb x.start y.start ≡ true = ground (arith, h, differ) in
          rw (zy, zx, h, k, zy) refl
    ]
  ]
]

sort_blocks-eq :
    (xs ys : List Block) → Permᴰ xs ys → Pairs StartsDiffer xs → sort_blocks xs ≡ sort_blocks ys
unfolding sort_blocks
sort_blocks-eq _ _ nil h = refl
sort_blocks-eq _ _ (cons {a} {b} {l₁} {l₂} e d) h =
    ap (λ c. insert_block c (sort_blocks l₁)) e ∙ ap (insert_block b) (sort_blocks-eq _ _ d h.1)
sort_blocks-eq _ _ (swap {a} {b} {a'} {b'} {l} e f) h =
    insert_block_swap a b (sort_blocks l) h.0.0
    ∙ ap (λ c. insert_block c (insert_block a (sort_blocks l))) f
    ∙ ap (λ c. insert_block a' (insert_block c (sort_blocks l))) e
sort_blocks-eq _ _ (trans d d') h =
    sort_blocks-eq _ _ d h ∙ sort_blocks-eq _ _ d' (Pairs-perm _ _ d h)

sort_blocks_fixed : (ys : List Block) → Pairs InOrder ys → sort_blocks ys ≡ ys
unfolding sort_blocks insert_block
sort_blocks_fixed [] h = refl
sort_blocks_fixed (y ∷ []) h = refl
sort_blocks_fixed (y ∷ (z ∷ zs)) h =
    let least : ltb z.start y.start ≡ false = ground (arith, h.0.0) in
    ap (insert_block y) (sort_blocks_fixed (z ∷ zs) h.1) ∙ rw least refl

-- For any blocks with different starts: every arrangement of them in which no start is above a later
-- one, which is what slices.SortFunc promises with the comparison of AnalyzeBlocks, is the list that
-- `sort_blocks` computes.
pub sort_blocks_unique :
    (xs ys : List Block)
    → Pairs StartsDiffer xs
    → Permᴰ xs ys
    → Pairs InOrder ys
    → ys ≡ sort_blocks xs
sort_blocks_unique xs ys differ same ordered =
    sym (sort_blocks-eq xs ys same differ ∙ sort_blocks_fixed ys ordered)
