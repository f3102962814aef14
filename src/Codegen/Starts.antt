-- ===== src/Codegen/Starts.antt =====
-- runtime/src/emulator.c, is_block_start: the runtime's search in the array of starts that
-- emitBlockStarts emits.
use gbrc.Common.{
  ℕ, zero, suc, ◌+◌, ◌-◌, ◌/◌, ◌<◌, ◌≤◌, ◌≡◌, ◌≢◌, inl, inr, refl, sym, ap, ◌∙◌, arith, Bool, true,
  false, ltb, ◌==◌, ==_iff, if◌then◌else◌, some, none, List, [], ◌∷◌, map, length, get_elem?,
  lt-length_of_get_elem?, one_of, subst, All, All-map, Pairs, Bool-cases, Run, done, panic,
  out_of_fuel, ◌>>=◌,
}
use gbrc.Rom.{Rom}
use gbrc.Rom.Image.{IsImage}
use gbrc.Decoder.Types.{Instruction}
use gbrc.Decoder.Cache.{new}
use gbrc.Analyzer.Types.{Block}
use gbrc.Analyzer.Chain.{IsBlock, Chain}
use gbrc.Analyzer.Analyze.{analyze_blocks}
use gbrc.Analyzer.Sorted.{IsProper, Before}
use gbrc.Analyzer.Correct.{analyze_blocks_correct, IsBlock-IsProper}
use gbrc.Codegen.Assembly.{emitted, Program, new_codegen, block_starts}
use gbrc.Codegen.Emission.Blocks.{All_get}
use gbrc.Codegen.Correct.{new_codegen-IsProgram}
use gbrc.Codegen.Pipeline.{Before-Apart}

-- The first loop: `n` is the index of the end mark. To read past the array is a panic.
abbrev pub count_starts : List ℕ → Run ℕ
count_starts [] = panic
count_starts (v ∷ vs) =
    let rest = count_starts vs in if v == 0xFFFF then done 0 else (rest >>= λ n. done (suc n))

-- The second loop, from `lo` up to `hi`, on a bound of rounds.
unfoldable pub search_starts : ℕ → List ℕ → (target lo hi : ℕ) → Run Bool
search_starts zero starts target lo hi = out_of_fuel
search_starts (suc fuel) starts target lo hi =
    let mid = lo + (hi - lo) / 2 in
    elim (ltb lo hi) [
      | true ↦ elim (get_elem? starts mid) [
        | none ↦ panic
        | some v ↦
            let lo' = if ltb v target then mid + 1 else lo in
            let hi' = if ltb v target then hi else mid in
            let rest = search_starts fuel starts target lo' hi' in
            if v == target then done true else rest
      ]
      | false ↦ done false
    ]

-- A round for each entry, and one that finds the range empty.
unfoldable pub is_block_start : List ℕ → ℕ → Run Bool
unfolding search_starts
is_block_start starts target = count_starts starts >>= λ n. search_starts (suc n) starts target 0 n

abbrev starts_of : List Block → List ℕ
starts_of bs = map (λ b. b.start) bs

abbrev Low : Block → Type 0
Low b = b.start < 0xFFFF

count_starts-block_starts :
    (bs : List Block) → All Low bs → count_starts (block_starts bs) ≡ done (length bs)
count_starts-block_starts [] low = refl
count_starts-block_starts (b ∷ bs) low =
    let other : (b.start == 0xFFFF) ≡ false = ground (arith, low.0) in
    rw (other, count_starts-block_starts bs low.1) refl

starts_get :
    (bs : List Block) (k : ℕ)
    → k < length bs
    → (b : Block) × (get_elem? bs k ≡ some b) × (get_elem? (block_starts bs) k ≡ some b.start)
starts_get [] k h = absurd (omega arith)
starts_get (b ∷ bs) zero h = (b, refl, refl)
starts_get (b ∷ bs) (suc k) h = starts_get bs k (omega arith)

Pairs_get :
    {A : Type 0} (R : A → A → Type 0) (xs : List A) (i j : ℕ) (x y : A)
    → Pairs R xs
    → i < j
    → get_elem? xs i ≡ some x
    → get_elem? xs j ≡ some y
    → R x y
Pairs_get R [] i j x y h k e f = cc
Pairs_get R (z ∷ xs) i zero x y h k e f = absurd (omega arith)
Pairs_get R (z ∷ xs) zero (suc j) x y h k e f =
    let q : z ≡ x = cc in subst (λ w. R w y) q (All_get (R z) xs j y h.0 f)
Pairs_get R (z ∷ xs) (suc i) (suc j) x y h k e f = Pairs_get R xs i j x y h.1 (omega arith) e f

one_of_get :
    (bs : List Block) (k target : ℕ) (b : Block)
    → get_elem? bs k ≡ some b
    → b.start ≡ target
    → one_of target (starts_of bs) ≡ true
one_of_get [] k target b e same = cc
one_of_get (c ∷ bs) zero target b e same =
    let q : c.start ≡ b.start = cc in
    let hit : (target == c.start) ≡ true = ground (arith, q, same) in rw hit refl
one_of_get (c ∷ bs) (suc k) target b e same = elim (Bool-cases (target == c.start)) [
  | inl hit ↦ rw hit refl
  | inr miss ↦ rw miss (one_of_get bs k target b e same)
]

one_of_none :
    (bs : List Block) (target : ℕ)
    → ((k : ℕ) (b : Block) → get_elem? bs k ≡ some b → b.start ≢ target)
    → one_of target (starts_of bs) ≡ false
one_of_none [] target none_at = refl
one_of_none (b ∷ bs) target none_at =
    let other = none_at 0 b refl in
    let miss : (target == b.start) ≡ false = ground (arith, other) in
    rw miss (one_of_none bs target λ k. none_at (suc k))

module _ (bs : List Block) (target : ℕ) (proper : All IsProper bs) (sorted : Pairs Before bs) where
  -- What starts at the target has its index in a range.
  abbrev Within : ℕ → ℕ → Type 0
  Within lo hi =
      (k : ℕ) (b : Block) → get_elem? bs k ≡ some b → b.start ≡ target → (lo ≤ k) × (k < hi)

  start-lt :
      (i j : ℕ) (b c : Block)
      → i < j
      → get_elem? bs i ≡ some b
      → get_elem? bs j ≡ some c
      → b.start < c.start
  start-lt i j b c h e f =
      let apart : b.end < c.start = Pairs_get Before bs i j b c sorted h e f in
      let is : b.start ≤ b.end = All_get IsProper bs i b proper e in omega (arith, apart, is)

  narrow :
      (lo hi mid : ℕ) (b : Block)
      → get_elem? bs mid ≡ some b
      → b.start ≢ target
      → Within lo hi
      → Within (if ltb b.start target then mid + 1 else lo) (if ltb b.start target then hi else mid)
  narrow lo hi mid b get other within k c e same =
      let (low, high) = within k c e same in
      let before : k < mid → c.start < b.start = λ h. start-lt k mid c b h e get in
      let behind : mid < k → b.start < c.start = λ h. start-lt mid k b c h get e in
      let at : k ≡ mid → b.start ≡ c.start = λ h.
        let q : some b ≡ some c = sym get ∙ ap (get_elem? bs) (sym h) ∙ e in
        ap (λ o. elim o [ none ↦ 0 | some x ↦ x.start ]) q in
      elim (Bool-cases (ltb b.start target)) [
        | inl less ↦ rw less (ground (arith, before, behind, at))
        | inr more ↦ rw more (ground (arith, before, behind, at))
      ]

  search_starts_lem :
      (fuel lo hi : ℕ)
      → hi < lo + fuel
      → lo ≤ hi
      → hi ≤ length bs
      → Within lo hi
      → search_starts fuel (block_starts bs) target lo hi ≡ done (one_of target (starts_of bs))
  unfolding search_starts
  search_starts_lem zero lo hi enough ordered inside within = absurd (omega arith)
  search_starts_lem (suc fuel) lo hi enough ordered inside within = elim (Bool-cases (ltb lo hi)) [
    | inr empty ↦
        let nowhere =
          one_of_none bs target λ k b e same. let (low, high) = within k b e same in ground arith in
        rw (search_starts, empty, nowhere) refl
    | inl some_left ↦
        let half : lo + (hi - lo) / 2 < hi = ground arith in
        let (b, get, entry) = starts_get bs (lo + (hi - lo) / 2) (omega (arith, half)) in
        elim (Bool-cases (b.start == target)) [
          | inl hit ↦
              let here = one_of_get bs (lo + (hi - lo) / 2) target b get ((==_iff _ _).0 hit) in
              rw (search_starts, some_left, entry, hit, here) refl
          | inr miss ↦
              let rest =
                search_starts_lem fuel (if ltb b.start target then lo + (hi - lo) / 2 + 1 else lo)
                  (if ltb b.start target then hi else lo + (hi - lo) / 2) (ground arith)
                  (ground arith) (ground arith)
                  (narrow lo hi (lo + (hi - lo) / 2) b get (ground (arith, miss)) within) in
              rw (search_starts, some_left, entry, miss) rest
        ]
  ]

IsBlock-Low : (rom : Rom) (b : Block) → IsBlock rom b → Low b
IsBlock-Low rom b is = go b.instructions is.chain is.nonempty
  where
    go : (is' : List Instruction) → Chain rom b.start is' is.stop → is' ≢ [] → Low b
    go [] chain ne = absurd (ne refl)
    go (i ∷ rest) chain ne = omega (arith, chain.0.inside)

-- For every image and list of extra seeds AnalyzeBlocks returns and New generates a program without
-- an error, in whose array of starts the runtime's is_block_start finds an end mark and tells, for
-- every address, whether it is the start of a block.
pub is_block_start-new_codegen :
    (rom : Rom) (extra : List ℕ) (target : ℕ)
    → IsImage rom
    → (bs : List Block) × (p : Program) × (analyze_blocks (new rom) extra ≡ done bs)
      × (new_codegen bs ≡ emitted p)
      × (is_block_start p.starts target ≡ done (one_of target (map (λ b. b.start) bs)))
unfolding is_block_start
is_block_start-new_codegen rom extra target image =
    let (bs, e, good, before) = analyze_blocks_correct rom extra image in
    let proper = All-map (IsBlock rom) IsProper (IsBlock-IsProper rom) bs good in
    let (p, f, is) = new_codegen-IsProgram rom bs image good (Before-Apart bs proper before) in
    let low = All-map (IsBlock rom) Low (IsBlock-Low rom) bs good in
    let count = count_starts-block_starts bs low in
    let found =
      search_starts_lem bs target proper before (suc (length bs)) 0 (length bs) (omega arith)
        (omega arith) (omega arith)
        (λ k b e same. (omega arith, lt-length_of_get_elem? bs k b e)) in
    (bs, p, e, f, rw (is.starts, count) found)
