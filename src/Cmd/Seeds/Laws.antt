-- ===== src/Cmd/Seeds/Laws.antt =====
-- What readSeeds returns.
use gbrc.Common.{
  ℕ, ◌<◌, ◌≡◌, ◌≢◌, inl, inr, refl, sym, ap, ◌∙◌, arith, Bool, true, false, ltb, ◌==◌, not, ◌&&◌,
  ◌||◌, Bool-cases, Option-cases, Option, some, none, List, [], ◌∷◌, ◌++◌, one_of, All, All-append,
  All-map, Pairs, Pairs-append,
}
use gbrc.Analyzer.Types.{rom_end}
use gbrc.Cmd.Seeds.{seed_of, see, scan_lines, scanned, read_seeds}

-- Whether a line reads as an address.
unfoldable pub is_named : ℕ → List (List ℕ) → Bool
is_named a [] = false
is_named a (line ∷ lines) = elim (seed_of line) [
  | none ↦ is_named a lines
  | some addr ↦ a == addr || is_named a lines
]

one_of-append : (a x : ℕ) (xs : List ℕ) → one_of a (xs ++ x ∷ []) ≡ (one_of a xs || a == x)
one_of-append a x [] = ground arith
one_of-append a x (y ∷ ys) = elim (Bool-cases (a == y)) [
  | inl here ↦ rw here refl
  | inr there ↦ rw there (one_of-append a x ys)
]

All-other : (a : ℕ) (xs : List ℕ) → one_of a xs ≡ false → All (λ x. x ≢ a) xs
All-other a [] h = tt
All-other a (x ∷ xs) h = (λ e. ground (arith, e, h), All-other a xs (ground (arith, h)))

-- The seeds so far: the set of them is the map, they are distinct, and in the ROM.
record IsKept (seen : ℕ → Bool) (seeds : List ℕ) : Type 0 where
  pub tracks : (a : ℕ) → seen a ≡ one_of a seeds
  pub apart : Pairs (λ a b. b ≢ a) seeds
  pub inside : All (λ a. a < rom_end) seeds

keep-IsKept :
    (seen : ℕ → Bool) (seeds : List ℕ) (addr : ℕ)
    → IsKept seen seeds
    → addr < rom_end
    → seen addr ≡ false
    → IsKept (see seen addr) (seeds ++ addr ∷ [])
keep-IsKept seen seeds addr h below fresh = record {
  tracks = λ a. ground (arith, h.tracks a, one_of-append a addr seeds);
  apart =
      Pairs-append _ seeds addr h.apart (
        All-map _ _ (λ x e f. e (sym f)) seeds
          (All-other addr seeds (sym (h.tracks addr) ∙ fresh)));
  inside = All-append _ seeds (addr ∷ []) h.inside (below, tt);
}

abbrev pub Reads : List ℕ → List (List ℕ) → List ℕ → Type 0
Reads seeds lines result =
    Pairs (λ a b. b ≢ a) result
    × All (λ a. a < rom_end) result
    × ((a : ℕ) → one_of a result ≡ (one_of a seeds || (ltb a rom_end && is_named a lines)))

pub scan_nil : (seen : ℕ → Bool) (seeds : List ℕ) → scan_lines seen seeds [] ≡ seeds
unfolding scan_lines
scan_nil seen seeds = refl

named_nil : (s b : Bool) (a : ℕ) → s ≡ (s || (b && is_named a []))
unfolding is_named
named_nil true b a = refl
named_nil false true a = refl
named_nil false false a = refl

module _ (line : List ℕ) (lines : List (List ℕ)) (seen : ℕ → Bool) (seeds : List ℕ) where
  scan_unread :
      seed_of line ≡ none → scan_lines seen seeds (line ∷ lines) ≡ scan_lines seen seeds lines
  unfolding scan_lines
  scan_unread e = rw (e, scan_lines) refl

  pub scan_new :
      (addr : ℕ)
      → seed_of line ≡ some addr
      → (ltb addr rom_end && not (seen addr)) ≡ true
      → scan_lines seen seeds (line ∷ lines) ≡ scan_lines (see seen addr) (seeds ++ addr ∷ []) lines
  unfolding scan_lines
  scan_new addr e h = rw (e, h, scan_lines) refl

  pub scan_old :
      (addr : ℕ)
      → seed_of line ≡ some addr
      → (ltb addr rom_end && not (seen addr)) ≡ false
      → scan_lines seen seeds (line ∷ lines) ≡ scan_lines seen seeds lines
  unfolding scan_lines
  scan_old addr e h = rw (e, h, scan_lines) refl

  named_unread : (a : ℕ) → seed_of line ≡ none → is_named a (line ∷ lines) ≡ is_named a lines
  unfolding is_named
  named_unread a e = rw (e, is_named) refl

  named_read :
      (a addr : ℕ)
      → seed_of line ≡ some addr
      → is_named a (line ∷ lines) ≡ (a == addr || is_named a lines)
  unfolding is_named
  named_read a addr e = rw (e, is_named) refl

with_new :
    (a addr : ℕ) (s n : Bool)
    → addr < rom_end
    → ((s || a == addr) || (ltb a rom_end && n)) ≡ (s || (ltb a rom_end && (a == addr || n)))
with_new a addr s n h = ground arith

with_old :
    (a addr : ℕ) (s n : Bool)
    → (a ≡ addr → (ltb addr rom_end && not s) ≡ false)
    → (s || (ltb a rom_end && n)) ≡ (s || (ltb a rom_end && (a == addr || n)))
with_old a addr s n h = ground (arith, h)

scan_lines_lem :
    (lines : List (List ℕ)) (seen : ℕ → Bool) (seeds : List ℕ)
    → IsKept seen seeds
    → Reads seeds lines (scan_lines seen seeds lines)
scan_lines_lem [] seen seeds h =
    rw (scan_nil seen seeds) (h.apart, h.inside, λ a. named_nil (one_of a seeds) (ltb a rom_end) a)
scan_lines_lem (line ∷ lines) seen seeds h = elim (Option-cases (seed_of line)) [
  | inl unread ↦
      let (apart, inside, holds) = scan_lines_lem lines seen seeds h in
      rw (scan_unread line lines seen seeds unread)
        (apart, inside, λ a. rw (named_unread line lines seen seeds a unread) (holds a))
  | inr (addr, reads) ↦ elim (Bool-cases (ltb addr rom_end && not (seen addr))) [
    | inl new ↦
        let below : addr < rom_end = ground (arith, new) in
        let fresh : seen addr ≡ false = ground (arith, new) in
        let (apart, inside, holds) =
          scan_lines_lem lines (see seen addr) (seeds ++ addr ∷ [])
            (keep-IsKept seen seeds addr h below fresh) in
        rw (scan_new line lines seen seeds addr reads new) (
          apart,
          inside,
          λ a. rw (named_read line lines seen seeds a addr reads) (
              holds a
              ∙ ap (λ s. s || (ltb a rom_end && is_named a lines)) (one_of-append a addr seeds)
              ∙ with_new a addr (one_of a seeds) (is_named a lines) below),
        )
    | inr old ↦
        let (apart, inside, holds) = scan_lines_lem lines seen seeds h in
        rw (scan_old line lines seen seeds addr reads old) (
          apart,
          inside,
          λ a. rw (named_read line lines seen seeds a addr reads) (
              holds a
              ∙ with_old a addr (one_of a seeds) (is_named a lines) (λ same.
                ap (λ s. ltb addr rom_end && not s)
                  (ap (λ x. one_of x seeds) same ∙ sym (h.tracks addr))
                ∙ old)),
        )
  ]
]

-- For any lines of a profile, and whether or not the scanner ends with an error: the seeds that
-- readSeeds returns are distinct, all are below ROM_END, and an address below ROM_END is one of them
-- just where some line, without the space around it, reads as this address in base 16; the lines that
-- do not read as 16 bits are passed over. The error is the scanner's.
pub read_seeds_correct :
    {E : Type 0} (lines : List (List ℕ)) (err : Option E)
    → Reads [] lines (read_seeds (scanned lines err)).0 × ((read_seeds (scanned lines err)).1 ≡ err)
unfolding read_seeds
read_seeds_correct lines err = (
  scan_lines_lem lines (λ _. false) [] (record { tracks = λ a. refl; apart = tt; inside = tt }),
  refl,
)
