-- ===== src/Cmd/Seeds/Dump.antt =====
-- readSeeds reads back what the runtime's profile writes.
use gbrc.Common.{
  ◌^◌, ℕ, ◌+◌, ◌*◌, ◌/◌, ◌%◌, ◌<◌, ◌≡◌, ◌≢◌, inl, inr, refl, sym, ap, ◌∙◌, arith, Bool, true, false,
  ltb, ◌==◌, not, ◌&&◌, if◌then◌else◌, Bool-cases, some, none, List, [], ◌∷◌, ◌++◌, map, All, Pairs,
  table, table_ext,
}
use mathlib.Core.List.{append-nil, append_assoc}
use gbrc.Analyzer.Types.{rom_end}
use gbrc.Cmd.Seeds.{
  is_space, hex_digit, seed_of, see, scan_lines, scanned, read_seeds, trim_right, trim_space,
  parse_digits,
}
use gbrc.Cmd.Seeds.Laws.{scan_nil, scan_new, scan_old}

-- runtime/src/profile.c, profile_dump: `%04X`, a line for each address.
abbrev pub upper_digit : ℕ → ℕ
upper_digit d = if ltb d 10 then d + 0x30 else d + 0x37

abbrev pub dump_line : ℕ → List ℕ
dump_line a =
    upper_digit (a / 4096 % 16)
    ∷ upper_digit (a / 256 % 16)
    ∷ upper_digit (a / 16 % 16)
    ∷ upper_digit (a % 16)
    ∷ []

abbrev pub in_rom : List ℕ → List ℕ
in_rom [] = []
in_rom (a ∷ rest_of) = let rest = in_rom rest_of in if ltb a rom_end then a ∷ rest else rest

digits_read : table 16 (λ d. hex_digit (upper_digit d)) ≡ table 16 some
unfolding hex_digit
digits_read = refl

digits_stay : table 16 (λ d. is_space (upper_digit d)) ≡ table 16 (λ d. false)
unfolding is_space
digits_stay = refl

digit-some : (d : ℕ) → d < 16 → hex_digit (upper_digit d) ≡ some d
digit-some d h = table_ext 16 (λ d. hex_digit (upper_digit d)) some d digits_read h

digit-false : (d : ℕ) → d < 16 → is_space (upper_digit d) ≡ false
digit-false d h = table_ext 16 (λ d. is_space (upper_digit d)) (λ d. false) d digits_stay h

abbrev NoSpace : List ℕ → Type 0
NoSpace = All (λ c. is_space c ≡ false)

trim_right-eq : (cs : List ℕ) → NoSpace cs → trim_right cs ≡ cs
trim_right-eq [] h = refl
trim_right-eq (c ∷ []) h = rw h.0 refl
trim_right-eq (c ∷ (d ∷ ds)) h = rw (trim_right-eq (d ∷ ds) h.1) refl

trim_space-eq : (c : ℕ) (cs : List ℕ) → NoSpace (c ∷ cs) → trim_space (c ∷ cs) ≡ c ∷ cs
trim_space-eq c cs h = rw h.0 (trim_right-eq (c ∷ cs) h)

parse_digit :
    (n c d : ℕ) (cs : List ℕ)
    → hex_digit c ≡ some d
    → n * 16 + d < 2 ^ 16
    → parse_digits n (c ∷ cs) ≡ parse_digits (n * 16 + d) cs
parse_digit n c d cs e h =
    let fits : ltb 0xFFFF (n * 16 + d) ≡ false = ground arith in rw (e, fits, parse_digits) refl

-- Four digits, without a space and below 16 bits.
digits-some :
    (c d e f x y z w : ℕ)
    → is_space c ≡ false
    → is_space d ≡ false
    → is_space e ≡ false
    → is_space f ≡ false
    → hex_digit c ≡ some x
    → hex_digit d ≡ some y
    → hex_digit e ≡ some z
    → hex_digit f ≡ some w
    → ((x * 16 + y) * 16 + z) * 16 + w < 2 ^ 16
    → seed_of (c ∷ d ∷ e ∷ f ∷ []) ≡ some (((x * 16 + y) * 16 + z) * 16 + w)
unfolding seed_of
digits-some c d e f x y z w hc hd he hf rc rd re rf small =
    let first : 0 * 16 + x ≡ x = omega arith in
    rw (trim_space-eq c (d ∷ e ∷ f ∷ []) (hc, (hd, (he, (hf, tt))))) (
      parse_digit 0 c x (d ∷ e ∷ f ∷ []) rc (omega arith)
      ∙ ap (λ n. parse_digits n (d ∷ e ∷ f ∷ [])) first
      ∙ parse_digit x d y (e ∷ f ∷ []) rd (omega arith)
      ∙ parse_digit (x * 16 + y) e z (f ∷ []) re (omega arith)
      ∙ parse_digit ((x * 16 + y) * 16 + z) f w [] rf small)

dump-some : (a : ℕ) → a < 2 ^ 16 → seed_of (dump_line a) ≡ some a
dump-some a h =
    digits-some (upper_digit (a / 4096 % 16)) (upper_digit (a / 256 % 16))
      (upper_digit (a / 16 % 16)) (upper_digit (a % 16)) (a / 4096 % 16) (a / 256 % 16)
      (a / 16 % 16) (a % 16) (digit-false _ (omega arith)) (digit-false _ (omega arith))
      (digit-false _ (omega arith)) (digit-false _ (omega arith)) (digit-some _ (omega arith))
      (digit-some _ (omega arith)) (digit-some _ (omega arith)) (digit-some _ (omega arith))
      (omega arith)
    ∙ ap some (omega arith)

All-of : {P : ℕ → Type 0} → ((a : ℕ) → P a) → (xs : List ℕ) → All P xs
All-of f [] = tt
All-of f (x ∷ xs) = (f x, All-of f xs)

abbrev Unseen : (ℕ → Bool) → List ℕ → Type 0
Unseen seen = All (λ a. seen a ≡ false)

see-Unseen :
    (seen : ℕ → Bool) (a : ℕ) (rest : List ℕ)
    → All (λ b. b ≢ a) rest
    → Unseen seen rest
    → Unseen (see seen a) rest
see-Unseen seen a [] apart h = tt
see-Unseen seen a (b ∷ bs) apart h =
    let other : (b == a) ≡ false = ground (arith, apart.0) in
    (rw other h.0, see-Unseen seen a bs apart.1 h.1)

scan_dump :
    (addresses : List ℕ) (seen : ℕ → Bool) (seeds : List ℕ)
    → All (λ a. a < 2 ^ 16) addresses
    → Pairs (λ a b. b ≢ a) addresses
    → Unseen seen addresses
    → scan_lines seen seeds (map dump_line addresses) ≡ seeds ++ in_rom addresses
scan_dump [] seen seeds small apart new = scan_nil seen seeds ∙ sym (append-nil seeds)
scan_dump (a ∷ rest) seen seeds small apart new =
    let reads = dump-some a small.0 in
    elim (Bool-cases (ltb a rom_end)) [
      | inl inside ↦
          let test : (ltb a rom_end && not (seen a)) ≡ true = rw (inside, new.0) refl in
          scan_new (dump_line a) (map dump_line rest) seen seeds a reads test
          ∙ scan_dump rest (see seen a) (seeds ++ a ∷ []) small.1 apart.1
              (see-Unseen seen a rest apart.0 new.1)
          ∙ append_assoc seeds (a ∷ []) (in_rom rest)
          ∙ rw inside refl
      | inr outside ↦
          let test : (ltb a rom_end && not (seen a)) ≡ false = rw outside refl in
          scan_old (dump_line a) (map dump_line rest) seen seeds a reads test
          ∙ scan_dump rest seen seeds small.1 apart.1 new.1
          ∙ rw outside refl
    ]

-- For any distinct addresses of 16 bits, readSeeds on the lines that the runtime's profile_dump
-- writes for them returns exactly those below ROM_END, in their order, without an error.
pub read_seeds_dump :
    (addresses : List ℕ)
    → All (λ a. a < 2 ^ 16) addresses
    → Pairs (λ a b. b ≢ a) addresses
    → read_seeds {E = Unit} (scanned (map dump_line addresses) none) ≡ (in_rom addresses, none)
unfolding read_seeds
read_seeds_dump addresses small apart =
    rw (scan_dump addresses (λ _. false) [] small apart (All-of (λ a. refl) addresses)) refl
