-- ===== src/Cmd/Seeds.antt =====
-- cmd/cmd.go, readSeeds: the lines of a profile as lists of code points, with TrimSpace and ParseUint
-- of Go's library for base 16 and 16 bits.
pub mod Laws
pub mod Dump
use gbrc.Common.{
  ℕ, ◌+◌, ◌-◌, ◌*◌, ltb, leb, ◌==◌, not, ◌&&◌, ◌||◌, Bool, true, false, if◌then◌else◌, Option, some,
  none, List, [], ◌∷◌, ◌++◌, one_of,
}
use gbrc.Analyzer.Types.{rom_end}

-- unicode.IsSpace
abbrev spaces : List ℕ
spaces = 0x20 ∷ 0x85 ∷ 0xA0 ∷ 0x1680 ∷ 0x2028 ∷ 0x2029 ∷ 0x202F ∷ 0x205F ∷ 0x3000 ∷ []

unfoldable pub is_space : ℕ → Bool
is_space c =
    if leb 9 c && leb c 13
    then true
    else if leb 0x2000 c && leb c 0x200A
    then true
    else one_of c spaces

abbrev pub trim_left : List ℕ → List ℕ
trim_left [] = []
trim_left (c ∷ cs) = if is_space c then trim_left cs else c ∷ cs

abbrev pub trim_right : List ℕ → List ℕ
trim_right [] = []
trim_right (c ∷ cs) = elim (trim_right cs) [
  | [] ↦ if is_space c then [] else c ∷ []
  | d ∷ ds ↦ c ∷ d ∷ ds
]

abbrev pub trim_space : List ℕ → List ℕ
trim_space cs = trim_right (trim_left cs)

unfoldable pub hex_digit : ℕ → Option ℕ
hex_digit c =
    if leb 0x30 c && leb c 0x39
    then some (c - 0x30)
    else if leb 0x41 c && leb c 0x46
    then some (c - 0x37)
    else if leb 0x61 c && leb c 0x66
    then some (c - 0x57)
    else none

-- A digit that is none, or a number above 16 bits, is an error.
abbrev pub parse_digits : ℕ → List ℕ → Option ℕ
parse_digits n [] = some n
parse_digits n (c ∷ cs) = elim (hex_digit c) [
  | none ↦ none
  | some d ↦
      let rest = parse_digits (n * 16 + d) cs in if ltb 0xFFFF (n * 16 + d) then none else rest
]

-- `strconv.ParseUint(…, 16, 16)`
abbrev pub parse_uint : List ℕ → Option ℕ
parse_uint [] = none
parse_uint (c ∷ cs) = parse_digits 0 (c ∷ cs)

unfoldable pub seed_of : List ℕ → Option ℕ
seed_of line = parse_uint (trim_space line)

abbrev pub see : (ℕ → Bool) → ℕ → ℕ → Bool
see seen addr a = if a == addr then true else seen a

-- The loop over the scanner's lines.
unfoldable pub scan_lines : (ℕ → Bool) → List ℕ → List (List ℕ) → List ℕ
scan_lines seen seeds [] = seeds
scan_lines seen seeds (line ∷ lines) = elim (seed_of line) [
  | none ↦ scan_lines seen seeds lines
  | some addr ↦ elim (ltb addr rom_end && not (seen addr)) [
    | true ↦ scan_lines (see seen addr) (seeds ++ addr ∷ []) lines
    | false ↦ scan_lines seen seeds lines
  ]
]

-- `os.Open` and the scanner: an error, or the lines and the error at the end of them, if any.
pub data Opened (E : Type 0) : Type 0 where
  not_opened : E → Opened E
  scanned : List (List ℕ) → Option E → Opened E

unfoldable pub read_seeds : {E : Type 0} → Opened E → List ℕ × Option E
unfolding scan_lines
read_seeds (not_opened err) = ([], some err)
read_seeds (scanned lines err) = (scan_lines (λ _. false) [] lines, err)
