-- ===== src/Decoder/Text.antt =====
-- internal/decoder/decoder.go, the String methods, and the two formats of `fmt` that it uses.
use Prim.Native.String.{String, ◌++◌}
use gbrc.Common.{ℕ, ◌/◌, ◌%◌, ltb, if◌then◌else◌, [], ◌∷◌, get_or, List, Run, done, panic}
use gbrc.Decoder.Types.{
  Reg8, reg8_unknown, reg8_b, reg8_c, reg8_d, reg8_e, reg8_h, reg8_l, reg8_hl_indirect, reg8_a,
}
use gbrc.Decoder.Types.{Reg16, reg16_unknown, reg16_bc, reg16_de, reg16_hl, reg16_sp, reg16_af}
use gbrc.Decoder.Types.{JumpCondition, nz, z, nc, c, jump_condition_unknown}

-- The zero value is not one of the cases, and panics.
unfoldable pub reg8_string : Reg8 → Run String
reg8_string reg8_b = done "B"
reg8_string reg8_c = done "C"
reg8_string reg8_d = done "D"
reg8_string reg8_e = done "E"
reg8_string reg8_h = done "H"
reg8_string reg8_l = done "L"
reg8_string reg8_hl_indirect = done "HL"
reg8_string reg8_a = done "A"
reg8_string reg8_unknown = panic

unfoldable pub reg16_string : Reg16 → Run String
reg16_string reg16_bc = done "BC"
reg16_string reg16_de = done "DE"
reg16_string reg16_hl = done "HL"
reg16_string reg16_sp = done "SP"
reg16_string reg16_af = done "AF"
reg16_string reg16_unknown = panic

unfoldable pub jump_condition_string : JumpCondition → String
jump_condition_string nz = "NZ"
jump_condition_string z = "Z"
jump_condition_string nc = "NC"
jump_condition_string c = "C"
jump_condition_string jump_condition_unknown = "??"

abbrev digit_texts : List String
digit_texts =
    "0" ∷ "1" ∷ "2" ∷ "3" ∷ "4" ∷ "5" ∷ "6" ∷ "7" ∷ "8" ∷ "9" ∷ "A" ∷ "B" ∷ "C" ∷ "D" ∷ "E" ∷ "F"
    ∷ []

digit_text : ℕ → String
digit_text n = get_or digit_texts n ""

-- `%d` on a uint8.
unfoldable pub decimal : ℕ → String
unfolding digit_text
decimal n =
    if ltb n 10
    then digit_text n
    else if ltb n 100
    then digit_text (n / 10) ++ digit_text (n % 10)
    else digit_text (n / 100) ++ (digit_text (n / 10 % 10) ++ digit_text (n % 10))

-- `%02X` on a uint16.
unfoldable pub upper_hex : ℕ → String
unfolding digit_text
upper_hex n =
    let low = digit_text (n / 16 % 16) ++ digit_text (n % 16) in
    if ltb n 256
    then low
    else if ltb n 4096
    then digit_text (n / 256) ++ low
    else digit_text (n / 4096) ++ (digit_text (n / 256 % 16) ++ low)
