-- ===== src/Decoder/Encoding.antt =====
-- internal/decoder/decoder.go: the fields that an opcode and the bytes behind it encode.
use gbrc.Common.{ℕ, ◌+◌, ◌%◌, ◌^◌, bit_and, ◌==◌, if◌then◌else◌, List, [], ◌∷◌}
use gbrc.Rom.{Rom, read, merge_bytes}
use gbrc.Decoder.Types.{
  Reg8, reg8_b, reg8_c, reg8_d, reg8_e, reg8_h, reg8_l, reg8_hl_indirect, reg8_a,
}
use gbrc.Decoder.Types.{Reg16, reg16_bc, reg16_de, reg16_hl, reg16_sp}
use gbrc.Decoder.Types.{JumpCondition, nz, z, nc, c, jump_condition_unknown}

unfoldable pub reg8_from_encoding : ℕ → Reg8
reg8_from_encoding enc =
    let k = bit_and enc 0x07 in
    if k == 0
    then reg8_b
    else if k == 1
    then reg8_c
    else if k == 2
    then reg8_d
    else if k == 3
    then reg8_e
    else if k == 4
    then reg8_h
    else if k == 5
    then reg8_l
    else if k == 6
    then reg8_hl_indirect
    else reg8_a

unfoldable pub reg16_from_encoding : ℕ → Reg16
reg16_from_encoding enc =
    let k = bit_and enc 0x03 in
    if k == 0 then reg16_bc else if k == 1 then reg16_de else if k == 2 then reg16_hl else reg16_sp

-- The conversion `JumpCondition(n)`, in the order of the constants.
unfoldable pub jump_condition_of : ℕ → JumpCondition
jump_condition_of n =
    if n == 0
    then nz
    else if n == 1
    then z
    else if n == 2
    then nc
    else if n == 3
    then c
    else jump_condition_unknown

-- `addr + n` of two uint16.
unfoldable pub offset : ℕ → ℕ → ℕ
offset addr n = (addr + n) % 2 ^ 16

-- `d.rom.Read(addr + 1)`
unfoldable pub imm8 : Rom → ℕ → ℕ
unfolding offset
imm8 rom addr = read rom (offset addr 1)

-- `utils.MergeBytes(d.rom.Read(addr+1), d.rom.Read(addr+2))`
unfoldable pub imm16 : Rom → ℕ → ℕ
unfolding offset
imm16 rom addr = merge_bytes (read rom (offset addr 1)) (read rom (offset addr 2))

-- The targets of `RST`.
abbrev pub rst_targets : List ℕ
rst_targets = 0x00 ∷ 0x08 ∷ 0x10 ∷ 0x18 ∷ 0x20 ∷ 0x28 ∷ 0x30 ∷ 0x38 ∷ []
