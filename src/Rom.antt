-- ===== src/Rom.antt =====
-- internal/rom/rom.go and internal/utils/utils.go: the ROM image and the merge of two bytes.
pub mod Merge
pub mod Image
pub mod Tests
use gbrc.Common.{
  ℕ, ◌*◌, ◌%◌, ◌^◌, bit_or, List, Option, none, some, length, get_or, leb, if◌then◌else◌,
}

-- The bytes that were read from the file.
pub record Rom : Type 0 where
  pub bytes : List ℕ

-- What Parse makes of the result of `os.ReadFile`.
abbrev pub parse : Option (List ℕ) → Option Rom
parse none = none
parse (some data_read) = some (record { bytes = data_read })

-- A read past the end of the image gives 0. The default of `get_or` is behind the same test.
unfoldable pub read : Rom → ℕ → ℕ
read r addr = if leb (length r.bytes) addr then 0 else get_or r.bytes addr 0

-- `uint16(high)<<8 | uint16(low)`
unfoldable pub merge_bytes : ℕ → ℕ → ℕ
merge_bytes low high = bit_or (high * 2 ^ 8 % 2 ^ 16) low
