-- ===== src/Rom/Merge.antt =====
-- `MergeBytes` puts the low byte first: it is positional notation, and loses nothing.
use gbrc.Common.{ℕ, ◌+◌, ◌*◌, ◌<◌, ◌≡◌, refl, List, table, table_ext}
use gbrc.Rom.{merge_bytes}

abbrev merged_row : ℕ → List ℕ
merged_row high = table 256 (λ low. merge_bytes low high)

abbrev sum_row : ℕ → List ℕ
sum_row high = table 256 (λ low. high * 256 + low)

merge_table : table 256 merged_row ≡ table 256 sum_row
unfolding merge_bytes
merge_table = refl

-- For two bytes, MergeBytes is `high * 256 + low`.
pub merge_bytes-eq-add :
    (low high : ℕ) → low < 256 → high < 256 → merge_bytes low high ≡ high * 256 + low
merge_bytes-eq-add low high hl hh =
    table_ext 256 (λ l. merge_bytes l high) (λ l. high * 256 + l) low
      (table_ext 256 merged_row sum_row high merge_table hh) hl
