-- ===== src/Rom/Tests.antt =====
-- The merge of two bytes at concrete values, and a small image.
use gbrc.Common.{◌+◌, ◌*◌, ◌≡◌, refl, [], ◌∷◌, arith}
use gbrc.Rom.{Rom, read, merge_bytes}
use gbrc.Rom.Merge.{merge_bytes-eq-add}
use gbrc.Rom.Image.{IsImage}

-- `XOR A`, then `DEC A` and `JR NZ` back to it, and `RET`.
abbrev pub loop_image : Rom
loop_image = record { bytes = 0xAF ∷ 0x3D ∷ 0x20 ∷ 0xFD ∷ 0xC9 ∷ [] }

pub loop_image-IsImage : IsImage loop_image
loop_image-IsImage = omega arith

read_outside : (read loop_image 3 ≡ 0xFD) × (read loop_image 5 ≡ 0)
unfolding read
read_outside = (refl, refl)

merge_bytes-eq-add_example : merge_bytes 0x50 0x01 ≡ 0x01 * 256 + 0x50
merge_bytes-eq-add_example = merge_bytes-eq-add 0x50 0x01 (omega arith) (omega arith)
