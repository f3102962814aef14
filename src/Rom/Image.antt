-- ===== src/Rom/Image.antt =====
-- Images of bytes: what `Read` returns is a byte.
use gbrc.Common.{ℕ, zero, suc, ◌<◌, List, [], ◌∷◌, get_or, arith}
use gbrc.Rom.{Rom, read}

abbrev pub AllBytes : List ℕ → Type 0
AllBytes [] = Unit
AllBytes (x ∷ xs) = (x < 256) × AllBytes xs

abbrev pub IsImage : Rom → Type 0
IsImage r = AllBytes r.bytes

get_or-lt : (xs : List ℕ) (i : ℕ) → AllBytes xs → get_or xs i 0 < 256
get_or-lt [] i h = omega arith
get_or-lt (x ∷ xs) zero h = h.0
get_or-lt (x ∷ xs) (suc i) h = get_or-lt xs i h.1

pub read-lt : (r : Rom) (addr : ℕ) → IsImage r → read r addr < 256
unfolding read
read-lt r addr h = ground (arith, get_or-lt r.bytes addr h)
