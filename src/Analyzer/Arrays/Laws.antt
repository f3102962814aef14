-- ===== src/Analyzer/Arrays/Laws.antt =====
-- The counted loops over `ownedBy` and `blockStart`, pointwise.
use gbrc.Common.{
  ℕ, zero, suc, ◌+◌, ◌-◌, ◌≤◌, ◌<◌, ◌≡◌, Bool, false, ◌&&◌, ltb, leb, if◌then◌else◌, Option, some,
  none, arith, ℕ_discrete,
}
use gbrc.Analyzer.Types.{Block, rom_end, Owners, Starts}
use gbrc.Analyzer.Arrays.{store, fill, claim_bytes, spans, spans_known_start, cut_owners}

-- Whether an index is one of `from … to`, in the array.
abbrev pub within : ℕ → ℕ → ℕ → Bool
within from to a = leb from a && (leb a to && ltb a rom_end)

fill-eq :
    (rounds i to : ℕ) (v : Option ℕ) (owned : Owners) (a : ℕ)
    → i + rounds ≡ to + 1
    → fill rounds i to v owned a ≡ (if within i to a then v else owned a)
unfolding fill
fill-eq zero i to v owned a h = ground arith
fill-eq (suc rounds) i to v owned a h =
    ground (arith, fill-eq rounds (i + 1) to v (store owned i v) a)

-- For `from` at most `to + 1`, claimBytes sets exactly the indices from `from` to `to` that are
-- inside the array to the block, and leaves every other index as it was.
pub claim_bytes-eq :
    (owned : Owners) (block from to a : ℕ)
    → from ≤ to + 1
    → claim_bytes owned block from to a ≡ (if within from to a then some block else owned a)
unfolding claim_bytes
claim_bytes-eq owned block from to a h =
    fill-eq (to + 1 - from) from to (some block) owned a (omega arith)

pub cut_owners-eq :
    (owned : Owners) (block : Block) (addr a : ℕ)
    → addr ≤ block.end + 1
    → cut_owners owned block addr a ≡ (if within addr block.end a then none else owned a)
unfolding cut_owners
cut_owners-eq owned block addr a h =
    fill-eq (block.end + 1 - addr) addr block.end none owned a (omega arith)

spans-false :
    (rounds i : ℕ) (owned : Owners) (starts : Starts) (a : ℕ)
    → spans rounds i owned starts ≡ false
    → i ≤ a
    → a < i + rounds
    → a < rom_end
    → owned a ≡ none
unfolding spans
spans-false zero i owned starts a h low high bound = absurd (omega arith)
spans-false (suc rounds) i owned starts a h low high bound = elim (ℕ_discrete i a) [
  | yes e ↦ rw (← e) (ground arith)
  | no ne ↦ ground (arith, spans-false rounds (i + 1) owned starts a)
]

-- If spansKnownStart answers false, then no index above `from`, at most `to` and inside the array
-- is owned by a block.
pub spans_known_start-false :
    (owned : Owners) (starts : Starts) (from to a : ℕ)
    → spans_known_start owned starts from to ≡ false
    → from < a
    → a ≤ to
    → a < rom_end
    → owned a ≡ none
unfolding spans_known_start
spans_known_start-false owned starts from to a h low high bound =
    spans-false (to - from) (from + 1) owned starts a h (omega arith) (omega arith) bound
