-- ===== src/Analyzer/Collect/Invariant.antt =====
-- What the loop of collectBlock keeps, and what the call returns.
use gbrc.Common.{
  ℕ, min, ◌+◌, ◌≤◌, ◌<◌, ◌≡◌, ◌≢◌, refl, ◌&&◌, ltb, leb, if◌then◌else◌, Option, some, none, List,
  [], ◌∷◌, arith, inl, inr, sym, ap, subst, ◌∙◌, List-cases, lt→ltb,
}
use gbrc.Rom.{Rom}
use gbrc.Decoder.Types.{Instruction}
use gbrc.Decoder.Cache.Laws.{IsConsistent}
use gbrc.Analyzer.Types.{Block, rom_end, Owners, sub16}
use gbrc.Analyzer.Chain.{Chain, Plain, IsBlock, flow-Plain, Straight-of_Plain, Chain-le}
use gbrc.Analyzer.Collect.{Scan, Collected, result, stop_by, stop_here}

module _ (rom : Rom) (me start : ℕ) (base : Owners) where
  -- The loop's invariant: the block so far runs from `start` up to `addr`, and owns those bytes,
  -- which nobody owned before.
  pub record IsScan (v : Scan) : Type 0 where
    pub consistent : IsConsistent rom v.decoder
    pub starts_at : v.block.start ≡ start
    pub chain : Chain rom start v.block.instructions v.addr
    pub plain : Plain v.block.instructions
    pub open_end : v.block.successors ≡ []
    pub ends : v.block.instructions ≢ [] → v.block.end + 1 ≡ min v.addr rom_end
    pub owned :
        (a : ℕ)
        → v.owned_by a
          ≡ (if leb start a && (ltb a v.addr && ltb a rom_end) then some me else base a)
    pub free : (a : ℕ) → start ≤ a → a < v.addr → a < rom_end → base a ≡ none

  -- The result: nothing is claimed for nil, and else a block from `start` that owns its bytes,
  -- which nobody owned before.
  pub record IsFound (owned : Owners) (b : Block) : Type 0 where
    pub starts_at : b.start ≡ start
    pub block : IsBlock rom b
    pub owns : (a : ℕ) → owned a ≡ (if leb start a && leb a b.end then some me else base a)
    pub free : (a : ℕ) → start ≤ a → a ≤ b.end → base a ≡ none

  abbrev pub Found : Owners → Option Block → Type 0
  Found owned none = (a : ℕ) → owned a ≡ base a
  Found owned (some b) = IsFound owned b

  pub record IsCollected (c : Collected) : Type 0 where
    pub consistent : IsConsistent rom c.decoder
    pub outcome : Found c.owned_by c.found

  -- A block that ends before `addr` with no terminator.
  ended :
      (v : Scan) (end : ℕ) (successors : List ℕ)
      → IsScan v
      → v.block.instructions ≢ []
      → end + 1 ≡ min v.addr rom_end
      → successors ≡ (if ltb v.addr rom_end then v.addr ∷ [] else [])
      → IsFound v.owned_by (record (v.block) { end = end; successors = successors })
  ended v end successors h ne ee ef =
      let from_start =
        subst (λ x. Chain rom x v.block.instructions v.addr) (sym h.starts_at) h.chain in
      record {
        starts_at = h.starts_at;
        block = record {
          stop = v.addr;
          chain = from_start;
          straight = Straight-of_Plain v.block.instructions h.plain;
          nonempty = ne;
          ends = ee;
          follows = ef ∙ sym (flow-Plain v.addr v.block.instructions h.plain ne);
        };
        owns = λ a. ground (arith, h.owned a);
        free = λ a low high. h.free a low (omega arith) (omega arith);
      }

  empty_scan : (v : Scan) → IsScan v → v.block.instructions ≡ [] → (a : ℕ) → v.owned_by a ≡ base a
  empty_scan v h empty a =
      let here : start ≡ v.addr = subst (λ is. Chain rom start is v.addr) empty h.chain in
      ground (arith, h.owned a)

  stop_here_empty : (v : Scan) → v.block.instructions ≡ [] → stop_here v ≡ result v none
  unfolding stop_here
  stop_here_empty v e = ap (λ is. stop_by is v) e

  stop_by_nonempty :
      (is : List Instruction) (v : Scan)
      → is ≢ []
      → stop_by is v ≡ result v (some (record (v.block) { successors = v.addr ∷ [] }))
  unfolding stop_by
  stop_by_nonempty [] v ne = absurd (ne refl)
  stop_by_nonempty (_ ∷ _) v ne = refl

  stop_here_nonempty :
      (v : Scan)
      → v.block.instructions ≢ []
      → stop_here v ≡ result v (some (record (v.block) { successors = v.addr ∷ [] }))
  unfolding stop_here
  stop_here_nonempty v ne = stop_by_nonempty v.block.instructions v ne

  -- Where no instruction is taken at an address inside the ROM.
  pub stop_here-IsCollected : (v : Scan) → IsScan v → v.addr < rom_end → IsCollected (stop_here v)
  stop_here-IsCollected v h inside = elim (List-cases v.block.instructions) [
    | inl empty ↦
        rw (stop_here_empty v empty)
          (record { consistent = h.consistent; outcome = empty_scan v h empty })
    | inr (i, is, e) ↦
        let ne : v.block.instructions ≢ [] = λ q. cc in
        rw (stop_here_nonempty v ne) (record {
          consistent = h.consistent;
          outcome = ended v v.block.end (v.addr ∷ []) h ne (h.ends ne) (rw (lt→ltb _ _ inside));
        })
  ]

  -- The exit at a byte that another block owns or is to start at.
  pub early-IsCollected :
      (v : Scan)
      → IsScan v
      → v.addr < rom_end
      → v.addr ≢ start
      → IsCollected
          (result v (some (record (v.block) { end = sub16 v.addr 1; successors = v.addr ∷ [] })))
  early-IsCollected v h inside away =
      let ne : v.block.instructions ≢ [] =
        λ empty. away (sym (subst (λ is. Chain rom start is v.addr) empty h.chain)) in
      let low = Chain-le rom start v.block.instructions v.addr h.chain in
      record {
        consistent = h.consistent;
        outcome =
            ended v (sub16 v.addr 1) (v.addr ∷ []) h ne (omega arith) (rw (lt→ltb _ _ inside));
      }

  -- The exit behind the ROM's end.
  pub past_end-IsCollected :
      (v : Scan)
      → IsScan v
      → start < rom_end
      → rom_end ≤ v.addr
      → IsCollected (result v (some v.block))
  past_end-IsCollected v h inside outside =
      let ne : v.block.instructions ≢ [] =
        λ empty. let here = subst (λ is. Chain rom start is v.addr) empty h.chain in omega arith in
      record {
        consistent = h.consistent;
        outcome =
            ended v v.block.end v.block.successors h ne (h.ends ne) (h.open_end ∙ ground arith);
      }
