-- ===== src/Analyzer/Ownership.antt =====
-- The slice `ownedBy` against the list of blocks: each byte of a block is owned by that block, and
-- no other byte by any. Collecting a block and cutting one keep this.
use gbrc.Common.{
  ℕ, ◌+◌, ◌≤◌, ◌<◌, ◌≡◌, ◌≢◌, true, false, ◌&&◌, leb, some, none, List, [], ◌∷◌, ◌++◌, arith,
  ℕ_discrete, Bool-cases, inl, inr, sym, subst, ◌∙◌, lt→ltb, length, get_elem?, set,
  get_elem?-append, get_elem?-set, append_cases, set_cases, lt-length_of_get_elem?,
}
use gbrc.Rom.{Rom}
use gbrc.Analyzer.Types.{Block, Owners}
use gbrc.Analyzer.Arrays.{truncate, is_instruction_boundary, cut_owners, cut_block}
use gbrc.Analyzer.Arrays.Laws.{within, cut_owners-eq}
use gbrc.Analyzer.Chain.{IsBlock, Straight-of_Plain, flow-Plain}
use gbrc.Analyzer.Chain.Cut.{truncate-IsCut}
use gbrc.Analyzer.Collect.Invariant.{IsFound}

abbrev pub Holds : Block → ℕ → Type 0
Holds b a = (b.start ≤ a) × (a ≤ b.end)

module _ (rom : Rom) where
  pub record Owning (owned : Owners) (blocks : List Block) : Type 0 where
    pub good : (p : ℕ) (b : Block) → get_elem? blocks p ≡ some b → IsBlock rom b
    pub owns :
        (p : ℕ) (b : Block) → get_elem? blocks p ≡ some b → (a : ℕ) → Holds b a → owned a ≡ some p
    pub owner :
        (a p : ℕ) → owned a ≡ some p → (b : Block) × (get_elem? blocks p ≡ some b) × Holds b a

  -- A collected block is appended under the pointer that it claimed its bytes by.
  pub append-Owning :
      (owned owned' : Owners) (blocks : List Block) (start : ℕ) (b : Block)
      → Owning owned blocks
      → IsFound rom (length blocks) start owned owned' b
      → Owning owned' (blocks ++ b ∷ [])
  append-Owning owned owned' blocks start b h f = record {
    good = λ p c e. elim (append_cases blocks b p c e) [
      | inl (_, same) ↦ subst (IsBlock rom) same f.block
      | inr (_, old) ↦ h.good p c old
    ];
    owns = λ p c e a i. elim (append_cases blocks b p c e) [
      | inl (last, same) ↦
          let i' = subst (λ x. Holds x a) (sym same) i in ground (arith, f.owns a, f.starts_at)
      | inr (_, old) ↦ ground (arith, f.owns a, f.free a, h.owns p c old a i)
    ];
    owner = λ a p e. elim (Bool-cases (leb start a && leb a b.end)) [
      | inl new ↦
          let last : p ≡ length blocks = ground (arith, f.owns a) in
          (
            b,
            ground (arith, get_elem?-append blocks b p),
            (ground (arith, f.starts_at), ground arith),
          )
      | inr not_new ↦
          let (c, get, holds) = h.owner a p (ground (arith, f.owns a)) in
          (
            c,
            ground (arith, get_elem?-append blocks b p, lt-length_of_get_elem? blocks p c get),
            holds,
          )
    ];
  }

  -- The part of a block before a boundary inside it is a block.
  cut_block-IsBlock :
      (b : Block) (addr : ℕ)
      → IsBlock rom b
      → is_instruction_boundary b addr ≡ true
      → b.start ≢ addr
      → IsBlock rom (cut_block b addr) × (b.start < addr) × (addr ≤ b.end)
  unfolding is_instruction_boundary cut_block
  cut_block-IsBlock b addr h bound ne =
      let cut = truncate-IsCut rom addr h.stop b.start b.instructions h.chain h.straight bound ne in
      (
        record {
          stop = addr;
          chain = cut.chain;
          straight = Straight-of_Plain (truncate addr b.instructions) cut.plain;
          nonempty = cut.nonempty;
          ends = omega (arith, cut.before, cut.inside);
          follows = sym (
              flow-Plain addr (truncate addr b.instructions) cut.plain cut.nonempty
              ∙ rw (lt→ltb _ _ cut.inside));
        },
        cut.before,
        omega (arith, cut.below, cut.inside, h.ends),
      )

  kept_owner :
      (owned : Owners) (b : Block) (addr a q : ℕ)
      → addr ≤ b.end + 1
      → cut_owners owned b addr a ≡ some q
      → (within addr b.end a ≡ false) × (owned a ≡ some q)
  kept_owner owned b addr a q h e = ground (arith, cut_owners-eq owned b addr a)

  -- Cutting leaves the bytes before the boundary with the block, and frees the others.
  pub cut-Owning :
      (owned : Owners) (blocks : List Block) (p : ℕ) (b : Block) (addr : ℕ)
      → Owning owned blocks
      → get_elem? blocks p ≡ some b
      → is_instruction_boundary b addr ≡ true
      → b.start ≢ addr
      → Owning (cut_owners owned b addr) (set blocks p (cut_block b addr))
        × (cut_owners owned b addr addr ≡ none)
  unfolding cut_block
  cut-Owning owned blocks p b addr h get bound ne =
      let (block, before, inside) = cut_block-IsBlock b addr (h.good p b get) bound ne in
      let freed = λ (a : ℕ). cut_owners-eq owned b addr a (omega arith) in
      let old_end = (h.good p b get).ends in
      let in_range = lt-length_of_get_elem? blocks p b get in
      (
        record {
          good = λ q c e. elim (set_cases blocks p q (cut_block b addr) c in_range e) [
            | inl (_, same) ↦ subst (IsBlock rom) same block
            | inr (_, old) ↦ h.good q c old
          ];
          owns = λ q c e a i. elim (set_cases blocks p q (cut_block b addr) c in_range e) [
            | inl (here, same) ↦
                let i' = subst (λ x. Holds x a) (sym same) i in
                let mine = h.owns p b get a (i'.0, omega arith) in ground (arith, freed a)
            | inr (other, old) ↦ ground (arith, freed a, h.owns q c old a i, h.owns p b get a)
          ];
          owner = λ a q e.
              let (kept, still) = kept_owner owned b addr a q (omega arith) e in
              let (c, found, holds) = h.owner a q still in
              elim (ℕ_discrete q p) [
                | yes same ↦
                    let this : c ≡ b = cc in
                    let holds' = subst (λ x. Holds x a) this holds in
                    (
                      cut_block b addr,
                      ground (arith, get_elem?-set blocks p q (cut_block b addr)),
                      (holds'.0, ground (arith, old_end)),
                    )
                | no other ↦ (c, ground (arith, get_elem?-set blocks p q (cut_block b addr)), holds)
              ];
        },
        ground (arith, freed addr, old_end),
      )
