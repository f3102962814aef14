-- ===== src/Analyzer/Collect/Total.antt =====
-- collectBlock returns, and what it returns is a block of the ROM.
use gbrc.Common.{
  ℕ, zero, suc, ◌+◌, ◌≤◌, ◌<◌, ◌≡◌, refl, false, ◌&&◌, ◌||◌, not, ltb, ltb-false, ltb→lt, ltb_of_le,
  ◌==◌, ==_iff, some, none, [], ◌∷◌, done, arith, Bool-cases, inl, inr, lt→ltb,
}
use gbrc.Rom.{Rom}
use gbrc.Rom.Image.{IsImage}
use gbrc.Decoder.Cache.{Decoder}
use gbrc.Decoder.Fetch.{IsDecoded-of_fresh}
use gbrc.Decoder.Cache.Laws.{IsConsistent, decode_at-IsConsistent}
use gbrc.Analyzer.Types.{rom_end, Owners, Starts, sub16}
use gbrc.Analyzer.Arrays.{is_owned}
use gbrc.Analyzer.Collect.{
  Scan, Collected, Round, returns, continues, result, place, round, collect_loop, collect_block,
  first_scan,
}
use gbrc.Analyzer.Collect.Invariant.{IsScan, IsCollected, early-IsCollected, past_end-IsCollected}
use gbrc.Analyzer.Collect.Step.{GoodRound, place-GoodRound}

module _ (rom : Rom) (image : IsImage rom) (starts : Starts) (me start : ℕ) (base : Owners)
    (inside : start < rom_end) (free : base start ≡ none) where
  abbrev Good : Scan → Type 0
  Good v = IsScan rom me start base v

  -- Behind the guard of the loop, the byte at `addr` is nobody's.
  guarded :
      (v : Scan)
      → Good v
      → (not (v.addr == start) && (is_owned (v.owned_by v.addr) || starts v.addr)) ≡ false
      → v.owned_by v.addr ≡ none
  guarded v h e = elim (Bool-cases (v.addr == start)) [
    | inl here ↦ let e' = (==_iff v.addr start).0 here in ground (arith, h.owned v.addr)
    | inr away ↦ ground arith
  ]

  round_returns :
      (v : Scan)
      → Good v
      → v.addr < rom_end
      → (r : Round) × (round starts me start v ≡ done r)
        × GoodRound rom starts me start base v.addr r
  unfolding round
  round_returns v h below =
      elim (Bool-cases (not (v.addr == start) && (is_owned (v.owned_by v.addr) || starts v.addr))) [
        | inl stop ↦ (
          returns (
              result v
                (some (record (v.block) { end = sub16 v.addr 1; successors = v.addr ∷ [] }))),
          rw stop,
          early-IsCollected rom me start base v h below (λ e'. ground (arith, stop)),
        )
        | inr go ↦
            let (instr, d, hit, fresh, same) =
              decode_at-IsConsistent rom v.decoder v.addr image h.consistent in
            let v' = record v { decoder = d } in
            let h' : Good v' = record {
              consistent = same;
              starts_at = h.starts_at;
              chain = h.chain;
              plain = h.plain;
              open_end = h.open_end;
              ends = h.ends;
              owned = h.owned;
              free = h.free;
            } in
            (
              place starts me v' instr,
              rw (go, hit),
              place-GoodRound rom starts me start base v' instr h' below fresh
                  (IsDecoded-of_fresh rom v.addr image instr fresh) (guarded v h go),
            )
      ]

  abbrev Returns : ℕ → Scan → Type 0
  Returns fuel v =
      (c : Collected) × (collect_loop starts me start fuel v ≡ done c)
      × IsCollected rom me start base c

  after_round :
      (fuel : ℕ) (v : Scan) (r : Round)
      → v.addr < rom_end
      → round starts me start v ≡ done r
      → GoodRound rom starts me start base v.addr r
      → rom_end ≤ v.addr + suc fuel
      → ((v' : Scan) → Good v' → rom_end ≤ v'.addr + fuel → Returns fuel v')
      → Returns (suc fuel) v
  unfolding collect_loop
  after_round fuel v (returns c) below e good enough next = (c, rw (lt→ltb _ _ below, e), good)
  after_round fuel v (continues v') below e good enough next =
      let (c, e', collected) = next v' good.0 (omega (arith, good.1)) in
      (c, rw (lt→ltb _ _ below, e, e'), collected)

  loop_outside : (fuel : ℕ) (v : Scan) → Good v → rom_end ≤ v.addr → Returns fuel v
  unfolding collect_loop
  loop_outside zero v h outside = (
    result v (some v.block),
    rw (ltb_of_le v.addr rom_end outside),
    past_end-IsCollected rom me start base v h inside outside,
  )
  loop_outside (suc fuel) v h outside = (
    result v (some v.block),
    rw (ltb_of_le v.addr rom_end outside),
    past_end-IsCollected rom me start base v h inside outside,
  )

  loop-Returns : (fuel : ℕ) (v : Scan) → Good v → rom_end ≤ v.addr + fuel → Returns fuel v
  loop-Returns zero v h enough = loop_outside zero v h (omega arith)
  loop-Returns (suc fuel) v h enough = elim (Bool-cases (ltb v.addr rom_end)) [
    | inl below ↦
        let (r, e, good) = round_returns v h (ltb→lt _ _ below) in
        after_round fuel v r (ltb→lt _ _ below) e good enough (loop-Returns fuel)
    | inr outside ↦ loop_outside (suc fuel) v h (ltb-false _ _ outside)
  ]

  -- For an image, at an address in the ROM that nobody owns and with a consistent decoder,
  -- collectBlock returns. The decoder stays consistent, and collectBlock gives either nil, with
  -- ownedBy unchanged, or a well-formed block of the ROM that starts at the address; the block's
  -- bytes were nobody's, now belong to it, and nothing else of ownedBy changed.
  pub collect_block_returns :
      (decoder : Decoder)
      → IsConsistent rom decoder
      → (c : Collected) × (collect_block decoder base starts me start ≡ done c)
        × IsCollected rom me start base c
  unfolding collect_block
  collect_block_returns decoder same =
      loop-Returns rom_end (first_scan decoder base start)
        (record {
          consistent = same;
          starts_at = refl;
          chain = refl;
          plain = tt;
          open_end = refl;
          ends = λ ne. absurd (ne refl);
          owned = λ a. ground arith;
          free = λ a low high below. absurd (omega arith);
        })
        (omega arith)
