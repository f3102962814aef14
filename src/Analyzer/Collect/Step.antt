-- ===== src/Analyzer/Collect/Step.antt =====
-- One round of the loop of collectBlock, and the whole loop.
use gbrc.Common.{
  ℕ, min, ◌+◌, ◌≤◌, ◌<◌, ◌≡◌, refl, true, false, ◌&&◌, ◌||◌, ltb, leb, ◌==◌, if◌then◌else◌, some,
  none, [], ◌∷◌, ◌++◌, done, arith, ℕ_discrete, Bool-cases, inl, inr, sym, ap, subst, ◌∙◌,
}
use gbrc.Rom.{Rom}
use gbrc.Decoder.Types.{Instruction}
use gbrc.Decoder.Facts.{is_unknown}
use gbrc.Decoder.Cache.{decode_fresh}
use gbrc.Decoder.Fetch.{IsDecoded, length_fits_known}
use gbrc.Decoder.Cache.Laws.{IsConsistent}
use gbrc.Analyzer.Types.{rom_end, Owners, Starts, add16}
use gbrc.Analyzer.Flow.{is_block_terminator, find_successors}
use gbrc.Analyzer.Arrays.{spans_known_start}
use gbrc.Analyzer.Arrays.Laws.{claim_bytes-eq, spans_known_start-false}
use gbrc.Analyzer.Chain.{
  Sits, Chain, Plain, Straight, flow_terminator, last?, last?-append, Chain-append, Plain-append,
  Straight-append, Chain-le,
}
use gbrc.Analyzer.Collect.{
  Scan, Round, returns, continues, result, take_instruction, place, last_byte,
}
use gbrc.Analyzer.Collect.Invariant.{IsScan, IsCollected, stop_here-IsCollected}

last_byte-eq :
    (addr length : ℕ)
    → addr < rom_end
    → 0 < length
    → length < 4
    → last_byte addr length + 1 ≡ min (addr + length) rom_end
last_byte-eq addr length inside long short = ground arith

module _ (rom : Rom) (starts : Starts) (me start : ℕ) (base : Owners) where
  -- What holds once an instruction has been taken at `v.addr`.
  record IsTaken (v : Scan) (instr : Instruction) (v' : Scan) : Type 0 where
    consistent : IsConsistent rom v'.decoder
    starts_at : v'.block.start ≡ start
    open_end : v'.block.successors ≡ []
    instructions : v'.block.instructions ≡ v.block.instructions ++ instr ∷ []
    chain : Chain rom start v'.block.instructions (v.addr + instr.length)
    ends : v'.block.end + 1 ≡ min (v.addr + instr.length) rom_end
    owned :
        (a : ℕ)
        → v'.owned_by a ≡ (
            if leb start a && (ltb a (v.addr + instr.length) && ltb a rom_end)
            then some me
            else base a)
    free : (a : ℕ) → start ≤ a → a < v.addr + instr.length → a < rom_end → base a ≡ none

  unowned :
      (v : Scan) (instr : Instruction)
      → Sits rom v.addr instr
      → v.owned_by v.addr ≡ none
      → spans_known_start v.owned_by starts v.addr (last_byte v.addr instr.length) ≡ false
      → (a : ℕ) → v.addr ≤ a
      → a < v.addr + instr.length
      → a < rom_end
      → v.owned_by a ≡ none
  unowned v instr s mine clear a low high inside =
      let last = last_byte v.addr instr.length in
      let end = last_byte-eq v.addr instr.length s.inside s.long s.short in
      elim (ℕ_discrete v.addr a) [
        | yes same ↦ subst (λ b. v.owned_by b ≡ none) same mine
        | no apart ↦
            spans_known_start-false v.owned_by starts v.addr last a clear (omega arith)
              (omega arith) inside
      ]

  take-IsTaken :
      (v : Scan) (instr : Instruction)
      → IsScan rom me start base v
      → Sits rom v.addr instr
      → v.owned_by v.addr ≡ none
      → spans_known_start v.owned_by starts v.addr (last_byte v.addr instr.length) ≡ false
      → IsTaken v instr (take_instruction me v instr)
  unfolding take_instruction
  take-IsTaken v instr h s mine clear =
      let end = last_byte-eq v.addr instr.length s.inside s.long s.short in
      let low = Chain-le rom start v.block.instructions v.addr h.chain in
      record {
        consistent = h.consistent;
        starts_at = h.starts_at;
        open_end = h.open_end;
        instructions = refl;
        chain = Chain-append rom start v.block.instructions v.addr instr h.chain s;
        ends = end;
        owned = λ a. ground (
          arith,
          claim_bytes-eq v.owned_by me v.addr (last_byte v.addr instr.length) a,
          h.owned a,
        );
        free = λ a below above inside.
            ground (arith, h.free a, h.owned a, unowned v instr s mine clear a);
      }

  abbrev pub GoodRound : ℕ → Round → Type 0
  GoodRound addr (returns c) = IsCollected rom me start base c
  GoodRound addr (continues v) = IsScan rom me start base v × (addr < v.addr)

  -- A terminator ends the block with its own successors.
  terminated :
      (v : Scan) (instr : Instruction) (v' : Scan)
      → IsScan rom me start base v
      → IsTaken v instr v'
      → instr.address ≡ v.addr
      → is_block_terminator instr ≡ true
      → IsCollected rom me start base
          (result v' (some (record (v'.block) { successors = find_successors v.addr instr })))
  terminated v instr v' h t at e =
      let last = ap last? t.instructions ∙ last?-append v.block.instructions instr in
      let wanted = flow_terminator (v.addr + instr.length) instr e in
      record {
        consistent = t.consistent;
        outcome = record {
          starts_at = t.starts_at;
          block = record {
            stop = v.addr + instr.length;
            chain =
                subst (λ x. Chain rom x v'.block.instructions (v.addr + instr.length))
                  (sym t.starts_at) t.chain;
            straight =
                subst Straight (sym t.instructions)
                  (Straight-append v.block.instructions instr h.plain);
            nonempty = λ q. cc (last, ap last? q);
            ends = t.ends;
            follows = rw last (ap (λ x. find_successors x instr) (sym at) ∙ sym wanted);
          };
          owns = λ a. ground (arith, t.owned a, t.ends);
          free = λ a low high. t.free a low (omega (arith, t.ends)) (omega (arith, t.ends));
        };
      }

  continued :
      (v : Scan) (instr : Instruction) (v' : Scan)
      → IsScan rom me start base v
      → IsTaken v instr v'
      → Sits rom v.addr instr
      → is_block_terminator instr ≡ false
      → IsScan rom me start base (record v' { addr = add16 v.addr instr.length })
        × (v.addr < add16 v.addr instr.length)
  continued v instr v' h t s e =
      let next : add16 v.addr instr.length ≡ v.addr + instr.length =
        omega (arith, s.inside, s.short) in
      (
        record {
          consistent = t.consistent;
          starts_at = t.starts_at;
          open_end = t.open_end;
          chain = rw next t.chain;
          plain =
              subst Plain (sym t.instructions) (Plain-append v.block.instructions instr h.plain e);
          ends = λ _. rw next t.ends;
          owned = λ a. rw next (t.owned a);
          free = λ a low high inside. t.free a low (rw next at high) inside;
        },
        omega (arith, s.inside, s.short, s.long),
      )

  -- The decoded instruction, as the two tests of the code see it.
  known-Sits :
      (v : Scan) (instr : Instruction)
      → v.addr < rom_end
      → decode_fresh rom v.addr ≡ done instr
      → IsDecoded rom v.addr instr
      → (is_unknown instr.instruction_type || instr.length == 0) ≡ false
      → Sits rom v.addr instr
  known-Sits v instr inside e d seen =
      let known : is_unknown instr.instruction_type ≡ false = ground arith in
      let (long, short) = length_fits_known instr known d.fits in
      record { inside = inside; decoded = e; at = d.at; known = known; long = long; short = short }

  pub place-GoodRound :
      (v : Scan) (instr : Instruction)
      → IsScan rom me start base v
      → v.addr < rom_end
      → decode_fresh rom v.addr ≡ done instr
      → IsDecoded rom v.addr instr
      → v.owned_by v.addr ≡ none
      → GoodRound v.addr (place starts me v instr)
  unfolding place
  place-GoodRound v instr h inside e d mine =
      elim (Bool-cases (is_unknown instr.instruction_type || instr.length == 0)) [
        | inl bad ↦ rw (bad, place) (stop_here-IsCollected rom me start base v h inside)
        | inr good ↦
            let sits = known-Sits v instr inside e d good in
            elim (Bool-cases
              (spans_known_start v.owned_by starts v.addr (last_byte v.addr instr.length))) [
                | inl spanned ↦
                    rw (good, spanned) (stop_here-IsCollected rom me start base v h inside)
                | inr clear ↦
                    let taken = take-IsTaken v instr h sits mine clear in
                    elim (Bool-cases (is_block_terminator instr)) [
                      | inl jumps ↦
                          rw (good, clear, jumps)
                            (terminated v instr (take_instruction me v instr) h taken d.at jumps)
                      | inr runs ↦
                          rw (good, clear, runs)
                            (continued v instr (take_instruction me v instr) h taken sits runs)
                    ]
              ]
      ]
