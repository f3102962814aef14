-- ===== src/Analyzer/Collect.antt =====
-- internal/analyzer/analyzer.go, collectBlock.
pub mod Invariant
pub mod Step
pub mod Total
use gbrc.Common.{
  ℕ, zero, suc, ◌-◌, not, ◌&&◌, ◌||◌, ltb, leb, ◌==◌, if◌then◌else◌, Option, none, some, [], ◌∷◌,
  ◌++◌, Run, done, List, out_of_fuel, ◌>>=◌,
}
use gbrc.Decoder.Types.{Instruction}
use gbrc.Decoder.Facts.{is_unknown}
use gbrc.Decoder.Cache.{Decoder, decode_at}
use gbrc.Analyzer.Types.{Block, rom_end, Owners, Starts, sub16, add16}
use gbrc.Analyzer.Flow.{is_block_terminator, find_successors}
use gbrc.Analyzer.Arrays.{is_owned, claim_bytes, spans_known_start}

-- The loop's variables: the cache, `ownedBy`, the block so far and the address.
pub record Scan : Type 0 where
  pub decoder : Decoder
  pub owned_by : Owners
  pub block : Block
  pub addr : ℕ

-- The result and what the call leaves behind; `none` is nil.
pub record Collected : Type 0 where
  pub decoder : Decoder
  pub owned_by : Owners
  pub found : Option Block

-- One round either returns or goes on.
pub data Round : Type 0 where
  returns : Collected → Round
  continues : Scan → Round

abbrev pub result : Scan → Option Block → Collected
result v b = record { decoder = v.decoder; owned_by = v.owned_by; found = b }

-- Where no instruction can be taken: nil for an empty block, else the block ends here.
pub stop_by : List Instruction → Scan → Collected
stop_by [] v = result v none
stop_by (_ ∷ _) v = result v (some (record (v.block) { successors = v.addr ∷ [] }))

unfoldable pub stop_here : Scan → Collected
unfolding stop_by
stop_here v = stop_by v.block.instructions v

-- The last byte of the instruction, clamped to the ROM.
abbrev pub last_byte : ℕ → ℕ → ℕ
last_byte addr length =
    let end = sub16 (add16 addr length) 1 in if leb rom_end end then rom_end - 1 else end

-- The block with the instruction appended and its bytes claimed.
unfoldable pub take_instruction : ℕ → Scan → Instruction → Scan
take_instruction me v instr =
    let end = last_byte v.addr instr.length in
    record v {
      block = record v.block { instructions = v.block.instructions ++ instr ∷ []; end = end };
      owned_by = claim_bytes v.owned_by me v.addr end;
    }

-- The round from the decoded instruction on.
unfoldable pub place : Starts → ℕ → Scan → Instruction → Round
place starts me v instr =
    if is_unknown instr.instruction_type || instr.length == 0
    then returns (stop_here v)
    else if spans_known_start v.owned_by starts v.addr (last_byte v.addr instr.length)
    then returns (stop_here v)
    else let v' = take_instruction me v instr in
      if is_block_terminator instr
      then returns
          (result v' (some (record (v'.block) { successors = find_successors v.addr instr })))
      else continues (record v' { addr = add16 v.addr instr.length })

-- The body of the loop, below ROM_END.
unfoldable pub round : Starts → ℕ → ℕ → Scan → Run Round
round starts me start v =
    if not (v.addr == start) && (is_owned (v.owned_by v.addr) || starts v.addr)
    then done (
        returns
          (result v (some (record (v.block) { end = sub16 v.addr 1; successors = v.addr ∷ [] }))))
    else (decode_at v.decoder v.addr >>= λ (instr, d).
        done (place starts me (record v { decoder = d }) instr))

pub collect_loop : Starts → ℕ → ℕ → ℕ → Scan → Run Collected
collect_loop starts me start zero v =
    if ltb v.addr rom_end then out_of_fuel else done (result v (some v.block))
collect_loop starts me start (suc fuel) v =
    let rest = round starts me start v >>= λ r. elim r [
      | returns c ↦ done c
      | continues v' ↦ collect_loop starts me start fuel v'
    ] in
    if ltb v.addr rom_end then rest else done (result v (some v.block))

-- The variables before the first round.
abbrev pub first_scan : Decoder → Owners → ℕ → Scan
first_scan decoder owned start = record {
  decoder = decoder;
  owned_by = owned;
  block = record { start = start; end = 0; instructions = []; successors = [] };
  addr = start;
}

-- An instruction is at least a byte long, so ROM_END rounds are enough.
unfoldable pub collect_block : Decoder → Owners → Starts → ℕ → ℕ → Run Collected
unfolding collect_loop round place stop_here take_instruction
collect_block decoder owned starts me start =
    collect_loop starts me start rom_end (first_scan decoder owned start)
