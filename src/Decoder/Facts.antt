-- ===== src/Decoder/Facts.antt =====
-- What the two switches yield, for all 256 bytes and every ROM: each table computes both sides at
-- each opcode, with the address and the bytes behind the opcode left unknown.
use gbrc.Common.{
  ℕ, zero, suc, ◌%◌, ◌/◌, ◌<◌, ◌≡◌, refl, Bool, true, false, ltb, one_of, if◌then◌else◌, Option,
  none, some, List, [], ◌∷◌, Run, done, ◌>>=◌, table, table_ext,
}
use gbrc.Rom.{Rom}
use gbrc.Decoder.Types.{Instruction, InstructionType, unknown}
use gbrc.Decoder.Encoding.{imm8, imm16}
use gbrc.Decoder.Switch.{decode_opcode}
use gbrc.Decoder.Cb.{decode_cb_prefixed_opcode}
use gbrc.Decoder.Encode.{encode}

-- The eleven opcodes that the processor lacks, and the prefix, which DecodeAt takes away.
abbrev illegal_opcodes : List ℕ
illegal_opcodes =
    0xD3 ∷ 0xDB ∷ 0xDD ∷ 0xE3 ∷ 0xE4 ∷ 0xEB ∷ 0xEC ∷ 0xED ∷ 0xF4 ∷ 0xFC ∷ 0xFD ∷ 0xCB ∷ []

unfoldable pub is_listed : ℕ → Bool
is_listed op = one_of op illegal_opcodes

abbrev pub is_unknown : InstructionType → Bool
is_unknown unknown = true
is_unknown _ = false

-- The bytes behind an opcode, from the first of them and the two merged.
abbrev pub tail_bytes : ℕ → ℕ → ℕ → List ℕ
tail_bytes (suc (suc zero)) x y = x ∷ []
tail_bytes (suc (suc (suc zero))) x y = y % 256 ∷ y / 256 ∷ []
tail_bytes _ x y = []

-- A known instruction is 1 to 3 bytes long, an unknown one is left with length 0.
abbrev pub length_fits : Instruction → Bool
length_fits i =
    if is_unknown i.instruction_type
    then ltb i.length 1
    else (if ltb 0 i.length then ltb i.length 4 else false)

-- Forgets the instruction but for one fact of it.
pub record Summary : Type 0 where
  pub at : ℕ
  pub unknown_type : Bool
  pub fits : Bool
  pub size : ℕ
  pub bytes : Option (List ℕ)

abbrev pub summary : Instruction → Summary
summary i = record {
  at = i.address;
  unknown_type = is_unknown i.instruction_type;
  fits = length_fits i;
  size = i.length;
  bytes = encode i;
}

abbrev pub is_done : Run Instruction → Bool
is_done (done _) = true
is_done _ = false

module _ (rom : Rom) (addr : ℕ) where
  abbrev pub seen_opcode : ℕ → Run Summary
  seen_opcode op = decode_opcode rom op addr >>= λ i. done (summary i)

  abbrev pub meant_opcode : ℕ → Run Summary
  meant_opcode op = decode_opcode rom op addr >>= λ i. done (record {
    at = addr;
    unknown_type = is_listed op;
    fits = true;
    size = i.length;
    bytes =
        if is_listed op
        then none
        else some (op ∷ tail_bytes i.length (imm8 rom addr) (imm16 rom addr));
  })

  opcode_table : table 256 seen_opcode ≡ table 256 meant_opcode
  unfolding decode_opcode encode is_listed
  opcode_table = refl

  pub seen-eq-meant : (op : ℕ) → op < 256 → seen_opcode op ≡ meant_opcode op
  seen-eq-meant op h = table_ext 256 seen_opcode meant_opcode op opcode_table h

  done_table : table 256 (λ op. is_done (decode_opcode rom op addr)) ≡ table 256 (λ _. true)
  unfolding decode_opcode
  done_table = refl

  pub is_done-decode_opcode : (op : ℕ) → op < 256 → is_done (decode_opcode rom op addr) ≡ true
  is_done-decode_opcode op h =
      table_ext 256 (λ o. is_done (decode_opcode rom o addr)) (λ _. true) op done_table h

-- Every prefixed instruction is known, two bytes long, and assembles to its bytes.
abbrev pub seen_cb : ℕ → ℕ → Run Summary
seen_cb addr op = decode_cb_prefixed_opcode op addr >>= λ i. done (summary i)

abbrev pub meant_cb : ℕ → ℕ → Run Summary
meant_cb addr op = done (record {
  at = addr;
  unknown_type = false;
  fits = true;
  size = 2;
  bytes = some (0xCB ∷ op ∷ []);
})

cb_table : (addr : ℕ) → table 256 (seen_cb addr) ≡ table 256 (meant_cb addr)
unfolding decode_cb_prefixed_opcode encode
cb_table addr = refl

pub seen-eq-meant_cb : (addr op : ℕ) → op < 256 → seen_cb addr op ≡ meant_cb addr op
seen-eq-meant_cb addr op h = table_ext 256 (seen_cb addr) (meant_cb addr) op (cb_table addr) h

cb_done_table :
    (addr : ℕ)
    → table 256 (λ op. is_done (decode_cb_prefixed_opcode op addr)) ≡ table 256 (λ _. true)
unfolding decode_cb_prefixed_opcode
cb_done_table addr = refl

pub is_done-decode_cb :
    (addr op : ℕ) → op < 256 → is_done (decode_cb_prefixed_opcode op addr) ≡ true
is_done-decode_cb addr op h =
    table_ext 256 (λ o. is_done (decode_cb_prefixed_opcode o addr)) (λ _. true) op
      (cb_done_table addr) h
