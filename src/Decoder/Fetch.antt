-- ===== src/Decoder/Fetch.antt =====
-- Decoding behind the cache: it always succeeds, knows the illegal opcodes, and can be undone.
use gbrc.Common.{
  ℕ, zero, suc, ◌/◌, ◌%◌, ◌<◌, ◌≡◌, refl, subst, ap, ◌∙◌, Bool, true, false, ◌==◌, if◌then◌else◌,
  Bool-cases, ==_iff, none, some, List, [], ◌∷◌, Run, done, panic, out_of_fuel, arith, inl, inr,
}
use gbrc.Rom.{Rom, read}
use gbrc.Rom.Image.{IsImage, read-lt}
use gbrc.Rom.Merge.{merge_bytes-eq-add}
use gbrc.Decoder.Types.{Instruction}
use gbrc.Decoder.Encoding.{offset, imm8, imm16}
use gbrc.Decoder.Switch.{decode_opcode}
use gbrc.Decoder.Cb.{decode_cb_prefixed_opcode}
use gbrc.Decoder.Cache.{decode_fresh}
use gbrc.Decoder.Encode.{encode}
use gbrc.Decoder.Facts.{
  is_listed, is_done, is_unknown, tail_bytes, length_fits, Summary, seen-eq-meant, seen-eq-meant_cb,
  is_done-decode_opcode, is_done-decode_cb,
}

-- The bytes of the ROM from an address on.
abbrev pub bytes_at : Rom → ℕ → ℕ → List ℕ
bytes_at rom addr zero = []
bytes_at rom addr (suc n) = read rom addr ∷ bytes_at rom (offset addr 1) n

-- No instruction starts with this byte.
unfoldable pub is_illegal : ℕ → Bool
unfolding is_listed
is_illegal byte = if byte == 0xCB then false else is_listed byte

is_illegal_plain : (byte : ℕ) → (byte == 0xCB) ≡ false → is_illegal byte ≡ is_listed byte
unfolding is_illegal
is_illegal_plain byte h = rw h

is_illegal_prefix : (byte : ℕ) → (byte == 0xCB) ≡ true → is_illegal byte ≡ false
unfolding is_illegal
is_illegal_prefix byte h = rw h

-- What is known of an instruction that was decoded at an address.
pub record IsDecoded (rom : Rom) (addr : ℕ) (i : Instruction) : Type 0 where
  pub at : i.address ≡ addr
  pub unknown_type : is_unknown i.instruction_type ≡ is_illegal (read rom addr)
  pub fits : length_fits i ≡ true
  pub bytes :
      encode i ≡ (if is_illegal (read rom addr) then none else some (bytes_at rom addr i.length))

offset_twice : (addr : ℕ) → offset (offset addr 1) 1 ≡ offset addr 2
unfolding offset
offset_twice addr = omega arith

module _ (rom : Rom) (addr : ℕ) (image : IsImage rom) where
  merged :
      (imm16 rom addr % 256 ≡ read rom (offset addr 1))
      × (imm16 rom addr / 256 ≡ read rom (offset addr 2))
  unfolding imm16
  merged =
      let low = read-lt rom (offset addr 1) image in
      let high = read-lt rom (offset addr 2) image in
      let sum = merge_bytes-eq-add (read rom (offset addr 1)) (read rom (offset addr 2)) low high in
      (omega (arith, sum), omega (arith, sum))

  tail_bytes-eq :
      (n : ℕ)
      → 0 < n
      → n < 4
      → read rom addr ∷ tail_bytes n (imm8 rom addr) (imm16 rom addr) ≡ bytes_at rom addr n
  unfolding imm8
  tail_bytes-eq zero h k = absurd (omega arith)
  tail_bytes-eq (suc zero) h k = refl
  tail_bytes-eq (suc (suc zero)) h k = refl
  tail_bytes-eq (suc (suc (suc zero))) h k = rw (merged.0, merged.1, offset_twice addr)
  tail_bytes-eq (suc (suc (suc (suc n)))) h k = absurd (omega arith)

-- Both switches return for every byte.
Run-done : {r : Run Instruction} → is_done r ≡ true → (i : Instruction) × (r ≡ done i)
Run-done {r} h = go r h
  where
    go : (r : Run Instruction) → is_done r ≡ true → (i : Instruction) × (r ≡ done i)
    go (done i) e = (i, refl)
    go panic e = cc
    go out_of_fuel e = cc

pub length_fits_known :
    (i : Instruction)
    → is_unknown i.instruction_type ≡ false
    → length_fits i ≡ true
    → (0 < i.length) × (i.length < 4)
length_fits_known i k h = ground arith

-- Equal results are equal in each part of the summary.
same_summary :
    (s t : Summary)
    → ◌≡◌ {A = Run Summary} (done s) (done t)
    → (s.at ≡ t.at)
      × (s.unknown_type ≡ t.unknown_type)
      × (s.fits ≡ t.fits)
      × (s.size ≡ t.size)
      × (s.bytes ≡ t.bytes)
same_summary s t e = (
  ap (λ x. x.at) p,
  ap (λ x. x.unknown_type) p,
  ap (λ x. x.fits) p,
  ap (λ x. x.size) p,
  ap (λ x. x.bytes) p,
)
  where
    value : Run Summary → Summary
    value (done x) = x
    value _ = s

    p : s ≡ t
    p = ap value e

module _ (rom : Rom) (addr : ℕ) (image : IsImage rom) where
  decode_opcode-IsDecoded :
      (i : Instruction)
      → (read rom addr == 0xCB) ≡ false
      → decode_opcode rom (read rom addr) addr ≡ done i
      → IsDecoded rom addr i
  decode_opcode-IsDecoded i plain e =
      let table = seen-eq-meant rom addr (read rom addr) (read-lt rom addr image) in
      let (at, type, fits, size, bytes) = same_summary _ _ (rw e at table) in
      let legality = is_illegal_plain (read rom addr) plain in
      record {
        at = at;
        unknown_type = rw legality type;
        fits = fits;
        bytes = elim (Bool-cases (is_listed (read rom addr))) [
          | inl bad ↦ rw (legality, bad) (rw bad at bytes)
          | inr good ↦
              let (low, high) = length_fits_known i (rw good at type) fits in
              rw (legality, good, ← tail_bytes-eq rom addr image i.length low high)
                (rw good at bytes)
        ];
      }

  decode_cb-IsDecoded :
      (i : Instruction)
      → (read rom addr == 0xCB) ≡ true
      → decode_cb_prefixed_opcode (read rom (offset addr 1)) addr ≡ done i
      → IsDecoded rom addr i
  decode_cb-IsDecoded i prefix e =
      let second = read-lt rom (offset addr 1) image in
      let table = seen-eq-meant_cb addr (read rom (offset addr 1)) second in
      let (at, type, fits, size, bytes) = same_summary _ _ (rw e at table) in
      let legality = is_illegal_prefix (read rom addr) prefix in
      record {
        at = at;
        unknown_type = rw legality type;
        fits = fits;
        bytes = rw legality (bytes ∙ rw (size, (==_iff _ _).0 prefix));
      }

  -- For every image and address, decoding with nothing cached returns an instruction with that
  -- address, which is unknown exactly on the eleven bytes that are not opcodes. Otherwise it is one
  -- to three bytes long, and assembling its kind and fields, with an operand of the size of the kind,
  -- gives the bytes of the ROM at the address back, as many as its length.
  pub decode_fresh-IsDecoded :
      (i : Instruction) × (decode_fresh rom addr ≡ done i) × IsDecoded rom addr i
  unfolding decode_fresh
  decode_fresh-IsDecoded = elim (Bool-cases (read rom addr == 0xCB)) [
    | inl prefix ↦
        let (i, e) =
          Run-done (
            is_done-decode_cb addr (read rom (offset addr 1))
              (read-lt rom (offset addr 1) image)) in
        (i, rw prefix e, decode_cb-IsDecoded i prefix e)
    | inr plain ↦
        let (i, e) =
          Run-done (is_done-decode_opcode rom addr (read rom addr) (read-lt rom addr image)) in
        (i, rw plain e, decode_opcode-IsDecoded i plain e)
  ]

  -- Whatever decoding returned has these properties.
  pub IsDecoded-of_fresh : (i : Instruction) → decode_fresh rom addr ≡ done i → IsDecoded rom addr i
  IsDecoded-of_fresh i e =
      let (i', e', d) = decode_fresh-IsDecoded in
      let same : i' ≡ i = cc in subst (IsDecoded rom addr) same d
