-- ===== src/Decoder/Every.antt =====
-- A fact about every instruction that is decoded, from one computed table for each of the two decoders.
use gbrc.Common.{ℕ, ◌≡◌, ◌==◌, Run, table, table_ext, Bool-cases, inl, inr}
use gbrc.Rom.{Rom, read}
use gbrc.Rom.Image.{IsImage, read-lt}
use gbrc.Decoder.Types.{Instruction}
use gbrc.Decoder.Encoding.{offset}
use gbrc.Decoder.Switch.{decode_opcode}
use gbrc.Decoder.Cb.{decode_cb_prefixed_opcode}
use gbrc.Decoder.Cache.{decode_fresh}

module _ {ℓ} {A : Type ℓ} (rom : Rom) (addr : ℕ) (f g : Run Instruction → A) where
  -- What agrees at all opcodes and all prefixed opcodes agrees at what is decoded from an image.
  pub decode_fresh_ext :
      IsImage rom
      → table 256 (λ op. f (decode_opcode rom op addr))
        ≡ table 256 (λ op. g (decode_opcode rom op addr))
      → table 256 (λ op. f (decode_cb_prefixed_opcode op addr))
        ≡ table 256 (λ op. g (decode_cb_prefixed_opcode op addr))
      → f (decode_fresh rom addr) ≡ g (decode_fresh rom addr)
  unfolding decode_fresh
  decode_fresh_ext image plain prefixed = elim (Bool-cases (read rom addr == 0xCB)) [
    | inl prefix ↦ rw prefix (
        table_ext 256 (λ op. f (decode_cb_prefixed_opcode op addr))
          (λ op. g (decode_cb_prefixed_opcode op addr)) (read rom (offset addr 1)) prefixed
          (read-lt rom (offset addr 1) image))
    | inr other ↦ rw other (
        table_ext 256 (λ op. f (decode_opcode rom op addr)) (λ op. g (decode_opcode rom op addr))
          (read rom addr) plain (read-lt rom addr image))
  ]
