-- ===== src/Decoder/Tests.antt =====
-- The decoder at concrete bytes.
use gbrc.Common.{◌≡◌, refl, [], ◌∷◌, done, ◌>>=◌, some}
use gbrc.Rom.{read}
use gbrc.Rom.Tests.{loop_image, loop_image-IsImage}
use gbrc.Decoder.Types.{Instruction}
use gbrc.Decoder.Encoding.{imm8}
use gbrc.Decoder.Switch.{decode_opcode}
use gbrc.Decoder.Cb.{decode_cb_prefixed_opcode}
use gbrc.Decoder.Encode.{encode}
use gbrc.Decoder.Cache.{new, decode_fresh}
use gbrc.Decoder.Cache.Laws.{decode_each, decode_each_fresh, decode_each-eq-fresh, new-IsConsistent}
use gbrc.Decoder.Fetch.{IsDecoded, decode_fresh-IsDecoded}

relative_jump : (decode_fresh loop_image 2 >>= λ i. done i.mnemonic) ≡ done "JR NZ,e"
unfolding decode_fresh decode_opcode read
relative_jump = refl

bit_test : (decode_cb_prefixed_opcode 0x5E 0 >>= λ i. done i.mnemonic) ≡ done "BIT 3, (HL)"
unfolding decode_cb_prefixed_opcode
bit_test = refl

jump_bytes : (decode_fresh loop_image 2 >>= λ i. done (encode i)) ≡ done (some (0x20 ∷ 0xFD ∷ []))
unfolding decode_fresh decode_opcode read encode imm8
jump_bytes = refl

decode_fresh-IsDecoded_example :
    (i : Instruction) × (decode_fresh loop_image 2 ≡ done i) × IsDecoded loop_image 2 i
decode_fresh-IsDecoded_example = decode_fresh-IsDecoded loop_image 2 loop_image-IsImage

decode_each-eq-fresh_example :
    decode_each (new loop_image) (0 ∷ 1 ∷ 0 ∷ []) ≡ decode_each_fresh loop_image (0 ∷ 1 ∷ 0 ∷ [])
decode_each-eq-fresh_example =
    decode_each-eq-fresh loop_image (new loop_image) (0 ∷ 1 ∷ 0 ∷ []) loop_image-IsImage
      (new-IsConsistent loop_image)
