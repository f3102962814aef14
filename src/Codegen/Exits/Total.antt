-- ===== src/Codegen/Exits/Total.antt =====
-- Every terminator that is decoded has a code without an error.
use gbrc.Common.{
  ℕ, ◌≡◌, refl, subst, Bool, true, false, if◌then◌else◌, Option, some, none, List, [], Run, done,
  panic, out_of_fuel, table,
}
use gbrc.Rom.{Rom}
use gbrc.Rom.Image.{IsImage}
use gbrc.Decoder.Types.{Instruction}
use gbrc.Decoder.Switch.{decode_opcode}
use gbrc.Decoder.Cb.{decode_cb_prefixed_opcode}
use gbrc.Decoder.Cache.{decode_fresh}
use gbrc.Decoder.Every.{decode_fresh_ext}
use gbrc.Analyzer.Flow.{is_block_terminator}
use gbrc.Codegen.Ir.{Inst}
use gbrc.Codegen.Exits.{Exit, join_terminator}

abbrev is_some : Option (Exit × List Inst) → Bool
is_some none = false
is_some (some _) = true

abbrev has_exit : Run Instruction → Bool
has_exit (done i) =
    if is_block_terminator i then is_some (join_terminator i.instruction_type i []) else true
has_exit panic = true
has_exit out_of_fuel = true

some_of_is_some :
    (o : Option (Exit × List Inst)) → is_some o ≡ true → (t : Exit × List Inst) × (o ≡ some t)
some_of_is_some none e = cc
some_of_is_some (some t) e = (t, refl)

module _ (rom : Rom) (addr : ℕ) where
  exits-plain : table 256 (λ op. has_exit (decode_opcode rom op addr)) ≡ table 256 (λ op. true)
  unfolding decode_opcode is_block_terminator
  exits-plain = refl

  exits-prefixed :
      table 256 (λ op. has_exit (decode_cb_prefixed_opcode op addr)) ≡ table 256 (λ op. true)
  unfolding decode_cb_prefixed_opcode is_block_terminator
  exits-prefixed = refl

  pub terminator_has_exit :
      (i : Instruction)
      → IsImage rom
      → decode_fresh rom addr ≡ done i
      → is_block_terminator i ≡ true
      → (t : Exit × List Inst) × (join_terminator i.instruction_type i [] ≡ some t)
  terminator_has_exit i image decoded h =
      let e : has_exit (done i) ≡ true =
        subst (λ r. has_exit r ≡ true) decoded
          (decode_fresh_ext rom addr has_exit (λ _. true) image exits-plain exits-prefixed) in
      some_of_is_some _ (rw h at e)
