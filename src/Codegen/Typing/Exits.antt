-- ===== src/Codegen/Typing/Exits.antt =====
-- The typing of what joinBlocks builds for the terminators.
use gbrc.Common.{
  ℕ, ◌+◌, ◌%◌, ◌^◌, ◌<◌, ◌≡◌, refl, sym, subst, arith, Bool, true, false, ltb, ◌==◌, ◌&&◌,
  if◌then◌else◌, Option, some, none, List, [], All, Run, done, panic, out_of_fuel, table,
  Option-cases, inl, inr,
}
use gbrc.Rom.{Rom}
use gbrc.Rom.Image.{IsImage}
use gbrc.Decoder.Types.{Instruction, InstructionType, InstructionType as T, JumpCondition}
use gbrc.Decoder.Encoding.{imm16}
use gbrc.Decoder.Switch.{decode_opcode}
use gbrc.Decoder.Cb.{decode_cb_prefixed_opcode}
use gbrc.Decoder.Cache.{decode_fresh}
use gbrc.Decoder.Every.{decode_fresh_ext}
use gbrc.Analyzer.Types.{rom_end}
use gbrc.Analyzer.Flow.{is_block_terminator, calculate_relative_jump_address}
use gbrc.Codegen.Ir.{i1, Inst}
use gbrc.Codegen.Exits.{Exit, br, cond_br, join_terminator}
use gbrc.Codegen.Typing.Opcodes.{is_some}
use gbrc.Codegen.Typing.Arguments.{imm16-lt}
use gbrc.Codegen.Typing.{
  Kind, number, kind_of, check_all, all_fit, all_fit-All, &&-split, FitsInst, fits_value,
}

-- A condition of one digit.
abbrev pub is_flag : Option Kind → Bool
is_flag (some (number i1 n)) = true
is_flag _ = false

-- The code before the way out, and the way out behind it.
abbrev pub typed_way : Exit → Option (List Kind) → Bool
typed_way exit none = false
typed_way br (some kinds) = true
typed_way (cond_br cond taken skipped) (some kinds) =
    is_flag (kind_of none kinds cond)
    && (is_some (check_all none [] taken) && is_some (check_all none [] skipped))

abbrev typed_exit : Option (Exit × List Inst) → Bool
typed_exit none = false
typed_exit (some (exit, code)) = typed_way exit (check_all none [] code)

abbrev pub way_fits : Exit → Bool
way_fits br = true
way_fits (cond_br cond taken skipped) = fits_value cond && (all_fit taken && all_fit skipped)

abbrev exit_fits : Option (Exit × List Inst) → Bool
exit_fits none = true
exit_fits (some (exit, code)) = way_fits exit && all_fit code

abbrev of_terminator : {A : Type 0} → (Instruction → A) → A → Run Instruction → A
of_terminator f a (done i) = if is_block_terminator i then f i else a
of_terminator f a panic = a
of_terminator f a out_of_fuel = a

abbrev exit_of : Instruction → Option (Exit × List Inst)
exit_of i = join_terminator i.instruction_type i []

module _ (rom : Rom) (addr : ℕ) where
  -- The same instruction, with its numbers where they are read or within their bounds.
  abbrev reread : Instruction → Instruction
  reread i = record i {
    address = addr;
    length = i.length % 4;
    imm16_bit = imm16 rom addr;
    call_function_address = i.call_function_address % 256;
    base_m_cycles = i.base_m_cycles % 8;
    additional_m_cycles = i.additional_m_cycles % 8;
  }

  abbrev typed : Run Instruction → Bool
  typed = of_terminator (λ i. typed_exit (exit_of i)) true

  abbrev exits : Run Instruction → Option (Exit × List Inst)
  exits = of_terminator exit_of none

  abbrev reread_exits : Run Instruction → Option (Exit × List Inst)
  reread_exits = of_terminator (λ i. join_terminator i.instruction_type (reread i) []) none

  typed-plain : table 256 (λ op. typed (decode_opcode rom op addr)) ≡ table 256 (λ op. true)
  unfolding decode_opcode is_block_terminator
  typed-plain = refl

  typed-prefixed :
      table 256 (λ op. typed (decode_cb_prefixed_opcode op addr)) ≡ table 256 (λ op. true)
  unfolding decode_cb_prefixed_opcode is_block_terminator
  typed-prefixed = refl

  exits-plain :
      table 256 (λ op. exits (decode_opcode rom op addr))
      ≡ table 256 (λ op. reread_exits (decode_opcode rom op addr))
  unfolding decode_opcode is_block_terminator calculate_relative_jump_address
  exits-plain = refl

  exits-prefixed :
      table 256 (λ op. exits (decode_cb_prefixed_opcode op addr))
      ≡ table 256 (λ op. reread_exits (decode_cb_prefixed_opcode op addr))
  unfolding decode_cb_prefixed_opcode is_block_terminator
  exits-prefixed = refl

-- The numbers that become constants of the code.
record IsBounded (i : Instruction) : Type 0 where
  base : ltb i.base_m_cycles (2 ^ 32) ≡ true
  more : ltb i.additional_m_cycles (2 ^ 32) ≡ true
  imm16 : ltb i.imm16_bit (2 ^ 16) ≡ true
  next : ltb (i.address + i.length) (2 ^ 16) ≡ true
  target : ltb (calculate_relative_jump_address i.address i) (2 ^ 16) ≡ true
  restart : ltb i.call_function_address (2 ^ 16) ≡ true

exit-fits :
    (t : InstructionType) (i : Instruction) (c : JumpCondition) (b : Bool)
    → IsBounded (record i { jump_condition = c })
    → (i.additional_m_cycles == 0) ≡ b
    → exit_fits (join_terminator t (record i { jump_condition = c }) []) ≡ true
exit-fits T.jp_nn i j b h e = rw (h.base, h.imm16) refl
exit-fits T.jr_e i j b h e = rw (h.base, h.target) refl
exit-fits T.call_nn i j b h e = rw (h.base, h.next, h.imm16) refl
exit-fits T.ret i j b h e = rw h.base refl
exit-fits T.reti i j b h e = rw h.base refl
exit-fits T.jp_hl i j b h e = rw h.base refl
exit-fits T.rst_n i j b h e = rw (h.base, h.next, h.restart) refl
exit-fits T.jp_cc_nn i JumpCondition.c true h e = rw (e, h.base, h.imm16, h.next) refl
exit-fits T.jp_cc_nn i JumpCondition.c false h e = rw (e, h.more, h.base, h.imm16, h.next) refl
exit-fits T.jp_cc_nn i j true h e = rw (e, h.base, h.imm16, h.next) refl
exit-fits T.jp_cc_nn i j false h e = rw (e, h.more, h.base, h.imm16, h.next) refl
exit-fits T.jr_cc_e i JumpCondition.c true h e = rw (e, h.base, h.target, h.next) refl
exit-fits T.jr_cc_e i JumpCondition.c false h e = rw (e, h.more, h.base, h.target, h.next) refl
exit-fits T.jr_cc_e i j true h e = rw (e, h.base, h.target, h.next) refl
exit-fits T.jr_cc_e i j false h e = rw (e, h.more, h.base, h.target, h.next) refl
exit-fits T.call_cc_nn i JumpCondition.c true h e = rw (e, h.next, h.base, h.imm16) refl
exit-fits T.call_cc_nn i JumpCondition.c false h e = rw (e, h.next, h.more, h.base, h.imm16) refl
exit-fits T.call_cc_nn i j true h e = rw (e, h.next, h.base, h.imm16) refl
exit-fits T.call_cc_nn i j false h e = rw (e, h.next, h.more, h.base, h.imm16) refl
exit-fits T.ret_cc i JumpCondition.c true h e = rw (e, h.next, h.base) refl
exit-fits T.ret_cc i JumpCondition.c false h e = rw (e, h.more, h.next, h.base) refl
exit-fits T.ret_cc i j true h e = rw (e, h.next, h.base) refl
exit-fits T.ret_cc i j false h e = rw (e, h.more, h.next, h.base) refl
exit-fits t i j b h e = refl

-- The code of a terminator, and its way out, are typed.
pub record IsTypedExit (i : Instruction) : Type 0 where
  pub exit : Exit
  pub code : List Inst
  pub built : join_terminator i.instruction_type i [] ≡ some (exit, code)
  pub kinds : List Kind
  pub checked : check_all none [] code ≡ some kinds
  pub fits : All FitsInst code
  pub way : typed_way exit (some kinds) ≡ true
  pub way_fit : way_fits exit ≡ true

typed_exit-IsTypedExit :
    (i : Instruction) → typed_exit (exit_of i) ≡ true → exit_fits (exit_of i) ≡ true → IsTypedExit i
typed_exit-IsTypedExit i e f = elim (Option-cases (exit_of i)) [
  | inl no_code ↦ let g : false ≡ true = rw no_code at e in cc
  | inr ((exit, code), built) ↦
      let way : typed_way exit (check_all none [] code) ≡ true = rw built at e in
      let (small, all_small) = &&-split (way_fits exit) (all_fit code) (rw built at f) in
      elim (Option-cases (check_all none [] code)) [
        | inl no_kinds ↦ let g : false ≡ true = rw no_kinds at way in cc
        | inr (kinds, checked) ↦ record {
          exit = exit;
          code = code;
          built = built;
          kinds = kinds;
          checked = checked;
          fits = all_fit-All code all_small;
          way = rw checked at way;
          way_fit = small;
        }
      ]
]

reread-IsBounded :
    (rom : Rom) (addr : ℕ) (i : Instruction)
    → IsImage rom
    → addr < rom_end
    → IsBounded (reread rom addr i)
unfolding calculate_relative_jump_address
reread-IsBounded rom addr i image inside = record {
  base = ground arith;
  more = ground arith;
  imm16 = ground (arith, imm16-lt rom addr image);
  next = ground arith;
  target = ground arith;
  restart = ground arith;
}

-- For every image and every block terminator that is decoded from inside the ROM: what joinBlocks
-- builds for it has no error and is typed as LLVM asks, the condition and the blocks on both ways of a
-- conditional branch included.
pub terminator-IsTypedExit :
    (rom : Rom) (addr : ℕ) (i : Instruction)
    → IsImage rom
    → addr < rom_end
    → decode_fresh rom addr ≡ done i
    → is_block_terminator i ≡ true
    → IsTypedExit i
terminator-IsTypedExit rom addr i image inside decoded h =
    let checked : typed rom addr (done i) ≡ true =
      subst (λ r. typed rom addr r ≡ true) decoded
        (decode_fresh_ext rom addr (typed rom addr) (λ _. true) image (typed-plain rom addr)
          (typed-prefixed rom addr)) in
    let again : exits rom addr (done i) ≡ reread_exits rom addr (done i) =
      subst (λ r. exits rom addr r ≡ reread_exits rom addr r) decoded
        (decode_fresh_ext rom addr (exits rom addr) (reread_exits rom addr) image
          (exits-plain rom addr) (exits-prefixed rom addr)) in
    let same : exit_of i ≡ join_terminator i.instruction_type (reread rom addr i) [] =
      rw h at again in
    typed_exit-IsTypedExit i (rw h at checked) (
      subst (λ o. exit_fits o ≡ true) (sym same)
        (exit-fits i.instruction_type (reread rom addr i) i.jump_condition
          (i.additional_m_cycles % 8 == 0) (reread-IsBounded rom addr i image inside) refl))
