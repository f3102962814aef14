-- ===== src/Codegen/Rotation/Operands.antt =====
-- The emitted rotations and shifts of registers, of the byte at HL and, without the prefix, of A.
use gbrc.Common.{ℕ, ◌+◌, ◌*◌, ◌%◌, ◌^◌, ◌≡◌, refl, ◌∙◌, ap, ◌==◌, bit_or, none, some, true, false}
use gbrc.Decoder.Types.{Instruction, InstructionType, InstructionType as T}
use gbrc.Codegen.Machine.{Runtime, Machine, flag}
use gbrc.Codegen.Opcodes.{emit_opcode}
use gbrc.Codegen.Alu.{run, IsMachine, tick, in_a}
use gbrc.Codegen.Stack.Laws.{or_add}
use gbrc.Codegen.Typing.Steps.{GivesBytes}
use gbrc.Codegen.BitOps.{
  Place, in_register, in_memory, reg8_at, fetch_byte, deliver_byte, fetch_byte-lt,
}
use gbrc.Codegen.Rotation.{
  Rotation, rlc, rrc, rl, rr, sla, sra, srl, swap, type_of, rotate, emitted, emitted-eq-rotate,
}

-- With the prefix at a place, or one of the four that rotate A in a byte of code.
pub data Form : Type 0 where
  prefixed : Rotation → Place → Form
  rlca rrca rla rra : Form

abbrev type_hl : Rotation → InstructionType
type_hl rlc = T.cb_rlc_hl
type_hl rrc = T.cb_rrc_hl
type_hl rl = T.cb_rl_hl
type_hl rr = T.cb_rr_hl
type_hl sla = T.cb_sla_hl
type_hl sra = T.cb_sra_hl
type_hl srl = T.cb_srl_hl
type_hl swap = T.cb_swap_hl

abbrev pub form_type : Form → InstructionType
form_type (prefixed op (in_register r)) = type_of op
form_type (prefixed op in_memory) = type_hl op
form_type rlca = T.rlca
form_type rrca = T.rrca
form_type rla = T.rla
form_type rra = T.rra

abbrev rotation_of : Form → Rotation
rotation_of (prefixed op place) = op
rotation_of rlca = rlc
rotation_of rrca = rrc
rotation_of rla = rl
rotation_of rra = rr

abbrev place_of : Form → Place
place_of (prefixed op place) = place
place_of _ = in_register in_a

-- The fields that the decoder sets.
abbrev pub of_form : Form → Instruction → Instruction
of_form (prefixed op place) i = record i {
  instruction_type = form_type (prefixed op place);
  reg8_src = reg8_at place;
  is_cb_prefixed = true;
}
of_form form i = record i {
  instruction_type = form_type form;
  reg8_src = reg8_at (place_of form);
  is_cb_prefixed = false;
}

-- Z, which only the prefixed forms set. The manual has it cleared by the other four, and here the
-- code is followed.
abbrev zero_after : Form → (value before : ℕ) → ℕ
zero_after (prefixed op place) value before = flag (value == 0)
zero_after _ value before = before

module _ {W : Type 0} (runtime : Runtime W) where
  abbrev put_rotated : Form → (hl : ℕ) → ℕ × ℕ → Machine W → Machine W
  put_rotated form hl (value, carry) m = deliver_byte runtime hl (place_of form) value (record m {
    zero_flag = zero_after form value m.zero_flag;
    sub_flag = 0;
    half_flag = 0;
    carry_flag = carry;
  })

  abbrev after_form_by :
      (Rotation → (x c : ℕ) → ℕ × ℕ) → (hl : ℕ) → Form → Instruction → Machine W → Machine W
  after_form_by f hl form i m =
      let (x, m') = fetch_byte runtime hl (place_of form) m in
      tick i.base_m_cycles (put_rotated form hl (f (rotation_of form) x m.carry_flag) m')

  abbrev pub after_form : Form → Instruction → Machine W → Machine W
  after_form form i m = after_form_by rotate (m.h * 256 + m.l) form i m

  form_as_emitted :
      (form : Form) (i : Instruction) (m : Machine W)
      → run runtime none (emit_opcode (form_type form) (of_form form i)) m
        ≡ some
            (after_form_by (λ op x c. emitted op c x) (bit_or (m.h * 2 ^ 8 % 2 ^ 16) m.l) form i m)
  form_as_emitted rlca i m = refl
  form_as_emitted rrca i m = refl
  form_as_emitted rla i m = refl
  form_as_emitted rra i m = refl
  form_as_emitted (prefixed rlc (in_register in_a)) i m = refl
  form_as_emitted (prefixed op (in_register in_a)) i m = refl
  form_as_emitted (prefixed rlc (in_register r)) i m = refl
  form_as_emitted (prefixed op (in_register r)) i m = refl
  form_as_emitted (prefixed rlc in_memory) i m = refl
  form_as_emitted (prefixed op in_memory) i m = refl

module _ {W : Type 0} (runtime : Runtime W) (bytes : GivesBytes runtime) where
  -- For each of RLC, RRC, RL, RR, SLA, SRA, SRL and SWAP of A, B, C, D, E, H, L and the byte at HL,
  -- and for RLCA, RRCA, RLA and RRA, on a machine whose globals fit their widths and with a runtime
  -- whose memory reads bytes, the emitted code runs without getting stuck and leaves the byte and the
  -- carry of the manual, Z from the byte, but after the last four as it was before, N and H cleared,
  -- the cycles, and nothing else changed.
  pub rotation-eq :
      (form : Form) (i : Instruction) (m : Machine W)
      → IsMachine m
      → run runtime none (emit_opcode (form_type form) (of_form form i)) m
        ≡ some (after_form runtime form i m)
  rotation-eq form i m h =
      let hl = m.h * 256 + m.l in
      let (x, m') = fetch_byte runtime hl (place_of form) m in
      let small = fetch_byte-lt runtime bytes (place_of form) m hl h in
      form_as_emitted runtime form i m
      ∙ ap (λ a. some (after_form_by runtime (λ op x c. emitted op c x) a form i m))
          (or_add m.h m.l h.h h.l)
      ∙ ap (λ t. some (tick i.base_m_cycles (put_rotated runtime form hl t m')))
          (emitted-eq-rotate (rotation_of form) x m.carry_flag small h.carry_flag)
