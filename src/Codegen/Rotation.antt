-- ===== src/Codegen/Rotation.antt =====
-- The rotations and shifts of the processor's manual, and the code emitted for them.
pub mod Operands
use gbrc.Common.{
  ℕ, ◌+◌, ◌*◌, ◌/◌, ◌%◌, ◌^◌, ◌<◌, ◌≡◌, refl, ◌==◌, bit_and, bit_or, true, some, none, List, table,
  table_ext, ◌∙◌, ap,
}
use gbrc.Decoder.Types.{Instruction, InstructionType, InstructionType as T}
use gbrc.Codegen.Machine.{Runtime, Machine, flag}
use gbrc.Codegen.Opcodes.{emit_opcode}
use gbrc.Codegen.Alu.{
  run, IsMachine, tick, ByteRegister, in_a, in_b, in_c, in_d, in_e, in_h, in_l, reg8_of, byte_in,
}
use gbrc.Codegen.Alu.Laws.{byte_in-lt}

pub data Rotation : Type 0 where
  rlc rrc rl rr sla sra srl swap : Rotation

abbrev pub type_of : Rotation → InstructionType
type_of rlc = T.cb_rlc_r8
type_of rrc = T.cb_rrc_r8
type_of rl = T.cb_rl_r8
type_of rr = T.cb_rr_r8
type_of sla = T.cb_sla_r8
type_of sra = T.cb_sra_r8
type_of srl = T.cb_srl_r8
type_of swap = T.cb_swap_r8

-- The new byte and the new carry, from the byte and the carry.
abbrev pub rotate : Rotation → (x c : ℕ) → ℕ × ℕ
rotate rlc x c = (x * 2 % 256 + x / 128, x / 128)
rotate rrc x c = (x / 2 + x % 2 * 128, x % 2)
rotate rl x c = (x * 2 % 256 + c, x / 128)
rotate rr x c = (x / 2 + c * 128, x % 2)
rotate sla x c = (x * 2 % 256, x / 128)
rotate sra x c = (x / 2 + x / 128 * 128, x % 2)
rotate srl x c = (x / 2, x % 2)
rotate swap x c = (x % 16 * 16 + x / 16, 0)

-- What the emitted instructions compute.
abbrev emitted : Rotation → (c x : ℕ) → ℕ × ℕ
emitted rlc c x = (bit_or (x * 2 ^ 1 % 2 ^ 8) (x / 2 ^ 7), x / 2 ^ 7 % 2 ^ 1)
emitted rrc c x = (bit_or (bit_and x 1 * 2 ^ 7 % 2 ^ 8) (x / 2 ^ 1), bit_and x 1 % 2 ^ 1)
emitted rl c x = (bit_or (x * 2 ^ 1 % 2 ^ 8) c, x / 2 ^ 7 % 2 ^ 1)
emitted rr c x = (bit_or (c * 2 ^ 7 % 2 ^ 8) (x / 2 ^ 1), bit_and x 1 % 2 ^ 1)
emitted sla c x = (x * 2 ^ 1 % 2 ^ 8, x / 2 ^ 7 % 2 ^ 1)
emitted sra c x = (bit_or (x / 2 ^ 1) (bit_and x 0x80), bit_and x 1 % 2 ^ 1)
emitted srl c x = (x / 2 ^ 1, bit_and x 1 % 2 ^ 1)
emitted swap c x = (bit_or (x * 2 ^ 4 % 2 ^ 8) (x / 2 ^ 4), 0)

abbrev emitted_row : Rotation → ℕ → List (ℕ × ℕ)
emitted_row op c = table 256 (emitted op c)

abbrev manual_row : Rotation → ℕ → List (ℕ × ℕ)
manual_row op c = table 256 (λ x. rotate op x c)

rotation_table : (op : Rotation) → table 2 (emitted_row op) ≡ table 2 (manual_row op)
rotation_table rlc = refl
rotation_table _ = refl

emitted-eq-rotate : (op : Rotation) (x c : ℕ) → x < 256 → c < 2 → emitted op c x ≡ rotate op x c
emitted-eq-rotate op x c h k =
    table_ext 256 (emitted op c) (λ y. rotate op y c) x
      (table_ext 2 (emitted_row op) (manual_row op) c (rotation_table op) k) h

abbrev pub put_byte : {W : Type 0} → ByteRegister → ℕ → Machine W → Machine W
put_byte in_a v m = record m { a = v }
put_byte in_b v m = record m { b = v }
put_byte in_c v m = record m { c = v }
put_byte in_d v m = record m { d = v }
put_byte in_e v m = record m { e = v }
put_byte in_h v m = record m { h = v }
put_byte in_l v m = record m { l = v }

abbrev after_rotation : {W : Type 0} → ByteRegister → Instruction → ℕ × ℕ → Machine W → Machine W
after_rotation r instr (value, carry) m = tick instr.base_m_cycles (
    put_byte r value
      (record m { zero_flag = flag (value == 0); sub_flag = 0; half_flag = 0; carry_flag = carry }))

abbrev of_rotation : Rotation → ByteRegister → Instruction → Instruction
of_rotation op r instr = record instr {
  instruction_type = type_of op;
  reg8_src = reg8_of r;
  is_cb_prefixed = true;
}

module _ {W : Type 0} (runtime : Runtime W) where
  run-emitted :
      (r : ByteRegister) (op : Rotation) (instr : Instruction) (m : Machine W)
      → run runtime none (emit_opcode (type_of op) (of_rotation op r instr)) m
        ≡ some (after_rotation r instr (emitted op m.carry_flag (byte_in r m)) m)
  run-emitted in_a rlc instr m = refl
  run-emitted in_b rlc instr m = refl
  run-emitted in_c rlc instr m = refl
  run-emitted in_d rlc instr m = refl
  run-emitted in_e rlc instr m = refl
  run-emitted in_h rlc instr m = refl
  run-emitted in_l rlc instr m = refl
  run-emitted _ _ instr m = refl

  -- For each of the prefixed RLC, RRC, RL, RR, SLA, SRA, SRL and SWAP and each of the registers A, B,
  -- C, D, E, H and L, on a machine whose globals fit their widths, the emitted code runs without
  -- getting stuck and gives the machine of the manual: the register, the four flags and the cycles,
  -- and nothing else changed.
  bitwise-eq :
      (op : Rotation) (r : ByteRegister) (instr : Instruction) (m : Machine W)
      → IsMachine m
      → run runtime none (emit_opcode (type_of op) (of_rotation op r instr)) m
        ≡ some (after_rotation r instr (rotate op (byte_in r m) m.carry_flag) m)
  bitwise-eq op r instr m h =
      run-emitted r op instr m
      ∙ ap (λ t. some (after_rotation r instr t m))
          (emitted-eq-rotate op (byte_in r m) m.carry_flag (byte_in-lt runtime r m h) h.carry_flag)
