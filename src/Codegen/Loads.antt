-- ===== src/Codegen/Loads.antt =====
-- The loads of bytes of the processor's manual, and the code emitted for them.
use gbrc.Common.{ℕ, ◌+◌, ◌*◌, ◌/◌, ◌%◌, ◌^◌, ◌<◌, ◌≡◌, refl, Option, some, none, arith}
use gbrc.Decoder.Types.{Instruction, InstructionType, InstructionType as T}
use gbrc.Codegen.Ir.{i8, i16}
use gbrc.Codegen.Machine.{Runtime, Machine, Datum, word, cg_read_memory}
use gbrc.Codegen.Opcodes.{emit_opcode}
use gbrc.Codegen.Alu.{run, IsMachine, tick, ByteRegister, in_a, reg8_of, byte_in}
use gbrc.Codegen.Rotation.{put_byte}
use gbrc.Codegen.Stack.Laws.{or_add}
use gbrc.Codegen.WordAlu.{in_bc, in_de, in_hl, word_in, put_word}

-- Where in memory an operand is: at a pair, with HL counted down or up behind it, at an immediate
-- address, or in the page 0xFF00 at C or at an immediate byte.
pub data Mode : Type 0 where
  at_bc at_de at_hl at_hl_dec at_hl_inc at_nn at_high_c at_high_n : Mode

-- `LD A,(BC)` and so on, which `A` alone can do, and the others.
pub data AMode : Type 0 where
  a_bc a_de a_hl_dec a_hl_inc a_nn a_high_c a_high_n : AMode

abbrev mode_of : AMode → Mode
mode_of a_bc = at_bc
mode_of a_de = at_de
mode_of a_hl_dec = at_hl_dec
mode_of a_hl_inc = at_hl_inc
mode_of a_nn = at_nn
mode_of a_high_c = at_high_c
mode_of a_high_n = at_high_n

pub data Operand : Type 0 where
  register : ByteRegister → Operand
  immediate : Operand
  memory : Mode → Operand

pub data Load : Type 0 where
  between : (target source : ByteRegister) → Load
  constant : (target : ByteRegister) → Load
  from_hl : (target : ByteRegister) → Load
  into_hl : (source : ByteRegister) → Load
  constant_into_hl : Load
  from_memory into_memory : AMode → Load

abbrev target_of : Load → Operand
target_of (between r s) = register r
target_of (constant r) = register r
target_of (from_hl r) = register r
target_of (into_hl s) = memory at_hl
target_of constant_into_hl = memory at_hl
target_of (from_memory a) = register in_a
target_of (into_memory a) = memory (mode_of a)

abbrev source_of : Load → Operand
source_of (between r s) = register s
source_of (constant r) = immediate
source_of (from_hl r) = memory at_hl
source_of (into_hl s) = register s
source_of constant_into_hl = immediate
source_of (from_memory a) = memory (mode_of a)
source_of (into_memory a) = register in_a

abbrev pub load_type : Load → InstructionType
load_type (between r s) = T.ld_r8_r8
load_type (constant r) = T.ld_r8_n
load_type (from_hl r) = T.ld_r8_hl
load_type (into_hl s) = T.ld_hl_r8
load_type constant_into_hl = T.ld_hl_n
load_type (from_memory a_bc) = T.ld_a_bc
load_type (from_memory a_de) = T.ld_a_de
load_type (from_memory a_hl_dec) = T.ld_a_hl_dec
load_type (from_memory a_hl_inc) = T.ld_a_hl_inc
load_type (from_memory a_nn) = T.ld_a_nn
load_type (from_memory a_high_c) = T.ldh_a_c
load_type (from_memory a_high_n) = T.ldh_a_n
load_type (into_memory a_bc) = T.ld_bc_a
load_type (into_memory a_de) = T.ld_de_a
load_type (into_memory a_hl_dec) = T.ld_hl_dec_a
load_type (into_memory a_hl_inc) = T.ld_hl_inc_a
load_type (into_memory a_nn) = T.ld_nn_a
load_type (into_memory a_high_c) = T.ldh_c_a
load_type (into_memory a_high_n) = T.ldh_n_a

-- The instruction with its registers, and the argument of the call.
abbrev pub of_load : Load → Instruction → Instruction
of_load (between r s) i = record i { reg8_dest = reg8_of r; reg8_src = reg8_of s }
of_load (constant r) i = record i { reg8_dest = reg8_of r }
of_load (from_hl r) i = record i { reg8_dest = reg8_of r }
of_load (into_hl s) i = record i { reg8_src = reg8_of s }
of_load _ i = i

abbrev pub load_argument : Load → (x : ℕ) → Option Datum
load_argument (constant r) x = some (word i8 x)
load_argument constant_into_hl x = some (word i8 x)
load_argument (from_memory a_high_n) x = some (word i8 x)
load_argument (into_memory a_high_n) x = some (word i8 x)
load_argument (from_memory a_nn) x = some (word i16 x)
load_argument (into_memory a_nn) x = some (word i16 x)
load_argument _ x = none

-- The bound of the argument.
abbrev limit : Load → ℕ
limit (from_memory a_nn) = 2 ^ 16
limit (into_memory a_nn) = 2 ^ 16
limit _ = 2 ^ 8

module _ {W : Type 0} (runtime : Runtime W) (x : ℕ) where
  abbrev address_of : Mode → Machine W → ℕ
  address_of at_bc m = word_in in_bc m
  address_of at_de m = word_in in_de m
  address_of at_hl m = word_in in_hl m
  address_of at_hl_dec m = word_in in_hl m
  address_of at_hl_inc m = word_in in_hl m
  address_of at_nn m = x
  address_of at_high_c m = 0xFF00 + m.c
  address_of at_high_n m = 0xFF00 + x

  -- What is read, with the machine that reading leaves.
  abbrev fetch : Operand → Machine W → ℕ × Machine W
  fetch (register r) m = (byte_in r m, m)
  fetch immediate m = (x, m)
  fetch (memory mode) m =
      let (n, world) = cg_read_memory runtime m.world (address_of mode m) in
      (n, record m { world = world })

  abbrev deliver : Operand → (n : ℕ) → Machine W → Machine W
  deliver (register r) n m = put_byte r n m
  deliver immediate n m = m
  deliver (memory mode) n m = record m { world = runtime.write_ram m.world (address_of mode m) n }

  -- HL behind the operand.
  abbrev stepped : Operand → Machine W → Machine W
  stepped (memory at_hl_dec) m = put_word in_hl ((word_in in_hl m + 65535) % 2 ^ 16) m
  stepped (memory at_hl_inc) m = put_word in_hl ((word_in in_hl m + 1) % 2 ^ 16) m
  stepped _ m = m

  abbrev pub after_load : Load → Instruction → Machine W → Machine W
  after_load op i m =
      let (n, m') = fetch (source_of op) m in
      tick i.base_m_cycles
        (stepped (source_of op) (stepped (target_of op) (deliver (target_of op) n m')))

high_half : (n : ℕ) → n < 2 ^ 16 → n / 2 ^ 8 % 2 ^ 8 ≡ n / 256
high_half n h = omega arith

high_page : (x : ℕ) → x < 256 → (0xFF00 + x) % 2 ^ 16 ≡ 0xFF00 + x
high_page x h = omega arith

module _ {W : Type 0} (runtime : Runtime W) where
  -- For every load of a byte (from a register or an immediate byte to a register or to (HL), from
  -- (HL) to a register, and between A and the memory at BC, DE, HL with HL counted up or down, an
  -- immediate address, 0xFF00 + C and 0xFF00 + n), on a machine whose globals fit their widths and
  -- with an argument that fits, the emitted code runs without getting stuck and gives the machine of
  -- the manual: the one read, the one write, HL counted modulo 2 ^ 16 and the cycles, and nothing else
  -- changed.
  pub load-eq :
      (op : Load) (i : Instruction) (x : ℕ) (m : Machine W)
      → IsMachine m
      → x < limit op
      → run runtime (load_argument op x) (emit_opcode (load_type op) (of_load op i)) m
        ≡ some (after_load runtime x op i m)
  load-eq (between in_a in_a) i x m h k = refl
  load-eq (between r in_a) i x m h k = refl
  load-eq (between r s) i x m h k = refl
  load-eq (constant in_a) i x m h k = refl
  load-eq (constant r) i x m h k = refl
  load-eq (from_hl in_a) i x m h k = rw (or_add m.h m.l h.h h.l) refl
  load-eq (from_hl r) i x m h k = rw (or_add m.h m.l h.h h.l) refl
  load-eq (into_hl in_a) i x m h k = rw (or_add m.h m.l h.h h.l) refl
  load-eq (into_hl r) i x m h k = rw (or_add m.h m.l h.h h.l) refl
  load-eq constant_into_hl i x m h k = rw (or_add m.h m.l h.h h.l) refl
  load-eq (from_memory a_bc) i x m h k = rw (or_add m.b m.c h.b h.c) refl
  load-eq (from_memory a_de) i x m h k = rw (or_add m.d m.e h.d h.e) refl
  load-eq (from_memory a_hl_dec) i x m h k =
      rw (or_add m.h m.l h.h h.l, high_half ((m.h * 256 + m.l + 65535) % 2 ^ 16) (omega arith)) refl
  load-eq (from_memory a_hl_inc) i x m h k =
      rw (or_add m.h m.l h.h h.l, high_half ((m.h * 256 + m.l + 1) % 2 ^ 16) (omega arith)) refl
  load-eq (from_memory a_nn) i x m h k = refl
  load-eq (from_memory a_high_c) i x m h k = rw (high_page m.c h.c) refl
  load-eq (from_memory a_high_n) i x m h k = rw (high_page x k) refl
  load-eq (into_memory a_bc) i x m h k = rw (or_add m.b m.c h.b h.c) refl
  load-eq (into_memory a_de) i x m h k = rw (or_add m.d m.e h.d h.e) refl
  load-eq (into_memory a_hl_dec) i x m h k =
      rw (or_add m.h m.l h.h h.l, high_half ((m.h * 256 + m.l + 65535) % 2 ^ 16) (omega arith)) refl
  load-eq (into_memory a_hl_inc) i x m h k =
      rw (or_add m.h m.l h.h h.l, high_half ((m.h * 256 + m.l + 1) % 2 ^ 16) (omega arith)) refl
  load-eq (into_memory a_nn) i x m h k = refl
  load-eq (into_memory a_high_c) i x m h k = rw (high_page m.c h.c) refl
  load-eq (into_memory a_high_n) i x m h k = rw (high_page x k) refl
