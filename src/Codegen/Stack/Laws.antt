-- ===== src/Codegen/Stack/Laws.antt =====
-- The emitted pushes and pops.
use gbrc.Common.{
  List, ℕ, ◌+◌, ◌-◌, ◌*◌, ◌/◌, ◌%◌, ◌^◌, ◌<◌, ◌≡◌, ◌≤◌, refl, ◌==◌, if◌then◌else◌, bit_or, none,
  some, table, table_ext, arith,
}
use gbrc.Decoder.Types.{Instruction, InstructionType as T}
use gbrc.Codegen.Machine.{Runtime, Machine, cg_read_memory}
use gbrc.Codegen.Opcodes.{emit_opcode}
use gbrc.Codegen.Alu.{run, IsMachine, tick}
use gbrc.Codegen.Stack.{Pair, bc, de, hl, af, reg16_of, high_of, low_of, put_pair, pushed, KeepsRam}

abbrev or_row : ℕ → List ℕ
or_row high = table 256 (λ low. bit_or (high * 2 ^ 8 % 2 ^ 16) low)

abbrev sum_row : ℕ → List ℕ
sum_row high = table 256 (λ low. high * 256 + low)

or_table : table 256 or_row ≡ table 256 sum_row
or_table = refl

pub or_add :
    (high low : ℕ) → high < 256 → low < 256 → bit_or (high * 2 ^ 8 % 2 ^ 16) low ≡ high * 256 + low
or_add high low h k =
    table_ext 256 (λ l. bit_or (high * 2 ^ 8 % 2 ^ 16) l) (λ l. high * 256 + l) low
      (table_ext 256 or_row sum_row high or_table h) k

-- The byte of flags as it is emitted, and as a sum.
or_flags : (z n h c : ℕ) → ℕ
or_flags z n h c =
    bit_or
      (bit_or (bit_or (if z == 0 then 0 else 0x80) (if n == 0 then 0 else 0x40))
        (if h == 0 then 0 else 0x20))
      (if c == 0 then 0 else 0x10)

sum_flags : (z n h c : ℕ) → ℕ
sum_flags z n h c = z * 128 + n * 64 + h * 32 + c * 16

abbrev rows : ((z n h c : ℕ) → ℕ) → ℕ → ℕ → ℕ → List ℕ
rows f z n h = table 2 (f z n h)

abbrev squares : ((z n h c : ℕ) → ℕ) → ℕ → ℕ → List (List ℕ)
squares f z n = table 2 (rows f z n)

abbrev cubes : ((z n h c : ℕ) → ℕ) → ℕ → List (List (List ℕ))
cubes f z = table 2 (squares f z)

flags_table : table 2 (cubes or_flags) ≡ table 2 (cubes sum_flags)
unfolding or_flags sum_flags
flags_table = refl

flags_sum : (z n h c : ℕ) → z < 2 → n < 2 → h < 2 → c < 2 → or_flags z n h c ≡ sum_flags z n h c
flags_sum z n h c hz hn hh hc =
    table_ext 2 (or_flags z n h) (sum_flags z n h) c
      (table_ext 2 (rows or_flags z n) (rows sum_flags z n) h
        (table_ext 2 (squares or_flags z) (squares sum_flags z) n
          (table_ext 2 (cubes or_flags) (cubes sum_flags) z flags_table hz) hn)
        hh)
      hc

high_byte : (high low : ℕ) → high < 256 → low < 256 → (high * 256 + low) / 2 ^ 8 % 2 ^ 8 ≡ high
high_byte high low h k = omega arith

low_byte : (high low : ℕ) → low < 256 → (high * 256 + low) % 2 ^ 8 ≡ low
low_byte high low k = omega arith

below : (sp : ℕ) → sp < 65536 → (sp + (2 ^ 16 - 1)) % 2 ^ 16 ≡ (sp + 65535) % 65536
below sp h = refl

pub below_twice : (sp : ℕ) → ((sp + 65535) % 65536 + (2 ^ 16 - 1)) % 2 ^ 16 ≡ (sp + 65534) % 65536
below_twice sp = omega arith

pub above_twice : (sp : ℕ) → ((sp + 1) % 65536 + 1) % 65536 ≡ (sp + 2) % 65536
above_twice sp = omega arith

module _ {W : Type 0} (runtime : Runtime W) where
  low_of-lt : (p : Pair) (m : Machine W) → IsMachine m → low_of p m < 256
  low_of-lt bc m h = h.c
  low_of-lt de m h = h.e
  low_of-lt hl m h = h.l
  low_of-lt af m h = omega (arith, h.zero_flag, h.sub_flag, h.half_flag, h.carry_flag)

  high_of-lt : (p : Pair) (m : Machine W) → IsMachine m → high_of p m < 256
  high_of-lt bc m h = h.b
  high_of-lt de m h = h.d
  high_of-lt hl m h = h.h
  high_of-lt af m h = h.a

  pub push_r16-eq :
      (p : Pair) (instr : Instruction) (m : Machine W)
      → IsMachine m
      → run runtime none
          (emit_opcode T.push_r16
            (record instr { instruction_type = T.push_r16; reg16 = reg16_of p }))
          m
        ≡ some (tick instr.base_m_cycles (pushed runtime (high_of p m) (low_of p m) m))
  unfolding or_flags sum_flags
  push_r16-eq bc instr m h =
      rw (or_add m.b m.c h.b h.c, high_byte m.b m.c h.b h.c, low_byte m.b m.c h.c, below_twice m.sp)
        refl
  push_r16-eq de instr m h =
      rw (or_add m.d m.e h.d h.e, high_byte m.d m.e h.d h.e, low_byte m.d m.e h.e, below_twice m.sp)
        refl
  push_r16-eq hl instr m h =
      rw (or_add m.h m.l h.h h.l, high_byte m.h m.l h.h h.l, low_byte m.h m.l h.l, below_twice m.sp)
        refl
  push_r16-eq af instr m h =
      rw
        (
          flags_sum m.zero_flag m.sub_flag m.half_flag m.carry_flag h.zero_flag h.sub_flag
              h.half_flag h.carry_flag,
          or_add m.a (low_of af m) h.a (low_of-lt af m h),
          high_byte m.a (low_of af m) h.a (low_of-lt af m h),
          low_byte m.a (low_of af m) (low_of-lt af m h),
          below_twice m.sp,
        )
        refl

  -- If reading at the stack pointer and then at the next address gives two bytes and a memory,
  -- then the code emitted for POP of BC, DE, HL or AF puts the first byte into the low half (for
  -- AF: its bits 7 to 4 into the flags) and the second into the high half, adds two to the stack
  -- pointer modulo 2 ^ 16, keeps that memory and counts the instruction's cycles.
  pop_r16-eq :
      (p : Pair) (instr : Instruction) (m : Machine W) (low high : ℕ) (w w' : W)
      → cg_read_memory runtime m.world m.sp ≡ (low, w)
      → cg_read_memory runtime w ((m.sp + 1) % 65536) ≡ (high, w')
      → low < 256
      → high < 256
      → run runtime none
          (emit_opcode T.pop_r16
            (record instr { instruction_type = T.pop_r16; reg16 = reg16_of p }))
          m
        ≡ some (
            tick instr.base_m_cycles
              (put_pair p high low (record m { sp = (m.sp + 2) % 65536; world = w' })))
  pop_r16-eq bc instr m low high w w' e f k h =
      rw (e, f, or_add high low h k, high_byte high low h k, low_byte high low k, above_twice m.sp)
        refl
  pop_r16-eq de instr m low high w w' e f k h =
      rw (e, f, or_add high low h k, high_byte high low h k, low_byte high low k, above_twice m.sp)
        refl
  pop_r16-eq hl instr m low high w w' e f k h =
      rw (e, f, or_add high low h k, high_byte high low h k, low_byte high low k, above_twice m.sp)
        refl
  pop_r16-eq af instr m low high w w' e f k h =
      rw (e, f, or_add high low h k, high_byte high low h k, low_byte high low k, above_twice m.sp)
        refl

module _ {W : Type 0} (runtime : Runtime W) where
  -- If work RAM keeps what is written to it, the globals fit their widths and the stack pointer is
  -- from 0xC002 to 0xE000, then the code emitted for PUSH of any pair and then for POP of any pair
  -- puts the first pair into the second (the flags of AF as bits 7 to 4), leaves the stack pointer
  -- and the other registers as they were, keeps the memory as the PUSH left it, and counts the
  -- cycles of both.
  pub push_pop :
      (src dst : Pair) (i j : Instruction) (m : Machine W)
      → KeepsRam runtime
      → IsMachine m
      → 0xC002 ≤ m.sp
      → m.sp ≤ 0xE000
      → (m' : Machine W) × (run runtime none
            (emit_opcode T.push_r16
              (record i { instruction_type = T.push_r16; reg16 = reg16_of src }))
            m
          ≡ some m')
        × (run runtime none
              (emit_opcode T.pop_r16
                (record j { instruction_type = T.pop_r16; reg16 = reg16_of dst }))
              m'
            ≡ some (
                tick j.base_m_cycles (
                  put_pair dst
                    (high_of src m)
                    (low_of src m)
                    (record (tick i.base_m_cycles m) { world = m'.world }))))
  push_pop src dst i j m keeps h lo hi =
      let m' = tick i.base_m_cycles (pushed runtime (high_of src m) (low_of src m) m) in
      let low = low_of-lt runtime src m h in
      let high = high_of-lt runtime src m h in
      let first = (m.sp + 65535) % 65536 in
      let second = (m.sp + 65534) % 65536 in
      let w = runtime.write_ram m.world first (high_of src m) in
      let e : cg_read_memory runtime m'.world second ≡ (low_of src m, m'.world) =
        ground (arith, keeps w second (low_of src m) second) in
      let f : cg_read_memory runtime m'.world ((second + 1) % 65536) ≡ (high_of src m, m'.world) =
        ground (
          arith,
          keeps w second (low_of src m) ((second + 1) % 65536),
          keeps m.world first (high_of src m) ((second + 1) % 65536),
        ) in
      let back : (second + 2) % 65536 ≡ m.sp = omega arith in
      (
        m',
        push_r16-eq runtime src i m h,
        rw
            (
              pop_r16-eq runtime dst j m' (low_of src m) (high_of src m) m'.world m'.world e f low
                  high,
              back,
            )
            refl,
      )
