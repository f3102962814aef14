-- ===== src/Codegen/Decimal.antt =====
-- DAA, as the processor's manual has it, and addition of decimal numbers.
use gbrc.Common.{
  ℕ, ◌+◌, ◌-◌, ◌*◌, ◌/◌, ◌%◌, ◌<◌, ◌≡◌, refl, Bool, true, false, ap, ltb, leb, ◌==◌, ◌||◌,
  if◌then◌else◌, Option, some, none, List, table, table_ext, arith,
}
use gbrc.Decoder.Types.{Instruction, InstructionType as T}
use gbrc.Codegen.Ir.{i8}
use gbrc.Codegen.Machine.{Runtime, Machine, flag, word}
use gbrc.Codegen.Opcodes.{emit_opcode}
use gbrc.Codegen.Alu.{run, IsMachine, tick, alu_add, after_alu, effect}
use gbrc.Codegen.Alu.Laws.{arithmetic_n-eq}

-- The new A and carry. After a subtraction the flags alone decide.
abbrev pub adjusted : (a n h c : ℕ) → ℕ
adjusted a n h c =
    if n == 0
    then (a
        + (if h == 1 || ltb 9 (a % 16) then 0x06 else 0)
        + (if c == 1 || ltb 0x99 a then 0x60 else 0))
      % 256
    else (a + (512 - (if h == 1 then 0x06 else 0) - (if c == 1 then 0x60 else 0))) % 256

abbrev pub adjusted_carry : (a n c : ℕ) → ℕ
adjusted_carry a n c = if n == 0 then flag (c == 1 || ltb 0x99 a) else c

abbrev pub adjust : {W : Type 0} → Machine W → Machine W
adjust m = record m {
  a = adjusted m.a m.sub_flag m.half_flag m.carry_flag;
  zero_flag = flag (adjusted m.a m.sub_flag m.half_flag m.carry_flag == 0);
  half_flag = 0;
  carry_flag = adjusted_carry m.a m.sub_flag m.carry_flag;
}

module _ {W : Type 0} (runtime : Runtime W) (instr : Instruction) (m : Machine W) where
  abbrev with_flags : (n h c a : ℕ) → Machine W
  with_flags n h c a = record m { a = a; sub_flag = n; half_flag = h; carry_flag = c }

  abbrev emitted : (n h c a : ℕ) → Option (Machine W)
  emitted n h c a =
      run runtime none (emit_opcode T.daa (record instr { instruction_type = T.daa }))
        (with_flags n h c a)

  abbrev manual : (n h c a : ℕ) → Option (Machine W)
  manual n h c a = some (tick instr.base_m_cycles (adjust (with_flags n h c a)))

  abbrev rows : ((n h c a : ℕ) → Option (Machine W)) → (n h c : ℕ) → List (Option (Machine W))
  rows f n h c = table 256 (f n h c)

  abbrev squares :
      ((n h c a : ℕ) → Option (Machine W)) → (n h : ℕ) → List (List (Option (Machine W)))
  squares f n h = table 2 (rows f n h)

  abbrev cubes : ((n h c a : ℕ) → Option (Machine W)) → ℕ → List (List (List (Option (Machine W))))
  cubes f n = table 2 (squares f n)

  daa_table : table 2 (cubes emitted) ≡ table 2 (cubes manual)
  daa_table = refl

  pub daa-eq :
      m.a < 256
      → m.sub_flag < 2
      → m.half_flag < 2
      → m.carry_flag < 2
      → run runtime none (emit_opcode T.daa (record instr { instruction_type = T.daa })) m
        ≡ some (tick instr.base_m_cycles (adjust m))
  daa-eq ha hn hh hc =
      table_ext 256 (emitted m.sub_flag m.half_flag m.carry_flag)
        (manual m.sub_flag m.half_flag m.carry_flag) m.a
        (table_ext 2 (rows emitted m.sub_flag m.half_flag) (rows manual m.sub_flag m.half_flag)
          m.carry_flag
          (table_ext 2 (squares emitted m.sub_flag) (squares manual m.sub_flag) m.half_flag
            (table_ext 2 (cubes emitted) (cubes manual) m.sub_flag daa_table hn) hh)
          hc)
        ha

-- Two decimal digits in a byte.
abbrev pub decimal : ℕ → ℕ
decimal x = x / 10 * 16 + x % 10

-- What DAA makes of the sum: A, the zero flag and the carry.
abbrev sum_adjusted : (x y : ℕ) → ℕ × (ℕ × ℕ)
sum_adjusted x y =
    let f = effect alu_add (decimal x) (decimal y) 0 in
    let a = adjusted f.a 0 f.h f.c in (a, (flag (a == 0), adjusted_carry f.a 0 f.c))

abbrev sum_decimal : (x y : ℕ) → ℕ × (ℕ × ℕ)
sum_decimal x y = let s = (x + y) % 100 in (decimal s, (flag (s == 0), flag (leb 100 (x + y))))

decimal_table :
    table 100 (λ x. table 100 (sum_adjusted x)) ≡ table 100 (λ x. table 100 (sum_decimal x))
decimal_table = refl

sum_adjusted-eq : (x y : ℕ) → x < 100 → y < 100 → sum_adjusted x y ≡ sum_decimal x y
sum_adjusted-eq x y h k =
    table_ext 100 (sum_adjusted x) (sum_decimal x) y
      (table_ext 100 (λ x. table 100 (sum_adjusted x)) (λ x. table 100 (sum_decimal x)) x
        decimal_table h)
      k

flag-lt : (b : Bool) → flag b < 2
flag-lt true = omega arith
flag-lt false = omega arith

module _ {W : Type 0} (runtime : Runtime W) where
  -- For two numbers below 100, with the first as two decimal digits in A and the second as the
  -- argument, on a machine whose globals fit their widths, the code emitted for ADD and then for
  -- DAA puts the sum modulo 100 in decimal digits into A, sets the carry if the sum is 100 or more
  -- and the zero flag if the digits are zero, clears the other flags, and counts the cycles of
  -- both.
  pub decimal_add :
      (x y : ℕ) (i j : Instruction) (m : Machine W)
      → x < 100
      → y < 100
      → IsMachine m
      → m.a ≡ decimal x
      → (m' : Machine W) × (run runtime
            (some (word i8 (decimal y)))
            (emit_opcode T.add_n (record i { instruction_type = T.add_n }))
            m
          ≡ some m')
        × (run runtime none (emit_opcode T.daa (record j { instruction_type = T.daa })) m'
            ≡ some (
                tick j.base_m_cycles (
                  tick i.base_m_cycles (record m {
                    a = decimal ((x + y) % 100);
                    zero_flag = flag ((x + y) % 100 == 0);
                    sub_flag = 0;
                    half_flag = 0;
                    carry_flag = flag (leb 100 (x + y));
                  }))))
  decimal_add x y i j m hx hy h e =
      let m' = after_alu alu_add i (decimal y) m in
      let s = sum_adjusted-eq x y hx hy in
      let daa = daa-eq runtime j m' (omega arith) (omega arith) (flag-lt _) (flag-lt _) in
      (
        m',
        arithmetic_n-eq runtime alu_add i (decimal y) m h (omega arith),
        rw (daa, e, ap (λ t. t.1.0) s, ap (λ t. t.0) s, ap (λ t. t.1.1) s) refl,
      )
