-- ===== src/Codegen/Stack/Return.antt =====
-- A call and its return.
use gbrc.Common.{
  ◌∙◌, leb, false, ap, Option, ℕ, ◌+◌, ◌-◌, ◌*◌, ◌/◌, ◌%◌, ◌^◌, ◌<◌, ◌≡◌, ◌≤◌, refl, some, arith,
}
use gbrc.Decoder.Types.{Instruction, InstructionType, InstructionType as T}
use gbrc.Codegen.Machine.{Runtime, Machine, cg_read_memory}
use gbrc.Codegen.Exits.{join_terminator}
use gbrc.Codegen.Leave.{run_exit}
use gbrc.Codegen.Alu.{tick}
use gbrc.Codegen.Stack.{pushed, KeepsRam}
use gbrc.Codegen.Stack.Laws.{or_add, below_twice, above_twice}

-- The two that push a return address without a condition, and the two that pop one.
pub data Caller : Type 0 where
  calls restarts : Caller

pub data Returner : Type 0 where
  returns returns_enabled : Returner

abbrev pub caller_type : Caller → InstructionType
caller_type calls = T.call_nn
caller_type restarts = T.rst_n

abbrev pub destination : Caller → Instruction → ℕ
destination calls i = i.imm16_bit
destination restarts i = i.call_function_address

abbrev pub returner_type : Returner → InstructionType
returner_type returns = T.ret
returner_type returns_enabled = T.reti

abbrev pub enabled : {W : Type 0} → Returner → Machine W → Machine W
enabled returns m = m
enabled returns_enabled m = record m { ime = 1 }

high_half : (n : ℕ) → n < 2 ^ 16 → n / 2 ^ 8 % 2 ^ 8 ≡ n / 256
high_half n h = omega arith

module _ {W : Type 0} (runtime : Runtime W) where
  call-eq :
      (c : Caller) (i : Instruction) (m : Machine W)
      → i.address + i.length < 2 ^ 16
      → run_exit runtime (join_terminator (caller_type c) i) m
        ≡ some
            (record (tick i.base_m_cycles
              (pushed runtime ((i.address + i.length) / 256) ((i.address + i.length) % 256) m)) {
                pc = destination c i;
              })
  call-eq calls i m h = rw (below_twice m.sp, high_half _ h) refl
  call-eq restarts i m h = rw (below_twice m.sp, high_half _ h) refl

  ret-eq :
      (r : Returner) (j : Instruction) (m : Machine W) (low high : ℕ) (w w' : W)
      → cg_read_memory runtime m.world m.sp ≡ (low, w)
      → cg_read_memory runtime w ((m.sp + 1) % 65536) ≡ (high, w')
      → low < 256
      → high < 256
      → run_exit runtime (join_terminator (returner_type r) j) m
        ≡ some (
            enabled r (record (tick j.base_m_cycles m) {
              pc = high * 256 + low;
              sp = (m.sp + 2) % 65536;
              world = w';
            }))
  ret-eq returns j m low high w w' e f k h = rw (e, f, or_add high low h k, above_twice m.sp) refl
  ret-eq returns_enabled j m low high w w' e f k h =
      rw (e, f, or_add high low h k, above_twice m.sp) refl

-- A subroutine's body that leaves the stack pointer, and what is from there on below the echo of
-- work RAM, as they were.
pub record KeepsFrame {W : Type 0} (runtime : Runtime W) (body : Machine W → Machine W)
    : Type 0 where
  pub same_sp : (m : Machine W) → (body m).sp ≡ m.sp
  pub same_bytes :
      (m : Machine W) (b : ℕ)
      → m.sp ≤ b
      → b < 0xE000
      → runtime.ram (body m).world b ≡ runtime.ram m.world b

module _ {W : Type 0} (runtime : Runtime W) where
  abbrev after_call : Caller → Instruction → Machine W → Machine W
  after_call c i m =
      record (tick i.base_m_cycles
        (pushed runtime ((i.address + i.length) / 256) ((i.address + i.length) % 256) m)) {
          pc = destination c i;
        }

  frame_low :
      (keeps : KeepsRam runtime) (c : Caller) (i : Instruction) (m : Machine W)
      → 0xC002 ≤ m.sp
      → m.sp ≤ 0xE000
      → runtime.ram (after_call c i m).world (m.sp - 2) ≡ (i.address + i.length) % 256
  frame_low keeps c i m lo hi =
      let first = (m.sp + 65535) % 65536 in
      let second = (m.sp + 65534) % 65536 in
      let w = runtime.write_ram m.world first ((i.address + i.length) / 256) in
      ground (arith, keeps w second ((i.address + i.length) % 256) (m.sp - 2))

  frame_high :
      (keeps : KeepsRam runtime) (c : Caller) (i : Instruction) (m : Machine W)
      → 0xC002 ≤ m.sp
      → m.sp ≤ 0xE000
      → i.address + i.length < 2 ^ 16
      → runtime.ram (after_call c i m).world (m.sp - 1) ≡ (i.address + i.length) / 256
  frame_high keeps c i m lo hi fits =
      let first = (m.sp + 65535) % 65536 in
      let second = (m.sp + 65534) % 65536 in
      let w = runtime.write_ram m.world first ((i.address + i.length) / 256) in
      ground (
        arith,
        keeps w second ((i.address + i.length) % 256) (m.sp - 1),
        keeps m.world first ((i.address + i.length) / 256) (m.sp - 1),
      )

  -- If work RAM keeps what is written to it, the stack pointer is from 0xC002 to 0xE000 and the
  -- address behind the instruction fits 16 bits, then the code that joinBlocks emits for CALL nn and
  -- RST leads to their destination; and after any body that keeps the stack pointer and the bytes
  -- from it on, the code for RET and RETI leads back to the address behind the call, with the stack
  -- pointer from before it, RETI with interrupts enabled, and nothing but the cycles changed of what
  -- the body left.
  pub call_ret :
      (c : Caller) (r : Returner) (i j : Instruction) (body : Machine W → Machine W) (m : Machine W)
      → KeepsRam runtime
      → KeepsFrame runtime body
      → 0xC002 ≤ m.sp
      → m.sp ≤ 0xE000
      → i.address + i.length < 2 ^ 16
      → (m' : Machine W) × (run_exit runtime (join_terminator (caller_type c) i) m ≡ some m')
        × (m'.pc ≡ destination c i)
        × (run_exit runtime (join_terminator (returner_type r) j) (body m')
            ≡ some (
                enabled r (record (tick j.base_m_cycles (body m')) {
                  pc = i.address + i.length;
                  sp = m.sp;
                })))
  call_ret c r i j body m keeps frame lo hi fits =
      let m' = after_call c i m in
      let here : (body m').sp ≡ m.sp - 2 = omega (arith, frame.same_sp m') in
      let low : runtime.ram (body m').world (m.sp - 2) ≡ (i.address + i.length) % 256 =
        frame.same_bytes m' (m.sp - 2) (omega arith) (omega arith) ∙ frame_low keeps c i m lo hi in
      let high : runtime.ram (body m').world (m.sp - 1) ≡ (i.address + i.length) / 256 =
        frame.same_bytes m' (m.sp - 1) (omega arith) (omega arith)
        ∙ frame_high keeps c i m lo hi fits in
      let up : (m.sp - 2 + 1) % 65536 ≡ m.sp - 1 = omega arith in
      let under : leb 0xE000 (m.sp - 2) ≡ false = ground arith in
      let under' : leb 0xE000 (m.sp - 1) ≡ false = ground arith in
      let e : cg_read_memory runtime (body m').world (body m').sp
          ≡ ((i.address + i.length) % 256, (body m').world) =
        rw (here, under, low) refl in
      let f : cg_read_memory runtime (body m').world (((body m').sp + 1) % 65536)
          ≡ ((i.address + i.length) / 256, (body m').world) =
        rw (here, up, under', high) refl in
      let whole : (i.address + i.length) / 256 * 256 + (i.address + i.length) % 256
          ≡ i.address + i.length =
        omega arith in
      let back : ((body m').sp + 2) % 65536 ≡ m.sp = omega (arith, here) in
      let at_end : ℕ → ℕ → Option (Machine W) =
        λ pc sp. some (enabled r (record (tick j.base_m_cycles (body m')) { pc = pc; sp = sp })) in
      (
        m',
        call-eq runtime c i m fits,
        refl,
        ret-eq runtime r j (body m') ((i.address + i.length) % 256) ((i.address + i.length) / 256)
              (body m').world (body m').world e f (omega arith) (omega arith)
            ∙ ap (λ pc. at_end pc (((body m').sp + 2) % 65536)) whole
            ∙ ap (at_end (i.address + i.length)) back,
      )
