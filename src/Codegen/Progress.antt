-- ===== src/Codegen/Progress.antt =====
-- The processor on a block: it goes through, and the cycles grow.
use gbrc.Common.{
  ℕ, ◌+◌, ◌*◌, ◌%◌, ◌^◌, ◌≤◌, ◌≡◌, ◌≢◌, inl, inr, refl, arith, false, Bool-cases, some, List, [],
  ◌∷◌, length, ◌∙◌,
}
use gbrc.Rom.{Rom}
use gbrc.Rom.Image.{IsImage}
use gbrc.Decoder.Types.{Instruction}
use gbrc.Decoder.Cycles.{decoded_cycles}
use gbrc.Analyzer.Flow.{is_block_terminator}
use gbrc.Analyzer.Chain.{Sits, Chain, Plain, Straight}
use gbrc.Codegen.Machine.{Runtime, Machine}
use gbrc.Codegen.Exits.Runs.{terminator_runs}
use gbrc.Codegen.Total.{decoded_runs}
use gbrc.Codegen.Cpu.{advance, cpu_step, cpu_steps}

module _ {W : Type 0} (runtime : Runtime W) (rom : Rom) (image : IsImage rom) where
  -- A step from `m`, by an instruction of 1 to 6 cycles.
  pub record Advanced (i : Instruction) (m : Machine W) : Type 0 where
    pub after : Machine W
    pub went : cpu_step runtime rom m ≡ some after
    pub took : ℕ
    pub at_least : 1 ≤ took
    pub at_most : took ≤ 6
    pub clock : after.cycles ≡ (m.cycles + took) % 2 ^ 32
    pub next : is_block_terminator i ≡ false → after.pc ≡ m.pc + i.length

  pub step-Advanced : (i : Instruction) (m : Machine W) → Sits rom m.pc i → Advanced i m
  step-Advanced i m h =
      let (low, high) = decoded_cycles rom m.pc i image h.decoded h.known in
      elim (Bool-cases (is_block_terminator i)) [
        | inl jumps ↦
            let (m', ran, timed) = terminator_runs runtime m rom m.pc i image h.decoded jumps in
            elim timed [
              | inl base ↦ record {
                after = m';
                went = rw (h.decoded, jumps) ran;
                took = i.base_m_cycles;
                at_least = low;
                at_most = omega (arith, high);
                clock = base;
                next = λ e. cc;
              }
              | inr (_, more) ↦ record {
                after = m';
                went = rw (h.decoded, jumps) ran;
                took = i.base_m_cycles + i.additional_m_cycles;
                at_least = omega (arith, low);
                at_most = high;
                clock = omega (arith, more);
                next = λ e. cc;
              }
            ]
        | inr runs ↦
            let (m', ran, pc, clock) =
              decoded_runs runtime m rom m.pc i image h.decoded h.known runs in
            record {
              after = advance runtime rom i.length m';
              went = rw (h.decoded, runs, ran) refl;
              took = i.base_m_cycles;
              at_least = low;
              at_most = omega (arith, high);
              clock = clock;
              next = λ e. omega (arith, pc, h.inside, h.short);
            }
      ]

  -- For every image, and every stretch of its instructions one behind the other in which none but
  -- the last is a block terminator: the processor, at the first of them, goes through all of them,
  -- and the cycles grow, modulo 2 ^ 32, by at least one and at most six for each.
  pub cpu_steps_lem :
      (a stop : ℕ) (is : List Instruction) (m : Machine W)
      → Chain rom a is stop
      → Straight is
      → is ≢ []
      → m.pc ≡ a
      → (m' : Machine W) × (cpu_steps runtime rom (length is) m ≡ some m')
        × (n : ℕ) × (length is ≤ n)
        × (n ≤ 6 * length is)
        × (m'.cycles ≡ (m.cycles + n) % 2 ^ 32)
  unfolding cpu_steps
  cpu_steps_lem a stop [] m chain straight ne e = absurd (ne refl)
  cpu_steps_lem a stop (i ∷ []) m chain straight ne e =
      let s = step-Advanced i m (rw e chain.0) in
      (s.after, rw s.went refl, s.took, s.at_least, s.at_most, s.clock)
  cpu_steps_lem a stop (i ∷ (j ∷ is)) m chain straight ne e =
      let s = step-Advanced i m (rw e chain.0) in
      let (m', ran, n, low, high, clock) =
        cpu_steps_lem (a + i.length) stop (j ∷ is) s.after chain.1 straight.1 (λ f. cc)
          (omega (arith, s.next straight.0, e)) in
      (
        m',
        rw s.went ran,
        s.took + n,
        omega (arith, low, s.at_least),
        omega (arith, high, s.at_most),
        omega (arith, clock, s.clock),
      )

  -- Past instructions none of which is a terminator, `pc` is where they stop.
  pub cpu_steps-Plain :
      (a stop : ℕ) (is : List Instruction) (m m' : Machine W)
      → Chain rom a is stop
      → Plain is
      → m.pc ≡ a
      → cpu_steps runtime rom (length is) m ≡ some m'
      → m'.pc ≡ stop
  unfolding cpu_steps
  cpu_steps-Plain a stop [] m m' chain plain e ran = let q : m ≡ m' = cc in rw (← q) (e ∙ chain)
  cpu_steps-Plain a stop (i ∷ is) m m' chain plain e ran =
      let s = step-Advanced i m (rw e chain.0) in
      cpu_steps-Plain (a + i.length) stop is s.after m' chain.1 plain.1
        (omega (arith, s.next plain.0, e)) (rw s.went at ran)
