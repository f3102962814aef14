-- ===== src/Codegen/Compiled.antt =====
-- What the segments of a block are made of, and that running them is running the processor.
use gbrc.Common.{
  ℕ, suc, ◌+◌, ◌≡◌, ◌⊎◌, inl, inr, refl, sym, ap, ◌∙◌, arith, true, false, if◌then◌else◌, Option,
  some, none, List, [], ◌∷◌, length,
}
use gbrc.Rom.{Rom}
use gbrc.Rom.Image.{IsImage}
use gbrc.Decoder.Types.{Instruction}
use gbrc.Analyzer.Flow.{is_block_terminator}
use gbrc.Analyzer.Chain.{Sits, Chain, Plain, Straight, last?}
use gbrc.Codegen.Ir.{i16, add, Global, global, new_int, local, load, store, binary, Inst}
use gbrc.Codegen.Machine.{Runtime, Machine, Datum, exec}
use gbrc.Codegen.Opcodes.{arguments, emit_opcode}
use gbrc.Codegen.Build.{Build}
use gbrc.Codegen.Alu.{run}
use gbrc.Codegen.Exits.{join_terminator}
use gbrc.Codegen.Leave.{run_exit}
use gbrc.Codegen.Total.{call, argument_of, decoded_runs}
use gbrc.Codegen.Assembly.{built, Call, Segment, new_call, plain}
use gbrc.Codegen.Catalogue.{body_of}
use gbrc.Codegen.Execution.{run_segments, run_call}
use gbrc.Codegen.Cpu.{◌>>=◌, advance, cpu_step, cpu_steps}

abbrev pub pc_update : ℕ → List Inst
pc_update n =
    load i16 (global Global.pc)
    ∷ binary add (local 0) (new_int i16 n)
    ∷ store (local 1) (global Global.pc)
    ∷ []

-- The call that stands for an instruction.
pub record IsCallOf (i : Instruction) (c : Call) : Type 0 where
  pub body : body_of i ≡ some (c.ir_func.parameter, c.ir_func.code)
  pub argument : c.args ≡ arguments i.instruction_type i

-- The segments of some instructions: a call and an update of `pc` for each that is no terminator.
abbrev pub Compiled : List Instruction → List Segment → Type 0
Compiled [] segs = segs ≡ []
Compiled (i ∷ is) segs =
    ((is_block_terminator i ≡ true) × Compiled is segs)
    ⊎ ((is_block_terminator i ≡ false)
        × (c : Call) × (rest : List Segment) × (segs
            ≡ new_call c ∷ plain (pc_update i.length) ∷ rest)
        × IsCallOf i c
        × Compiled is rest)

module _ {W : Type 0} (runtime : Runtime W) where
  -- Code that is built runs as it is kept.
  pub run-built :
      {A : Type 0} (build : Build A) (argument : Option Datum) (m : Machine W) (a : A)
      (insts : List Inst)
      → built build ≡ some (a, insts)
      → run runtime argument build m ≡ exec runtime argument [] m insts
  run-built build argument m a insts e = rw (run, e) refl

module _ {W : Type 0} (runtime : Runtime W) (rom : Rom) (image : IsImage rom) where
  -- What is left to do after the segments: the last instruction, if it is a terminator.
  abbrev pub conclude : Option Instruction → Machine W → Option (Machine W)
  conclude none m = some m
  conclude (some i) m =
      if is_block_terminator i
      then run_exit runtime (join_terminator i.instruction_type i) m
      else some m

  pub record Runs (a stop : ℕ) (is : List Instruction) (segs : List Segment) (m : Machine W)
      : Type 0 where
    pub after : Machine W
    pub ran : run_segments runtime segs m ≡ some after
    pub steps : cpu_steps runtime rom (length is) m ≡ conclude (last? is) after
    pub at : Plain is → after.pc ≡ stop

  -- A step where an instruction sits.
  pub cpu_step_lem :
      (a : ℕ) (i : Instruction) (m : Machine W)
      → Sits rom a i
      → m.pc ≡ a
      → cpu_step runtime rom m ≡ (
          if is_block_terminator i
          then run_exit runtime (join_terminator i.instruction_type i) m
          else (call runtime i m >>= λ m'. some (advance runtime rom i.length m')))
  cpu_step_lem a i m h e = rw (e, h.decoded)

  call-run_call :
      (i : Instruction) (c : Call) (m : Machine W)
      → IsCallOf i c
      → call runtime i m ≡ run_call runtime c m
  call-run_call i c m h =
      run-built runtime (emit_opcode i.instruction_type i)
        (argument_of runtime (arguments i.instruction_type i)) m c.ir_func.parameter c.ir_func.code
        h.body
      ∙ ap (λ o. exec runtime (argument_of runtime o) [] m c.ir_func.code) (sym h.argument)

  bind_some : (o : Option (Machine W)) → (o >>= some) ≡ o
  bind_some none = refl
  bind_some (some m) = refl

  -- One call and its update of `pc` are one step of the processor.
  record Stepped (a n : ℕ) (i : Instruction) (c : Call) (rest : List Segment) (m : Machine W)
      : Type 0 where
    pub after : Machine W
    pub ran :
        run_segments runtime (new_call c ∷ plain (pc_update i.length) ∷ rest) m
        ≡ run_segments runtime rest after
    pub steps : cpu_steps runtime rom (suc n) m ≡ cpu_steps runtime rom n after
    pub at : after.pc ≡ a + i.length

  call-Stepped :
      (a n : ℕ) (i : Instruction) (c : Call) (rest : List Segment) (m : Machine W)
      → Sits rom a i
      → is_block_terminator i ≡ false
      → IsCallOf i c
      → m.pc ≡ a
      → Stepped a n i c rest m
  unfolding cpu_steps
  call-Stepped a n i c rest m h t is_call e =
      let (m', ran, pc, _) = decoded_runs runtime m rom a i image h.decoded h.known t in
      record {
        after = advance runtime rom i.length m';
        ran = rw (sym (call-run_call i c m is_call) ∙ ran, run_segments) refl;
        steps = rw (cpu_step_lem a i m h e, t, ran) refl;
        at = omega (arith, pc, e, h.inside, h.short);
      }

  -- The segments do the calls, and then only the terminator is left.
  pub segments-Runs :
      (a stop : ℕ) (is : List Instruction) (segs : List Segment) (m : Machine W)
      → Chain rom a is stop
      → Straight is
      → Compiled is segs
      → m.pc ≡ a
      → Runs a stop is segs m
  unfolding cpu_steps
  segments-Runs a stop [] segs m chain straight compiled e = record {
    after = m;
    ran = rw compiled;
    steps = refl;
    at = λ p. e ∙ chain;
  }
  segments-Runs a stop (i ∷ []) segs m chain straight (inl (t, none_left)) e = record {
    after = m;
    ran = rw none_left;
    steps = bind_some _ ∙ cpu_step_lem a i m chain.0 e ∙ rw t refl;
    at = λ p. cc;
  }
  segments-Runs a stop (i ∷ []) segs m chain straight (inr (t, c, rest, split, is_call, compiled))
        e =
      let s = call-Stepped a 0 i c rest m chain.0 t is_call e in
      record {
        after = s.after;
        ran = rw (split, s.ran, compiled) refl;
        steps = s.steps ∙ rw t refl;
        at = λ p. s.at ∙ chain.1;
      }
  segments-Runs a stop (i ∷ (j ∷ is)) segs m chain straight (inl (t, compiled)) e = cc
  segments-Runs a stop (i ∷ (j ∷ is)) segs m chain straight
        (inr (t, c, rest, split, is_call, compiled)) e =
      let s = call-Stepped a (suc (length is)) i c rest m chain.0 t is_call e in
      let r =
        segments-Runs (a + i.length) stop (j ∷ is) rest s.after chain.1 straight.1 compiled s.at in
      record {
        after = r.after;
        ran = rw (split, s.ran) r.ran;
        steps = s.steps ∙ r.steps;
        at = λ p. r.at p.1;
      }
