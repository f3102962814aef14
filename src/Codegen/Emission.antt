-- ===== src/Codegen/Emission.antt =====
-- Emitting the calls of a block: no error, the function of each mnemonic once, and the code of the
-- function that is found by its mnemonic.
pub mod Blocks
pub mod Join
pub mod Dispatch
use Prim.Native.String.{String}
use text.Mathlib.Text.{◌==◌ as str_eq}
use text.Mathlib.TextEquality.{eq_iff}
use text.Mathlib.TextPositions.{eq_refl}
use gbrc.Common.{
  ℕ, ◌+◌, ◌≡◌, ◌≢◌, inl, inr, refl, sym, ap, subst, ◌∙◌, false, if◌then◌else◌, some, none, List, [],
  ◌∷◌, ◌++◌, All, All-map, All-append, Pairs, Pairs-append, Bool-cases, Option-cases,
}
use gbrc.Rom.{Rom}
use gbrc.Rom.Image.{IsImage}
use gbrc.Decoder.Types.{Instruction}
use gbrc.Analyzer.Flow.{is_block_terminator}
use gbrc.Analyzer.Chain.{Sits, Chain}
use gbrc.Codegen.Opcodes.{arguments}
use gbrc.Codegen.Assembly.{
  emitted, Func, Call, Segment, new_call, plain, Codegen, mnemonic_to_func_name, add_instr_func,
  emit_instruction, emit_calls, no_code,
}
use gbrc.Codegen.Catalogue.{IsCatalogued, called-IsCatalogued, code_for, mnemonic_for}
use gbrc.Codegen.Compiled.{IsCallOf, Compiled, pc_update}

abbrev pub Differ : Func → Func → Type 0
Differ f g = f.name ≢ g.name

-- What is kept under a mnemonic: the code for it, and a name that leads back to it.
pub record IsFuncFor (k : String) (f : Func) : Type 0 where
  pub code : code_for k ≡ some (f.parameter, f.code)
  pub name : f.name ≡ mnemonic_to_func_name k
  pub back : mnemonic_for f.name ≡ some k

pub record IsCached (cg : Codegen) : Type 0 where
  pub holds : (k : String) (f : Func) → cg.instr_funcs k ≡ some f → IsFuncFor k f
  pub kept : All (λ f. (k : String) × (cg.instr_funcs k ≡ some f)) cg.module_funcs
  pub distinct : Pairs Differ cg.module_funcs

pub no_code-IsCached : IsCached no_code
no_code-IsCached = record { holds = λ k f e. cc; kept = tt; distinct = tt }

-- What emitting an instruction leaves as it was.
pub record Keeps (cg cg' : Codegen) : Type 0 where
  pub cached : IsCached cg'
  pub main : cg'.main ≡ cg.main
  pub ir_blocks : cg'.ir_blocks ≡ cg.ir_blocks

Keeps-trans : (a b c : Codegen) → Keeps a b → Keeps b c → Keeps a c
Keeps-trans a b c h k = record {
  cached = k.cached;
  main = k.main ∙ h.main;
  ir_blocks = k.ir_blocks ∙ h.ir_blocks;
}

abbrev with_func : Codegen → Instruction → Func → Codegen
with_func cg i f = record cg {
  module_funcs = cg.module_funcs ++ f ∷ [];
  instr_funcs = λ k. if str_eq k i.mnemonic then some f else cg.instr_funcs k;
}

-- A mnemonic that is found is another than one that is not.
found_elsewhere :
    (cg : Codegen) (i : Instruction) (f g : Func) (k : String)
    → cg.instr_funcs i.mnemonic ≡ none
    → cg.instr_funcs k ≡ some g
    → (with_func cg i f).instr_funcs k ≡ some g
found_elsewhere cg i f g k miss e = elim (Bool-cases (str_eq k i.mnemonic)) [
  | inl same ↦
      let p : k ≡ i.mnemonic = (eq_iff k i.mnemonic).0 same in
      let q : cg.instr_funcs k ≡ none = rw p miss in cc
  | inr other ↦ rw other e
]

added-IsFuncFor :
    (cg : Codegen) (i : Instruction) (f g : Func) (k : String)
    → IsCached cg
    → IsFuncFor i.mnemonic f
    → (with_func cg i f).instr_funcs k ≡ some g
    → IsFuncFor k g
added-IsFuncFor cg i f g k h is e = elim (Bool-cases (str_eq k i.mnemonic)) [
  | inl same ↦
      let p : k ≡ i.mnemonic = (eq_iff k i.mnemonic).0 same in
      let q : some f ≡ some g = rw same at e in
      let r : f ≡ g = cc in subst (λ s. IsFuncFor s g) (sym p) (subst (IsFuncFor i.mnemonic) r is)
  | inr other ↦ h.holds k g (rw other at e)
]

-- A mnemonic without a function gets one.
with_func-IsCached :
    (cg : Codegen) (i : Instruction) (f : Func)
    → IsCached cg
    → cg.instr_funcs i.mnemonic ≡ none
    → IsFuncFor i.mnemonic f
    → IsCached (with_func cg i f)
with_func-IsCached cg i f h miss is = record {
  holds = λ k g e. added-IsFuncFor cg i f g k h is e;
  kept =
      All-append _ cg.module_funcs (f ∷ [])
        (All-map _ _ (λ g t. (t.0, found_elsewhere cg i f g t.0 miss t.1)) cg.module_funcs h.kept)
        ((i.mnemonic, rw (eq_refl i.mnemonic) refl), tt);
  distinct = Pairs-append Differ cg.module_funcs f h.distinct (
      All-map _ (λ g. Differ g f)
        (λ g t. λ same.
          let back = (h.holds t.0 g t.1).back in
          let p : some t.0 ≡ some i.mnemonic = sym back ∙ ap mnemonic_for same ∙ is.back in
          let q : t.0 ≡ i.mnemonic = cc in
          let r : cg.instr_funcs t.0 ≡ none = rw q miss in let found = t.1 in cc)
        cg.module_funcs h.kept);
}

pub record IsEmitted (cg : Codegen) (i : Instruction) : Type 0 where
  pub call : Call
  pub next : Codegen
  pub emits : emit_instruction cg i ≡ emitted (call, next)
  pub stands : IsCallOf i call
  pub keeps : Keeps cg next

emit_instruction-IsEmitted :
    (cg : Codegen) (i : Instruction) → IsCached cg → IsCatalogued i → IsEmitted cg i
unfolding emit_instruction
emit_instruction-IsEmitted cg i h cat = elim (Option-cases (cg.instr_funcs i.mnemonic)) [
  | inl miss ↦
      let f : Func = record {
        name = mnemonic_to_func_name i.mnemonic;
        parameter = cat.parts.0;
        code = cat.parts.1;
      } in
      record {
        call = record { ir_func = f; args = arguments i.instruction_type i };
        next = with_func cg i f;
        emits = rw (miss, add_instr_func, cat.body) refl;
        stands = record { body = cat.body; argument = refl };
        keeps = record {
          cached =
              with_func-IsCached cg i f h miss
                (record { code = cat.code; name = refl; back = cat.name });
          main = refl;
          ir_blocks = refl;
        };
      }
  | inr (f, hit) ↦
      let is = h.holds i.mnemonic f hit in
      record {
        call = record { ir_func = f; args = arguments i.instruction_type i };
        next = cg;
        emits = rw hit refl;
        stands = record { body = cat.body ∙ sym cat.code ∙ is.code; argument = refl };
        keeps = record { cached = h; main = refl; ir_blocks = refl };
      }
]

pub record AreEmitted (cg : Codegen) (is : List Instruction) : Type 0 where
  pub segments : List Segment
  pub next : Codegen
  pub emits : emit_calls cg is ≡ emitted (segments, next)
  pub compiled : Compiled is segments
  pub keeps : Keeps cg next

module _ (rom : Rom) (image : IsImage rom) where
  Sits-IsCatalogued :
      (a : ℕ) (i : Instruction) → Sits rom a i → is_block_terminator i ≡ false → IsCatalogued i
  Sits-IsCatalogued a i h t = called-IsCatalogued rom a i image h.decoded (rw (h.known, t) refl)

  pub emit_calls-AreEmitted :
      (cg : Codegen) (a stop : ℕ) (is : List Instruction)
      → IsCached cg
      → Chain rom a is stop
      → AreEmitted cg is
  unfolding emit_calls
  emit_calls-AreEmitted cg a stop [] h chain = record {
    segments = [];
    next = cg;
    emits = refl;
    compiled = refl;
    keeps = record { cached = h; main = refl; ir_blocks = refl };
  }
  emit_calls-AreEmitted cg a stop (i ∷ is) h chain = elim (Bool-cases (is_block_terminator i)) [
    | inl t ↦
        let r = emit_calls-AreEmitted cg (a + i.length) stop is h chain.1 in
        record {
          segments = r.segments;
          next = r.next;
          emits = rw (t, emit_calls) r.emits;
          compiled = inl (t, r.compiled);
          keeps = r.keeps;
        }
    | inr t ↦
        let one = emit_instruction-IsEmitted cg i h (Sits-IsCatalogued a i chain.0 t) in
        let r = emit_calls-AreEmitted one.next (a + i.length) stop is one.keeps.cached chain.1 in
        record {
          segments = new_call one.call ∷ plain (pc_update i.length) ∷ r.segments;
          next = r.next;
          emits = rw (t, emit_calls, one.emits, r.emits) refl;
          compiled = inr (t, one.call, r.segments, refl, one.stands, r.compiled);
          keeps = Keeps-trans cg one.next r.next one.keeps r.keeps;
        }
  ]
