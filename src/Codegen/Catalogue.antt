-- ===== src/Codegen/Catalogue.antt =====
-- The instructions that are called in blocks, by their mnemonics: a mnemonic determines the code of
-- its function, with its declared parameter, and the function's name determines the mnemonic.
use Prim.Native.String.{String}
use text.Mathlib.Text.{◌==◌ as str_eq}
use gbrc.Common.{
  ℕ, zero, suc, ◌≡◌, refl, sym, ap, subst, ◌∙◌, Bool, true, false, if◌then◌else◌, Option, some,
  none, List, [], ◌∷◌, ◌++◌, Run, done, panic, out_of_fuel, table,
}
use gbrc.Rom.{Rom}
use gbrc.Rom.Image.{IsImage}
use gbrc.Decoder.Types.{Instruction}
use gbrc.Decoder.Facts.{is_unknown}
use gbrc.Decoder.Switch.{decode_opcode}
use gbrc.Decoder.Cb.{decode_cb_prefixed_opcode}
use gbrc.Decoder.Cache.{decode_fresh}
use gbrc.Decoder.Every.{decode_fresh_ext}
use gbrc.Analyzer.Flow.{is_block_terminator}
use gbrc.Codegen.Ir.{Width, Inst}
use gbrc.Codegen.Opcodes.{emit_opcode}
use gbrc.Codegen.Assembly.{built, mnemonic_to_func_name}

-- A known instruction that is no terminator.
abbrev pub is_called : Instruction → Bool
is_called i =
    if is_unknown i.instruction_type then false else if is_block_terminator i then false else true

abbrev entry : Run Instruction → List Instruction
entry (done i) = if is_called i then i ∷ [] else []
entry panic = []
entry out_of_fuel = []

abbrev entries : ℕ → (ℕ → Run Instruction) → List Instruction
entries zero f = []
entries (suc n) f = entry (f n) ++ entries n f

abbrev empty_rom : Rom
empty_rom = record { bytes = [] }

catalogue : List Instruction
unfolding decode_opcode decode_cb_prefixed_opcode is_block_terminator
catalogue =
    entries 256 (λ op. decode_opcode empty_rom op 0)
    ++ entries 256 (λ op. decode_cb_prefixed_opcode op 0)

-- The declared parameter of a function, and its code.
abbrev pub Body : Type 0
Body = Option Width × List Inst

abbrev pub body_of : Instruction → Option Body
body_of i = built (emit_opcode i.instruction_type i)

abbrev code_in : List Instruction → String → Option Body
code_in [] k = none
code_in (i ∷ is) k = if str_eq i.mnemonic k then body_of i else code_in is k

abbrev mnemonic_in : List Instruction → String → Option String
mnemonic_in [] name = none
mnemonic_in (i ∷ is) name =
    if str_eq (mnemonic_to_func_name i.mnemonic) name then some i.mnemonic else mnemonic_in is name

-- The code of the function for a mnemonic, and the mnemonic of a function's name.
pub code_for : String → Option Body
code_for = code_in catalogue

pub mnemonic_for : String → Option String
mnemonic_for = mnemonic_in catalogue

-- What the table holds for an instruction: the code, where there is some, and the mnemonic.
abbrev expected : Run Instruction → Option (Bool × Option Body × Option String)
expected (done i) = if is_called i then some (true, body_of i, some i.mnemonic) else none
expected panic = none
expected out_of_fuel = none

abbrev has_code : Option Body → Bool
has_code none = false
has_code (some _) = true

abbrev found : Run Instruction → Option (Bool × Option Body × Option String)
found (done i) =
    if is_called i
    then some
        (has_code (body_of i), code_for i.mnemonic, mnemonic_for (mnemonic_to_func_name i.mnemonic))
    else none
found panic = none
found out_of_fuel = none

-- Of an instruction that is called: it has code, which is that of its mnemonic, and its function's
-- name is that of no other mnemonic.
pub record IsCatalogued (i : Instruction) : Type 0 where
  pub parts : Body
  pub body : body_of i ≡ some parts
  pub code : code_for i.mnemonic ≡ some parts
  pub name : mnemonic_for (mnemonic_to_func_name i.mnemonic) ≡ some i.mnemonic

some_inj : {A : Type 0} {a b : A} → some a ≡ some b → a ≡ b
some_inj e = cc

has_code-some : (o : Option Body) → has_code o ≡ true → (c : Body) × (o ≡ some c)
has_code-some none e = cc
has_code-some (some c) e = (c, refl)

open_called :
    {A : Type 0} (b : Bool) (x y : A)
    → b ≡ true
    → (if b then some x else none) ≡ (if b then some y else none)
    → x ≡ y
open_called b x y h e = some_inj (rw h at e)

module _ (rom : Rom) (addr : ℕ) where
  table-plain :
      table 256 (λ op. found (decode_opcode rom op addr))
      ≡ table 256 (λ op. expected (decode_opcode rom op addr))
  unfolding catalogue code_for mnemonic_for decode_opcode is_block_terminator
  table-plain = refl

  table-prefixed :
      table 256 (λ op. found (decode_cb_prefixed_opcode op addr))
      ≡ table 256 (λ op. expected (decode_cb_prefixed_opcode op addr))
  unfolding catalogue code_for mnemonic_for decode_cb_prefixed_opcode is_block_terminator
  table-prefixed = refl

  pub called-IsCatalogued :
      (i : Instruction)
      → IsImage rom
      → decode_fresh rom addr ≡ done i
      → is_called i ≡ true
      → IsCatalogued i
  called-IsCatalogued i image decoded h =
      let e : found (done i) ≡ expected (done i) =
        subst (λ r. found r ≡ expected r) decoded
          (decode_fresh_ext rom addr found expected image table-plain table-prefixed) in
      let t = open_called (is_called i) _ _ h e in
      let (c, body) = has_code-some (body_of i) (ap (λ p. p.0) t) in
      record { parts = c; body = body; code = ap (λ p. p.1) t ∙ body; name = ap (λ p. p.2) t }

-- For any two instructions that are decoded from an image, both known and no block terminators: with
-- one mnemonic they have one code and one declared parameter, so the function that `instrFuncs` keeps for the first is right for
-- the second; and with one function name they have one mnemonic, so no function is defined twice.
pub mnemonic_determines_code :
    (rom : Rom) (addr other : ℕ) (i j : Instruction)
    → IsImage rom
    → decode_fresh rom addr ≡ done i
    → decode_fresh rom other ≡ done j
    → is_called i ≡ true
    → is_called j ≡ true
    → (i.mnemonic ≡ j.mnemonic → body_of i ≡ body_of j)
      × (mnemonic_to_func_name i.mnemonic ≡ mnemonic_to_func_name j.mnemonic
          → i.mnemonic ≡ j.mnemonic)
mnemonic_determines_code rom addr other i j image e f h k =
    let ci = called-IsCatalogued rom addr i image e h in
    let cj = called-IsCatalogued rom other j image f k in
    (
      λ same. ci.body ∙ sym ci.code ∙ ap code_for same ∙ cj.code ∙ sym cj.body,
      λ same.
          let q : some i.mnemonic ≡ some j.mnemonic =
            sym ci.name ∙ ap mnemonic_for same ∙ cj.name in
          cc,
    )
