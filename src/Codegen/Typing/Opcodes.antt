-- ===== src/Codegen/Typing/Opcodes.antt =====
-- The typing of the functions that New emits.
use gbrc.Common.{
  ℕ, ◌≡◌, refl, subst, ◌∙◌, Bool, true, false, ◌&&◌, if◌then◌else◌, Option, some, none, List, [],
  All, Run, done, panic, out_of_fuel, table, Option-cases, inl, inr,
}
use gbrc.Rom.{Rom}
use gbrc.Rom.Image.{IsImage}
use gbrc.Decoder.Types.{Instruction}
use gbrc.Decoder.Switch.{decode_opcode}
use gbrc.Decoder.Cb.{decode_cb_prefixed_opcode}
use gbrc.Decoder.Cache.{decode_fresh}
use gbrc.Decoder.Every.{decode_fresh_ext}
use gbrc.Analyzer.Flow.{is_block_terminator}
use gbrc.Codegen.Ir.{Width, Value, new_int, Inst}
use gbrc.Codegen.Machine.{Runtime, Machine}
use gbrc.Codegen.Opcodes.{arguments, emit_opcode}
use gbrc.Codegen.Total.{call, argument_of}
use gbrc.Codegen.Compiled.{run-built}
use gbrc.Codegen.Catalogue.{is_called, Body, body_of}
use gbrc.Codegen.Typing.Arguments.{FitsArgument, decoded-FitsArgument}
use gbrc.Codegen.Typing.{
  same_width, Kind, kind_of, check_all, all_fit, &&-split, all_fit-All, FitsInst,
}
use gbrc.Codegen.Typing.Sized.{IsSized, Meets, value_of-Meets}
use gbrc.Codegen.Typing.Steps.{GivesBytes}
use gbrc.Codegen.Typing.Sound.{exec-IsSized}

-- The kind of the argument, where the call has one.
abbrev argument_kind : Option Value → Option Kind
argument_kind none = none
argument_kind (some v) = kind_of none [] v

abbrev pub is_some : {A : Type 0} → Option A → Bool
is_some none = false
is_some (some _) = true

-- A call has an argument just where the function is declared with a parameter, and of its type.
abbrev agrees : Option Width → Option Value → Bool
agrees none none = true
agrees (some declared) (some (new_int given n)) = same_width declared given
agrees _ _ = false

abbrev typed_code : Option Value → Option Body → Bool
typed_code argument none = false
typed_code argument (some (parameter, code)) =
    agrees parameter argument
    && (is_some (check_all (argument_kind argument) [] code) && all_fit code)

abbrev typed : Run Instruction → Bool
typed (done i) =
    if is_called i then typed_code (arguments i.instruction_type i) (body_of i) else true
typed panic = true
typed out_of_fuel = true

pub is_some-some : {A : Type 0} (o : Option A) → is_some o ≡ true → (a : A) × (o ≡ some a)
is_some-some none e = cc
is_some-some (some a) e = (a, refl)

module _ (rom : Rom) (addr : ℕ) where
  typed-plain : table 256 (λ op. typed (decode_opcode rom op addr)) ≡ table 256 (λ op. true)
  unfolding decode_opcode is_block_terminator
  typed-plain = refl

  typed-prefixed :
      table 256 (λ op. typed (decode_cb_prefixed_opcode op addr)) ≡ table 256 (λ op. true)
  unfolding decode_cb_prefixed_opcode is_block_terminator
  typed-prefixed = refl

-- The function of an instruction and the argument of its call are typed.
pub record IsTyped (i : Instruction) : Type 0 where
  pub parameter : Option Width
  pub insts : List Inst
  pub body : body_of i ≡ some (parameter, insts)
  pub takes : agrees parameter (arguments i.instruction_type i) ≡ true
  pub kinds : List Kind
  pub checked : check_all (argument_kind (arguments i.instruction_type i)) [] insts ≡ some kinds
  pub fits : All FitsInst insts
  pub fits_argument : FitsArgument (arguments i.instruction_type i)

typed_code-IsTyped :
    (i : Instruction)
    → typed_code (arguments i.instruction_type i) (body_of i) ≡ true
    → FitsArgument (arguments i.instruction_type i)
    → IsTyped i
typed_code-IsTyped i e fits = elim (Option-cases (body_of i)) [
  | inl no_body ↦ let f : false ≡ true = rw no_body at e in cc
  | inr ((parameter, insts), body) ↦
      let all : (agrees parameter (arguments i.instruction_type i)
            && (is_some (check_all (argument_kind (arguments i.instruction_type i)) [] insts)
                && all_fit insts))
          ≡ true =
        rw body at e in
      let (takes, both) = &&-split _ _ all in
      let (checked, small) = &&-split _ (all_fit insts) both in
      let (kinds, kinds_of) = is_some-some _ checked in
      record {
        parameter = parameter;
        insts = insts;
        body = body;
        takes = takes;
        kinds = kinds;
        checked = kinds_of;
        fits = all_fit-All insts small;
        fits_argument = fits;
      }
]

-- For every image and every instruction that is decoded from it, known and no block terminator: a
-- function is emitted for it without an error, and it and its call are typed as LLVM asks: the call
-- has an argument just where the function is declared with a parameter, and of the declared width;
-- with that parameter, which is below the bound that the argument gives, each operand is defined and has
-- the width that the operation takes, each address is of a global of the width that is loaded or
-- stored, each amount of a shift is below the width, and no constant and no argument has more digits
-- than its width.
pub decoded-IsTyped :
    (rom : Rom) (addr : ℕ) (i : Instruction)
    → IsImage rom
    → decode_fresh rom addr ≡ done i
    → is_called i ≡ true
    → IsTyped i
decoded-IsTyped rom addr i image decoded h =
    let checked : typed (done i) ≡ true =
      subst (λ r. typed r ≡ true) decoded
        (decode_fresh_ext rom addr typed (λ _. true) image (typed-plain rom addr)
          (typed-prefixed rom addr)) in
    typed_code-IsTyped i (rw h at checked) (decoded-FitsArgument rom addr i image decoded h)

module _ {W : Type 0} (runtime : Runtime W) (bytes : GivesBytes runtime) where
  argument-Meets :
      (v : Option Value) → FitsArgument v → Meets (argument_kind v) (argument_of runtime v)
  argument-Meets none fits = tt
  argument-Meets (some v) fits = value_of-Meets runtime none none [] [] v tt tt fits

  -- Such a call runs to the end, and leaves every global within its width.
  pub call-IsSized :
      (i : Instruction) (m : Machine W)
      → IsTyped i
      → IsSized m
      → (m' : Machine W) × (call runtime i m ≡ some m') × IsSized m'
  call-IsSized i m h sized =
      let argument = arguments i.instruction_type i in
      let (m', ran, sized') =
        exec-IsSized runtime bytes (argument_kind argument) (argument_of runtime argument)
          (argument-Meets argument h.fits_argument) h.insts [] h.kinds [] m sized tt h.fits
          h.checked in
      (
        m',
        run-built runtime (emit_opcode i.instruction_type i) (argument_of runtime argument) m
              h.parameter h.insts h.body
            ∙ ran,
        sized',
      )
