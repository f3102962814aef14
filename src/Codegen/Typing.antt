-- ===== src/Codegen/Typing.antt =====
-- What LLVM's verifier asks of the emitted instructions, as a check that does not run them: operands
-- of the right widths, addresses where addresses are due, and shifts by less than the width.
pub mod Sized
pub mod Bounds
pub mod Steps
pub mod Sound
pub mod Arguments
pub mod Opcodes
pub mod Exits
pub mod Leaves
pub mod Program
use gbrc.Common.{
  ◌≡◌, refl, arith, ltb, ◌&&◌, All, ℕ, suc, ◌^◌, ◌<◌, Bool, true, false, leb, if◌then◌else◌, Option,
  none, some, List, [], ◌∷◌, ◌++◌, get_elem?,
}
use gbrc.Codegen.Ir.{
  Width, i1, i8, i16, bits, Global, global_width, Value, new_int, param, global, local, Binary,
  Cast, Inst,
}
use gbrc.Codegen.Machine.{same_width, cast_fits}

-- What is known of a value before the code runs: a number of some width below some bound, the
-- address of a global, or nothing.
pub data Kind : Type 0 where
  number : Width → (bound : ℕ) → Kind
  address : Global → Kind
  nothing : Kind

-- Any number of a width.
abbrev pub any : Width → Kind
any w = number w (2 ^ bits w)

-- The bound of a shift's amount.
abbrev pub shift_fits : Binary → Width → ℕ → Bool
shift_fits Binary.shl w bound = leb bound (bits w)
shift_fits Binary.lshr w bound = leb bound (bits w)
shift_fits _ w bound = true

abbrev pub check_load : Width → Option Kind → Option Kind
check_load w (some (address g)) = if same_width w (global_width g) then some (any w) else none
check_load w _ = none

abbrev pub check_store : Option Kind → Option Kind → Option Kind
check_store (some (number w n)) (some (address g)) =
    if same_width w (global_width g) then some nothing else none
check_store _ _ = none

abbrev pub check_binary : Binary → Option Kind → Option Kind → Option Kind
check_binary op (some (number w n)) (some (number v k)) =
    if same_width w v then (if shift_fits op w k then some (any w) else none) else none
check_binary op _ _ = none

abbrev pub check_cast : Cast → Option Kind → Width → Option Kind
check_cast op (some (number w n)) v = if cast_fits op w v then some (any v) else none
check_cast op _ v = none

abbrev pub check_icmp : Option Kind → Option Kind → Option Kind
check_icmp (some (number w n)) (some (number v k)) = if same_width w v then some (any i1) else none
check_icmp _ _ = none

abbrev pub check_select : Option Kind → Option Kind → Option Kind → Option Kind
check_select (some (number i1 c)) (some (number w n)) (some (number v k)) =
    if same_width w v then some (any w) else none
check_select _ _ _ = none

abbrev pub check_read : Option Kind → Option Kind
check_read (some (number i16 n)) = some (any i8)
check_read _ = none

abbrev pub check_write : Option Kind → Option Kind → Option Kind
check_write (some (number i16 n)) (some (number i8 k)) = some nothing
check_write _ _ = none

module _ (argument : Option Kind) where
  abbrev pub kind_of : List Kind → Value → Option Kind
  kind_of kinds (new_int w n) = some (number w (suc n))
  kind_of kinds param = argument
  kind_of kinds (global g) = some (address g)
  kind_of kinds (local n) = get_elem? kinds n

  -- The kind of what an instruction computes, where it is typed.
  abbrev pub check : List Kind → Inst → Option Kind
  check kinds (Inst.load w p) = check_load w (kind_of kinds p)
  check kinds (Inst.store x p) = check_store (kind_of kinds x) (kind_of kinds p)
  check kinds (Inst.binary op x y) = check_binary op (kind_of kinds x) (kind_of kinds y)
  check kinds (Inst.cast op x w) = check_cast op (kind_of kinds x) w
  check kinds (Inst.icmp p x y) = check_icmp (kind_of kinds x) (kind_of kinds y)
  check kinds (Inst.select c x y) =
      check_select (kind_of kinds c) (kind_of kinds x) (kind_of kinds y)
  check kinds (Inst.call_read_mem a) = check_read (kind_of kinds a)
  check kinds (Inst.call_write_ram a x) = check_write (kind_of kinds a) (kind_of kinds x)

  -- The kinds behind a whole block of code.
  abbrev pub check_all : List Kind → List Inst → Option (List Kind)
  check_all kinds [] = some kinds
  check_all kinds (inst ∷ code) = elim (check kinds inst) [
    | none ↦ none
    | some k ↦ check_all (kinds ++ k ∷ []) code
  ]

-- Whether a constant has no more digits than its width.
abbrev pub fits_value : Value → Bool
fits_value (new_int w n) = ltb n (2 ^ bits w)
fits_value _ = true

abbrev fits_inst : Inst → Bool
fits_inst (Inst.load w p) = fits_value p
fits_inst (Inst.store x p) = fits_value x && fits_value p
fits_inst (Inst.binary op x y) = fits_value x && fits_value y
fits_inst (Inst.cast op x w) = fits_value x
fits_inst (Inst.icmp p x y) = fits_value x && fits_value y
fits_inst (Inst.select c x y) = fits_value c && (fits_value x && fits_value y)
fits_inst (Inst.call_read_mem a) = fits_value a
fits_inst (Inst.call_write_ram a x) = fits_value a && fits_value x

abbrev pub all_fit : List Inst → Bool
all_fit [] = true
all_fit (inst ∷ code) = fits_inst inst && all_fit code

-- The same as statements.
abbrev pub FitsValue : Value → Type 0
FitsValue (new_int w n) = n < 2 ^ bits w
FitsValue _ = Unit

abbrev pub FitsInst : Inst → Type 0
FitsInst (Inst.load w p) = FitsValue p
FitsInst (Inst.store x p) = FitsValue x × FitsValue p
FitsInst (Inst.binary op x y) = FitsValue x × FitsValue y
FitsInst (Inst.cast op x w) = FitsValue x
FitsInst (Inst.icmp p x y) = FitsValue x × FitsValue y
FitsInst (Inst.select c x y) = FitsValue c × FitsValue x × FitsValue y
FitsInst (Inst.call_read_mem a) = FitsValue a
FitsInst (Inst.call_write_ram a x) = FitsValue a × FitsValue x

pub fits_value-FitsValue : (v : Value) → fits_value v ≡ true → FitsValue v
fits_value-FitsValue (new_int w n) e = ground arith
fits_value-FitsValue param e = tt
fits_value-FitsValue (global g) e = tt
fits_value-FitsValue (local n) e = tt

pub &&-split : (a b : Bool) → (a && b) ≡ true → (a ≡ true) × (b ≡ true)
&&-split true b e = (refl, e)
&&-split false b e = cc

both_fit : (x y : Value) → (fits_value x && fits_value y) ≡ true → FitsValue x × FitsValue y
both_fit x y e =
    let (f, g) = &&-split (fits_value x) (fits_value y) e in
    (fits_value-FitsValue x f, fits_value-FitsValue y g)

fits_inst-FitsInst : (inst : Inst) → fits_inst inst ≡ true → FitsInst inst
fits_inst-FitsInst (Inst.load w p) e = fits_value-FitsValue p e
fits_inst-FitsInst (Inst.store x p) e = both_fit x p e
fits_inst-FitsInst (Inst.binary op x y) e = both_fit x y e
fits_inst-FitsInst (Inst.cast op x w) e = fits_value-FitsValue x e
fits_inst-FitsInst (Inst.icmp p x y) e = both_fit x y e
fits_inst-FitsInst (Inst.select c x y) e =
    let (f, g) = &&-split (fits_value c) (fits_value x && fits_value y) e in
    let (h, k) = both_fit x y g in (fits_value-FitsValue c f, h, k)
fits_inst-FitsInst (Inst.call_read_mem a) e = fits_value-FitsValue a e
fits_inst-FitsInst (Inst.call_write_ram a x) e = both_fit a x e

pub all_fit-All : (code : List Inst) → all_fit code ≡ true → All FitsInst code
all_fit-All [] e = tt
all_fit-All (inst ∷ code) e =
    let (f, g) = &&-split (fits_inst inst) (all_fit code) e in
    (fits_inst-FitsInst inst f, all_fit-All code g)
