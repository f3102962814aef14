-- ===== src/Codegen/Typing/Sized.antt =====
-- Machines whose globals hold numbers of their widths, and data of the kinds that were found.
use gbrc.Common.{
  ℕ, zero, suc, ◌^◌, ◌<◌, ◌≡◌, refl, arith, Option, none, some, List, [], ◌∷◌, ◌++◌, get_elem?,
}
use gbrc.Codegen.Ir.{bits, Global, global_width, Value, new_int, param, global, local}
use gbrc.Codegen.Machine.{Runtime, Machine, Datum, word, pointer, get, put, value_of}
use gbrc.Codegen.Typing.{Kind, number, address, nothing, kind_of, FitsValue}

module _ {W : Type 0} where
  -- Every global holds a number of its width.
  abbrev pub IsSized : Machine W → Type 0
  IsSized m = (g : Global) → get m g < 2 ^ bits (global_width g)

  -- A store of a number of the right width.
  pub put-IsSized :
      (m : Machine W) (g : Global) (n : ℕ)
      → IsSized m
      → n < 2 ^ bits (global_width g)
      → IsSized (put m g n)
  put-IsSized m Global.cycles n h k Global.cycles = k
  put-IsSized m Global.a_reg n h k Global.a_reg = k
  put-IsSized m Global.b_reg n h k Global.b_reg = k
  put-IsSized m Global.c_reg n h k Global.c_reg = k
  put-IsSized m Global.d_reg n h k Global.d_reg = k
  put-IsSized m Global.e_reg n h k Global.e_reg = k
  put-IsSized m Global.h_reg n h k Global.h_reg = k
  put-IsSized m Global.l_reg n h k Global.l_reg = k
  put-IsSized m Global.z_flag n h k Global.z_flag = k
  put-IsSized m Global.n_flag n h k Global.n_flag = k
  put-IsSized m Global.h_flag n h k Global.h_flag = k
  put-IsSized m Global.c_flag n h k Global.c_flag = k
  put-IsSized m Global.pc n h k Global.pc = k
  put-IsSized m Global.sp n h k Global.sp = k
  put-IsSized m Global.ime n h k Global.ime = k
  put-IsSized m _ n h k g = h g

-- A value that a kind describes.
abbrev pub IsOfKind : Kind → Datum → Type 0
IsOfKind (number w bound) d = (n : ℕ) × (d ≡ word w n) × (n < bound) × (n < 2 ^ bits w)
IsOfKind (address g) d = d ≡ pointer g
IsOfKind nothing d = Unit

abbrev pub AreOfKinds : List Kind → List Datum → Type 0
AreOfKinds [] [] = Unit
AreOfKinds (k ∷ ks) (d ∷ ds) = IsOfKind k d × AreOfKinds ks ds
AreOfKinds _ _ = ⊥

-- An operand that may be missing, as the argument of a function without a parameter is.
abbrev pub Meets : Option Kind → Option Datum → Type 0
Meets none _ = Unit
Meets (some k) o = (d : Datum) × (o ≡ some d) × IsOfKind k d

AreOfKinds-get :
    (ks : List Kind) (ds : List Datum) (n : ℕ)
    → AreOfKinds ks ds
    → Meets (get_elem? ks n) (get_elem? ds n)
AreOfKinds-get [] ds n h = tt
AreOfKinds-get (k ∷ ks) [] n h = absurd h
AreOfKinds-get (k ∷ ks) (d ∷ ds) zero h = (d, refl, h.0)
AreOfKinds-get (k ∷ ks) (d ∷ ds) (suc n) h = AreOfKinds-get ks ds n h.1

pub AreOfKinds-snoc :
    (ks : List Kind) (ds : List Datum) (k : Kind) (d : Datum)
    → AreOfKinds ks ds
    → IsOfKind k d
    → AreOfKinds (ks ++ k ∷ []) (ds ++ d ∷ [])
AreOfKinds-snoc [] [] k d h is = (is, tt)
AreOfKinds-snoc [] (e ∷ ds) k d h is = absurd h
AreOfKinds-snoc (l ∷ ks) [] k d h is = absurd h
AreOfKinds-snoc (l ∷ ks) (e ∷ ds) k d h is = (h.0, AreOfKinds-snoc ks ds k d h.1 is)

-- What the check says of an operand is true when the code runs.
pub value_of-Meets :
    {W : Type 0} (runtime : Runtime W) (kind : Option Kind) (argument : Option Datum)
    (ks : List Kind) (ds : List Datum) (v : Value)
    → Meets kind argument
    → AreOfKinds ks ds
    → FitsValue v
    → Meets (kind_of kind ks v) (value_of runtime argument ds v)
value_of-Meets runtime kind argument ks ds (new_int w n) given h fits =
    (word w n, refl, (n, refl, omega arith, fits))
value_of-Meets runtime kind argument ks ds param given h fits = given
value_of-Meets runtime kind argument ks ds (global g) given h fits = (pointer g, refl, refl)
value_of-Meets runtime kind argument ks ds (local n) given h fits = AreOfKinds-get ks ds n h
