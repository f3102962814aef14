-- ===== src/Codegen/Typing/Bounds.antt =====
-- The sizes of the results of the operations on numbers.
use gbrc.Common.{
  ℕ, ◌*◌, ◌/◌, ◌%◌, ◌^◌, ◌≤◌, ◌<◌, ◌≡◌, refl, arith, Bool, true, false, ltb, some, bit_and-lt,
  bit_or-lt, bit_xor-lt,
}
use native.Mathlib.Nat.{pow-le-pow_right, mod-lt, div-le_self}
use gbrc.Codegen.Ir.{Width, i1, i8, i16, i32, bits, Binary, Cast, Predicate}
use gbrc.Codegen.Machine.{flag, same_width, cast_fits, apply_binary, apply_cast, compare}
use gbrc.Codegen.Typing.{shift_fits}

pow_pos : (w : Width) → 0 < 2 ^ bits w
pow_pos i1 = omega arith
pow_pos i8 = omega arith
pow_pos i16 = omega arith
pow_pos i32 = omega arith

pub same_width-eq : (w v : Width) → same_width w v ≡ true → w ≡ v
same_width-eq i1 i1 e = refl
same_width-eq i8 i8 e = refl
same_width-eq i16 i16 e = refl
same_width-eq i32 i32 e = refl
same_width-eq _ _ e = cc

-- The result of an operation on two numbers of a width.
pub apply_binary-lt :
    (op : Binary) (w : Width) (x y bound : ℕ)
    → x < 2 ^ bits w
    → y < 2 ^ bits w
    → y < bound
    → shift_fits op w bound ≡ true
    → (n : ℕ) × (apply_binary op w x y ≡ some n) × (n < 2 ^ bits w)
apply_binary-lt Binary.add w x y bound h k below e = (_, refl, mod-lt _ (pow_pos w))
apply_binary-lt Binary.sub w x y bound h k below e = (_, refl, mod-lt _ (pow_pos w))
apply_binary-lt Binary.and w x y bound h k below e = (_, refl, bit_and-lt (bits w) x y h k)
apply_binary-lt Binary.or w x y bound h k below e = (_, refl, bit_or-lt (bits w) x y h k)
apply_binary-lt Binary.xor w x y bound h k below e = (_, refl, bit_xor-lt (bits w) x y h k)
apply_binary-lt Binary.shl w x y bound h k below e =
    let fits : ltb y (bits w) ≡ true = ground arith in
    (x * 2 ^ y % 2 ^ bits w, rw fits refl, mod-lt _ (pow_pos w))
apply_binary-lt Binary.lshr w x y bound h k below e =
    let fits : ltb y (bits w) ≡ true = ground arith in
    (x / 2 ^ y, rw fits refl, omega (arith, div-le_self x (2 ^ y)))

wider : (w v : Width) → ltb (bits w) (bits v) ≡ true → 2 ^ bits w ≤ 2 ^ bits v
wider w v e = pow-le-pow_right (omega arith) (ground arith)

pub apply_cast-lt :
    (op : Cast) (w v : Width) (x : ℕ)
    → x < 2 ^ bits w
    → cast_fits op w v ≡ true
    → apply_cast op w x v < 2 ^ bits v
apply_cast-lt Cast.trunc w v x h e = mod-lt x (pow_pos v)
apply_cast-lt Cast.zext w v x h e = omega (arith, wider w v e)
apply_cast-lt Cast.sext w v x h e = ground (arith, wider w v e)

pub compare-lt : (p : Predicate) (x y : ℕ) → flag (compare p x y) < 2
compare-lt p x y = go (compare p x y)
  where
    go : (b : Bool) → flag b < 2
    go true = omega arith
    go false = omega arith
