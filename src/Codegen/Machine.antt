-- ===== src/Codegen/Machine.antt =====
-- What the emitted code does: the meaning of LLVM's instructions on the globals, with the functions
-- of the runtime as parameters.
use gbrc.Common.{
  ℕ, ◌+◌, ◌-◌, ◌*◌, ◌/◌, ◌%◌, ◌^◌, Bool, true, false, not, ltb, leb, ◌==◌, if◌then◌else◌, bit_and,
  bit_or, bit_xor, Option, none, some, List, [], ◌∷◌, ◌++◌, get_elem?,
}
use gbrc.Codegen.Ir.{
  Width, i1, i8, i16, bits, Global, global_width, Value, new_int, param, global, local, Binary,
  Cast, Predicate, Inst,
}

-- The runtime that the code is linked against, with the memory that it keeps.
pub record Runtime (W : Type 0) : Type 0 where
  pub ram : W → ℕ → ℕ
  pub read_ram : W → ℕ → ℕ × W
  pub write_ram : W → ℕ → ℕ → W

pub record Machine (W : Type 0) : Type 0 where
  pub cycles : ℕ
  pub a : ℕ
  pub b : ℕ
  pub c : ℕ
  pub d : ℕ
  pub e : ℕ
  pub h : ℕ
  pub l : ℕ
  pub zero_flag : ℕ
  pub sub_flag : ℕ
  pub half_flag : ℕ
  pub carry_flag : ℕ
  pub pc : ℕ
  pub sp : ℕ
  pub ime : ℕ
  pub world : W

-- A value at run time: a number of some width, the address of a global, or nothing.
pub data Datum : Type 0 where
  word : Width → ℕ → Datum
  pointer : Global → Datum
  void : Datum

module _ {W : Type 0} where
  abbrev pub get : Machine W → Global → ℕ
  get m Global.cycles = m.cycles
  get m Global.a_reg = m.a
  get m Global.b_reg = m.b
  get m Global.c_reg = m.c
  get m Global.d_reg = m.d
  get m Global.e_reg = m.e
  get m Global.h_reg = m.h
  get m Global.l_reg = m.l
  get m Global.z_flag = m.zero_flag
  get m Global.n_flag = m.sub_flag
  get m Global.h_flag = m.half_flag
  get m Global.c_flag = m.carry_flag
  get m Global.pc = m.pc
  get m Global.sp = m.sp
  get m Global.ime = m.ime

  abbrev pub put : Machine W → Global → ℕ → Machine W
  put m Global.cycles v = record m { cycles = v }
  put m Global.a_reg v = record m { a = v }
  put m Global.b_reg v = record m { b = v }
  put m Global.c_reg v = record m { c = v }
  put m Global.d_reg v = record m { d = v }
  put m Global.e_reg v = record m { e = v }
  put m Global.h_reg v = record m { h = v }
  put m Global.l_reg v = record m { l = v }
  put m Global.z_flag v = record m { zero_flag = v }
  put m Global.n_flag v = record m { sub_flag = v }
  put m Global.h_flag v = record m { half_flag = v }
  put m Global.c_flag v = record m { carry_flag = v }
  put m Global.pc v = record m { pc = v }
  put m Global.sp v = record m { sp = v }
  put m Global.ime v = record m { ime = v }

abbrev pub same_width : Width → Width → Bool
same_width w v = bits w == bits v

abbrev pub flag : Bool → ℕ
flag true = 1
flag false = 0

-- Numbers of `bits w` binary digits. A shift by the width or more has no value.
abbrev pub apply_binary : Binary → Width → ℕ → ℕ → Option ℕ
apply_binary Binary.add w x y = some ((x + y) % 2 ^ bits w)
apply_binary Binary.sub w x y = some ((x + (2 ^ bits w - y)) % 2 ^ bits w)
apply_binary Binary.and w x y = some (bit_and x y)
apply_binary Binary.or w x y = some (bit_or x y)
apply_binary Binary.xor w x y = some (bit_xor x y)
apply_binary Binary.shl w x y = if ltb y (bits w) then some (x * 2 ^ y % 2 ^ bits w) else none
apply_binary Binary.lshr w x y = if ltb y (bits w) then some (x / 2 ^ y) else none

abbrev pub apply_cast : Cast → Width → ℕ → Width → ℕ
apply_cast Cast.zext w x v = x
apply_cast Cast.sext w x v = if ltb x (2 ^ (bits w - 1)) then x else x + (2 ^ bits v - 2 ^ bits w)
apply_cast Cast.trunc w x v = x % 2 ^ bits v

abbrev pub compare : Predicate → ℕ → ℕ → Bool
compare Predicate.eq x y = x == y
compare Predicate.ne x y = not (x == y)
compare Predicate.uge x y = leb y x
compare Predicate.ugt x y = ltb y x
compare Predicate.ult x y = ltb x y

abbrev pub cast_fits : Cast → Width → Width → Bool
cast_fits Cast.trunc w v = ltb (bits v) (bits w)
cast_fits _ w v = ltb (bits w) (bits v)

-- codegen.go, setupReadMemFunc: `cg_read_memory`
abbrev pub cg_read_memory : {W : Type 0} → Runtime W → W → ℕ → ℕ × W
cg_read_memory runtime world addr =
    if leb 0xE000 addr then runtime.read_ram world addr else (runtime.ram world addr, world)

module _ {W : Type 0} (runtime : Runtime W) (argument : Option Datum) where
  abbrev pub value_of : List Datum → Value → Option Datum
  value_of locals (new_int w n) = some (word w n)
  value_of locals param = argument
  value_of locals (global g) = some (pointer g)
  value_of locals (local n) = get_elem? locals n

  -- An instruction on the values of its operands. Ill-typed code has no meaning.
  abbrev pub step_load : Machine W → Width → Option Datum → Option (Datum × Machine W)
  step_load m w (some (pointer g)) =
      if same_width w (global_width g) then some (word w (get m g), m) else none
  step_load m w _ = none

  abbrev pub step_store : Machine W → Option Datum → Option Datum → Option (Datum × Machine W)
  step_store m (some (word w n)) (some (pointer g)) =
      if same_width w (global_width g) then some (void, put m g n) else none
  step_store m _ _ = none

  abbrev pub word_of : Machine W → Width → Option ℕ → Option (Datum × Machine W)
  word_of m w none = none
  word_of m w (some n) = some (word w n, m)

  abbrev pub step_binary :
      Machine W → Binary → Option Datum → Option Datum → Option (Datum × Machine W)
  step_binary m op (some (word w x)) (some (word v y)) =
      if same_width w v then word_of m w (apply_binary op w x y) else none
  step_binary m op _ _ = none

  abbrev pub step_cast : Machine W → Cast → Option Datum → Width → Option (Datum × Machine W)
  step_cast m op (some (word w x)) v =
      if cast_fits op w v then some (word v (apply_cast op w x v), m) else none
  step_cast m op _ v = none

  abbrev pub step_icmp :
      Machine W → Predicate → Option Datum → Option Datum → Option (Datum × Machine W)
  step_icmp m p (some (word w x)) (some (word v y)) =
      if same_width w v then some (word i1 (flag (compare p x y)), m) else none
  step_icmp m p _ _ = none

  abbrev pub step_select :
      Machine W → Option Datum → Option Datum → Option Datum → Option (Datum × Machine W)
  step_select m (some (word i1 c)) (some (word w x)) (some (word v y)) =
      if same_width w v then some (word w (if c == 0 then y else x), m) else none
  step_select m _ _ _ = none

  abbrev pub step_read : Machine W → Option Datum → Option (Datum × Machine W)
  step_read m (some (word i16 addr)) =
      let (n, world) = cg_read_memory runtime m.world addr in
      some (word i8 n, record m { world = world })
  step_read m _ = none

  abbrev pub step_write : Machine W → Option Datum → Option Datum → Option (Datum × Machine W)
  step_write m (some (word i16 addr)) (some (word i8 n)) =
      some (void, record m { world = runtime.write_ram m.world addr n })
  step_write m _ _ = none

  abbrev pub step : List Datum → Machine W → Inst → Option (Datum × Machine W)
  step locals m (Inst.load w p) = step_load m w (value_of locals p)
  step locals m (Inst.store x p) = step_store m (value_of locals x) (value_of locals p)
  step locals m (Inst.binary op x y) = step_binary m op (value_of locals x) (value_of locals y)
  step locals m (Inst.cast op x w) = step_cast m op (value_of locals x) w
  step locals m (Inst.icmp p x y) = step_icmp m p (value_of locals x) (value_of locals y)
  step locals m (Inst.select c x y) =
      step_select m (value_of locals c) (value_of locals x) (value_of locals y)
  step locals m (Inst.call_read_mem a) = step_read m (value_of locals a)
  step locals m (Inst.call_write_ram a x) = step_write m (value_of locals a) (value_of locals x)

  abbrev pub exec : List Datum → Machine W → List Inst → Option (Machine W)
  exec locals m [] = some m
  exec locals m (inst ∷ code) = elim (step locals m inst) [
    | none ↦ none
    | some (v, m') ↦ exec (locals ++ v ∷ []) m' code
  ]
