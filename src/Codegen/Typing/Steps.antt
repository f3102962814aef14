-- ===== src/Codegen/Typing/Steps.antt =====
-- One instruction of typed code.
use gbrc.Common.{
  ℕ, ◌^◌, ◌<◌, ◌≡◌, refl, sym, arith, Bool, true, false, leb, ◌==◌, if◌then◌else◌, Option, none,
  some, Bool-cases, inl, inr,
}
use gbrc.Codegen.Ir.{Width, i1, i8, i16, bits, Global, global_width, Binary, Cast, Predicate}
use gbrc.Codegen.Machine.{
  Runtime, Machine, Datum, word, void, get, put, flag, same_width, cast_fits, apply_cast, compare,
  step_load, step_store, step_binary, step_cast, step_icmp, step_select, step_read, step_write,
  cg_read_memory,
}
use gbrc.Codegen.Typing.{
  Kind, number, address, nothing, any, shift_fits, check, check_load, check_store, check_binary,
  check_cast, check_icmp, check_select, check_read, check_write,
}
use gbrc.Codegen.Typing.Bounds.{same_width-eq, apply_binary-lt, apply_cast-lt, compare-lt}
use gbrc.Codegen.Typing.Sized.{IsSized, put-IsSized, IsOfKind, Meets}

-- The runtime's memory holds bytes, and so reads yield bytes.
pub record GivesBytes {W : Type 0} (runtime : Runtime W) : Type 0 where
  pub ram : (world : W) (addr : ℕ) → runtime.ram world addr < 256
  pub read_ram : (world : W) (addr : ℕ) → (runtime.read_ram world addr).0 < 256

if_some :
    {A : Type 0} (b : Bool) (x y : A) → (if b then some x else none) ≡ some y → (b ≡ true) × (x ≡ y)
if_some true x y e = (refl, cc)
if_some false x y e = cc

if_then :
    {A : Type 0} (b : Bool) (x : Option A) (y : A)
    → (if b then x else none) ≡ some y
    → (b ≡ true) × (x ≡ some y)
if_then true x y e = (refl, e)
if_then false x y e = cc

-- The world is no global.
kept : {W : Type 0} (m : Machine W) (world : W) → IsSized m → IsSized (record m { world = world })
kept m world h Global.pc = h Global.pc
kept m world h g = h g

module _ {W : Type 0} (runtime : Runtime W) (bytes : GivesBytes runtime) where
  -- An instruction that has a value of the kind, and leaves the globals within their widths.
  abbrev pub Goes : Kind → Option (Datum × Machine W) → Type 0
  Goes k o = (d : Datum) × (m : Machine W) × (o ≡ some (d, m)) × IsOfKind k d × IsSized m

  module _ (argument : Option Datum) (m : Machine W) (h : IsSized m) where
    pub load-Goes :
        (w : Width) (p : Option Kind) (d : Option Datum) (k : Kind)
        → Meets p d
        → check_load w p ≡ some k
        → Goes k (step_load runtime argument m w d)
    load-Goes w none d k is c = cc
    load-Goes w (some (number v n)) d k is c = cc
    load-Goes w (some nothing) d k is c = cc
    load-Goes w (some (address g)) d k (at, e, is) c =
        let (same, q) = if_some (same_width w (global_width g)) (any w) k c in
        let size : get m g < 2 ^ bits w = rw (same_width-eq w (global_width g) same) (h g) in
        rw (e, is, same, ← q) (word w (get m g), m, refl, (get m g, refl, size, size), h)

    pub store-Goes :
        (x p : Option Kind) (d e : Option Datum) (k : Kind)
        → Meets x d
        → Meets p e
        → check_store x p ≡ some k
        → Goes k (step_store runtime argument m d e)
    store-Goes (some (number w b)) (some (address g)) d e k (_, at, (n, is, _, size)) (_, to, dest)
          c =
        let (same, q) = if_some (same_width w (global_width g)) nothing k c in
        let fits : n < 2 ^ bits (global_width g) =
          rw (sym (same_width-eq w (global_width g) same)) size in
        rw (at, is, to, dest, same, ← q) (void, put m g n, refl, tt, put-IsSized m g n h fits)
    store-Goes _ _ d e k is at c = cc

    pub binary-Goes :
        (op : Binary) (x y : Option Kind) (d e : Option Datum) (k : Kind)
        → Meets x d
        → Meets y e
        → check_binary op x y ≡ some k
        → Goes k (step_binary runtime argument m op d e)
    binary-Goes op (some (number w a)) (some (number v b)) d e k (_, at, (x, is, _, size))
          (_, to, (y, js, below, size')) c =
        let (same, c') =
          if_then (same_width w v) (if shift_fits op w b then some (any w) else none) k c in
        let (fits, q) = if_some (shift_fits op w b) (any w) k c' in
        let size'' : y < 2 ^ bits w = rw (same_width-eq w v same) size' in
        let (n, r, small) = apply_binary-lt op w x y b size size'' below fits in
        rw (at, is, to, js, same, ← q, r) (word w n, m, refl, (n, refl, small, small), h)
    binary-Goes op _ _ d e k is at c = cc

    pub cast-Goes :
        (op : Cast) (x : Option Kind) (w : Width) (d : Option Datum) (k : Kind)
        → Meets x d
        → check_cast op x w ≡ some k
        → Goes k (step_cast runtime argument m op d w)
    cast-Goes op (some (number v b)) w d k (_, at, (n, is, _, size)) c =
        let (fits, q) = if_some (cast_fits op v w) (any w) k c in
        let small = apply_cast-lt op v w n size fits in
        rw (at, is, fits, ← q)
          (word w (apply_cast op v n w), m, refl, (apply_cast op v n w, refl, small, small), h)
    cast-Goes op _ w d k is c = cc

    pub icmp-Goes :
        (p : Predicate) (x y : Option Kind) (d e : Option Datum) (k : Kind)
        → Meets x d
        → Meets y e
        → check_icmp x y ≡ some k
        → Goes k (step_icmp runtime argument m p d e)
    icmp-Goes p (some (number w a)) (some (number v b)) d e k (_, at, (x, is, _, _))
          (_, to, (y, js, _, _)) c =
        let (same, q) = if_some (same_width w v) (any i1) k c in
        let small = compare-lt p x y in
        rw (at, is, to, js, same, ← q)
          (word i1 (flag (compare p x y)), m, refl, (flag (compare p x y), refl, small, small), h)
    icmp-Goes p _ _ d e k is at c = cc

    pub select-Goes :
        (x y z : Option Kind) (d e f : Option Datum) (k : Kind)
        → Meets x d
        → Meets y e
        → Meets z f
        → check_select x y z ≡ some k
        → Goes k (step_select runtime argument m d e f)
    select-Goes (some (number i1 a)) (some (number w b)) (some (number v b')) d e f k
          (_, at, (c, is, _, _)) (_, to, (x, js, _, size)) (_, up, (y, ks, _, size')) check =
        let (same, q) = if_some (same_width w v) (any w) k check in
        let size'' : y < 2 ^ bits w = rw (same_width-eq w v same) size' in
        let small : (if c == 0 then y else x) < 2 ^ bits w = ground arith in
        rw (at, is, to, js, up, ks, same, ← q)
          (word w (if c == 0 then y else x), m, refl, (_, refl, small, small), h)
    select-Goes _ _ _ d e f k is at up c = cc

    pub read-Goes :
        (x : Option Kind) (d : Option Datum) (k : Kind)
        → Meets x d
        → check_read x ≡ some k
        → Goes k (step_read runtime argument m d)
    read-Goes (some (number i16 b)) d k (_, at, (a, is, _, _)) c =
        let q : any i8 ≡ k = cc in
        let small : (cg_read_memory runtime m.world a).0 < 256 = elim (Bool-cases (leb 0xE000 a)) [
          | inl high ↦ rw high (bytes.read_ram m.world a)
          | inr low ↦ rw low (bytes.ram m.world a)
        ] in
        rw (at, is, ← q)
          (_, _, refl, (_, refl, small, small), kept m (cg_read_memory runtime m.world a).1 h)
    read-Goes _ d k is c = cc

    pub write-Goes :
        (x y : Option Kind) (d e : Option Datum) (k : Kind)
        → Meets x d
        → Meets y e
        → check_write x y ≡ some k
        → Goes k (step_write runtime argument m d e)
    write-Goes (some (number i16 a)) (some (number i8 b)) d e k (_, at, (x, is, _, _))
          (_, to, (y, js, _, _)) c =
        let q : nothing ≡ k = cc in
        rw (at, is, to, js, ← q) (void, _, refl, tt, kept m (runtime.write_ram m.world x y) h)
    write-Goes _ _ d e k is at c = cc
