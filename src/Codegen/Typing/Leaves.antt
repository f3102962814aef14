-- ===== src/Codegen/Typing/Leaves.antt =====
-- Leaving a block by typed code.
use gbrc.Common.{◌≡◌, inl, inr, refl, true, ◌==◌, Bool-cases, Option, some, none, List, []}
use gbrc.Decoder.Types.{Instruction}
use gbrc.Codegen.Ir.{i1, Inst}
use gbrc.Codegen.Machine.{Runtime, Machine, Datum, value_of, exec}
use gbrc.Codegen.Exits.{Exit, br, cond_br, join_terminator}
use gbrc.Codegen.Leave.{leave, branch, run_exit}
use gbrc.Codegen.Typing.{
  Kind, number, kind_of, check_all, all_fit, all_fit-All, &&-split, fits_value,
  fits_value-FitsValue,
}
use gbrc.Codegen.Typing.Sized.{IsSized, AreOfKinds, Meets, value_of-Meets}
use gbrc.Codegen.Typing.Steps.{GivesBytes}
use gbrc.Codegen.Typing.Sound.{exec-IsSized, run_locals-IsSized}
use gbrc.Codegen.Typing.Opcodes.{is_some, is_some-some}
use gbrc.Codegen.Typing.Exits.{IsTypedExit, typed_way, way_fits, is_flag}

module _ {W : Type 0} (runtime : Runtime W) (bytes : GivesBytes runtime) where
  -- Code that gets to a machine whose globals are within their widths.
  abbrev pub Arrives : Option (Machine W) → Type 0
  Arrives o = (m : Machine W) × (o ≡ some m) × IsSized m

  block-Arrives :
      (code : List Inst) (m : Machine W)
      → IsSized m
      → is_some (check_all none [] code) ≡ true
      → all_fit code ≡ true
      → Arrives (exec runtime none [] m code)
  block-Arrives code m h checked fits =
      let (kinds, e) = is_some-some (check_all none [] code) checked in
      exec-IsSized runtime bytes none none tt code [] kinds [] m h tt (all_fit-All code fits) e

  branch-Arrives :
      (k : Option Kind) (d : Option Datum) (taken skipped : List Inst) (m : Machine W)
      → IsSized m
      → Meets k d
      → is_flag k ≡ true
      → Arrives (exec runtime none [] m taken)
      → Arrives (exec runtime none [] m skipped)
      → Arrives (branch runtime d taken skipped m)
  branch-Arrives (some (number i1 b)) d taken skipped m h (_, at, (n, is, _, _)) e (mt, rt, ht)
        (ms, rs, hs) =
      elim (Bool-cases (n == 0)) [
        | inl stays ↦ (ms, rw (at, is, stays) rs, hs)
        | inr jumps ↦ (mt, rw (at, is, jumps) rt, ht)
      ]
  branch-Arrives _ d taken skipped m h is e t s = cc

  leave-Arrives :
      (exit : Exit) (ks : List Kind) (ds : List Datum) (m : Machine W)
      → IsSized m
      → AreOfKinds ks ds
      → typed_way exit (some ks) ≡ true
      → way_fits exit ≡ true
      → Arrives (leave runtime exit ds m)
  leave-Arrives br ks ds m h are way fits = (m, refl, h)
  leave-Arrives (cond_br cond taken skipped) ks ds m h are way fits =
      let (flag, both) = &&-split (is_flag (kind_of none ks cond)) _ way in
      let (on_taken, on_skipped) = &&-split (is_some (check_all none [] taken)) _ both in
      let (cond_fits, rest) = &&-split (fits_value cond) _ fits in
      let (taken_fits, skipped_fits) = &&-split (all_fit taken) _ rest in
      branch-Arrives (kind_of none ks cond) (value_of runtime none ds cond) taken skipped m h
        (value_of-Meets runtime none none ks ds cond tt are (fits_value-FitsValue cond cond_fits))
        flag (block-Arrives taken m h on_taken taken_fits)
        (block-Arrives skipped m h on_skipped skipped_fits)

  pub run_exit-Arrives :
      (i : Instruction) (m : Machine W)
      → IsTypedExit i
      → IsSized m
      → Arrives (run_exit runtime (join_terminator i.instruction_type i) m)
  run_exit-Arrives i m h sized =
      let (ds, m', ran, are, sized') =
        run_locals-IsSized runtime bytes h.code [] h.kinds [] m sized tt h.fits h.checked in
      let (m'', left, sized'') = leave-Arrives h.exit h.kinds ds m' sized' are h.way h.way_fit in
      (m'', rw (run_exit, h.built, ran) left, sized'')
