-- ===== src/Codegen/Typing/Sound.antt =====
-- Running typed code from the first instruction to the last.
use gbrc.Common.{
  subst, ◌≡◌, refl, Option, none, some, List, [], ◌∷◌, ◌++◌, All, Option-cases, inl, inr,
}
use gbrc.Codegen.Ir.{Value, Inst}
use gbrc.Codegen.Machine.{Runtime, Machine, Datum, value_of, step, exec}
use gbrc.Codegen.Leave.{run_locals}
use gbrc.Codegen.Typing.{Kind, kind_of, check, check_all, FitsInst, FitsValue}
use gbrc.Codegen.Typing.Steps.{
  GivesBytes, Goes, load-Goes, store-Goes, binary-Goes, cast-Goes, icmp-Goes, select-Goes,
  read-Goes, write-Goes,
}
use gbrc.Codegen.Typing.Sized.{IsSized, AreOfKinds, AreOfKinds-snoc, Meets, value_of-Meets}

module _ {W : Type 0} (runtime : Runtime W) (bytes : GivesBytes runtime) where
  module _ (kind : Option Kind) (argument : Option Datum) (given : Meets kind argument) where
    -- An instruction that is typed does a step.
    step-Goes :
        (inst : Inst) (ks : List Kind) (ds : List Datum) (m : Machine W) (k : Kind)
        → IsSized m
        → AreOfKinds ks ds
        → FitsInst inst
        → check kind ks inst ≡ some k
        → Goes runtime bytes k (step runtime argument ds m inst)
    step-Goes inst ks ds m k h are fits = go inst fits
      where
        operand :
            (v : Value) → FitsValue v → Meets (kind_of kind ks v) (value_of runtime argument ds v)
        operand v f = value_of-Meets runtime kind argument ks ds v given are f

        go :
            (inst : Inst)
            → FitsInst inst
            → check kind ks inst ≡ some k
            → Goes runtime bytes k (step runtime argument ds m inst)
        go (Inst.load w p) f = load-Goes runtime bytes argument m h w _ _ k (operand p f)
        go (Inst.store x p) f =
            store-Goes runtime bytes argument m h _ _ _ _ k (operand x f.0) (operand p f.1)
        go (Inst.binary op x y) f =
            binary-Goes runtime bytes argument m h op _ _ _ _ k (operand x f.0) (operand y f.1)
        go (Inst.cast op x w) f = cast-Goes runtime bytes argument m h op _ w _ k (operand x f)
        go (Inst.icmp p x y) f =
            icmp-Goes runtime bytes argument m h p _ _ _ _ k (operand x f.0) (operand y f.1)
        go (Inst.select c x y) f =
            select-Goes runtime bytes argument m h _ _ _ _ _ _ k (operand c f.0) (operand x f.1)
              (operand y f.2)
        go (Inst.call_read_mem a) f = read-Goes runtime bytes argument m h _ _ k (operand a f)
        go (Inst.call_write_ram a x) f =
            write-Goes runtime bytes argument m h _ _ _ _ k (operand a f.0) (operand x f.1)

    -- Typed code runs to the end, from any machine whose globals are within their widths to another.
    pub exec-IsSized :
        (code : List Inst) (ks ks' : List Kind) (ds : List Datum) (m : Machine W)
        → IsSized m
        → AreOfKinds ks ds
        → All FitsInst code
        → check_all kind ks code ≡ some ks'
        → (m' : Machine W) × (exec runtime argument ds m code ≡ some m') × IsSized m'
    exec-IsSized [] ks ks' ds m h are fits c = (m, refl, h)
    exec-IsSized (inst ∷ code) ks ks' ds m h are fits c = elim (Option-cases (check kind ks inst)) [
      | inl none_left ↦ let e : none ≡ some ks' = rw (none_left, check_all) at c in cc
      | inr (k, typed) ↦
          let (d, m', e, is, h') = step-Goes inst ks ds m k h are fits.0 typed in
          let (m'', r, h'') =
            exec-IsSized code (ks ++ k ∷ []) ks' (ds ++ d ∷ []) m' h'
              (AreOfKinds-snoc ks ds k d are is) fits.1 (rw (typed, check_all) at c) in
          (m'', rw (e, exec) r, h'')
    ]

  -- The same with the values at the end, for code without a parameter.
  pub run_locals-IsSized :
      (code : List Inst) (ks ks' : List Kind) (ds : List Datum) (m : Machine W)
      → IsSized m
      → AreOfKinds ks ds
      → All FitsInst code
      → check_all none ks code ≡ some ks'
      → (ds' : List Datum) × (m' : Machine W) × (run_locals runtime ds m code ≡ some (ds', m'))
        × AreOfKinds ks' ds'
        × IsSized m'
  run_locals-IsSized [] ks ks' ds m h are fits c =
      let q : ks ≡ ks' = cc in (ds, m, refl, subst (λ k. AreOfKinds k ds) q are, h)
  run_locals-IsSized (inst ∷ code) ks ks' ds m h are fits c =
      elim (Option-cases (check none ks inst)) [
        | inl none_left ↦ let e : none ≡ some ks' = rw (none_left, check_all) at c in cc
        | inr (k, typed) ↦
            let (d, m', e, is, h') = step-Goes none none tt inst ks ds m k h are fits.0 typed in
            let (ds', m'', r, are', h'') =
              run_locals-IsSized code (ks ++ k ∷ []) ks' (ds ++ d ∷ []) m' h'
                (AreOfKinds-snoc ks ds k d are is) fits.1 (rw (typed, check_all) at c) in
            (ds', m'', rw (e, run_locals) r, are', h'')
      ]
