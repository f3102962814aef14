-- ===== src/Cmd/Cleanup/Actions.antt =====
-- Actions that keep the temporary directories.
use Prim.Native.String.{String}
use gbrc.Common.{
  ◌≡◌, refl, subst, Bool, true, false, if◌then◌else◌, Option, some, none, List, [], ◌++◌,
}
use gbrc.Cmd.Shell.{
  Shell, Outcome, returned, fatal, crashed, Action, pure, ◌>>=◌, and_then, ask, must, must_some,
}

-- Where an action returns or panics, the temporary directories are those of before; where log.Fatal
-- ends the process, those of before are still there, maybe with others in front of them.
abbrev pub Keeps : {W A : Type 0} → List String → Outcome A × Shell W → Type 0
Keeps ts (returned a, s) = s.temps ≡ ts
Keeps ts (fatal what, s) = (extra : List String) × (s.temps ≡ extra ++ ts)
Keeps ts (crashed, s) = s.temps ≡ ts

module _ {W : Type 0} where
  abbrev pub IsBalanced : {A : Type 0} → Action W A → Type 0
  IsBalanced act = (s : Shell W) → Keeps s.temps (act s)

  pub and_then-Keeps :
      {A B : Type 0} (ts : List String) (r : Outcome A × Shell W) (f : A → Action W B)
      → Keeps ts r
      → ((a : A) → IsBalanced (f a))
      → Keeps ts (and_then f r)
  and_then-Keeps ts (returned a, s) f h k = subst (λ x. Keeps x (f a s)) h (k a s)
  and_then-Keeps ts (fatal what, s) f h k = h
  and_then-Keeps ts (crashed, s) f h k = h

  pub bind-IsBalanced :
      {A B : Type 0} (act : Action W A) (f : A → Action W B)
      → IsBalanced act
      → ((a : A) → IsBalanced (f a))
      → IsBalanced (act >>= f)
  bind-IsBalanced act f h k s = and_then-Keeps s.temps (act s) f (h s) k

  pub ask-IsBalanced : {A : Type 0} (call : W → A × W) → IsBalanced (ask call)
  ask-IsBalanced call s = refl

  pub must-IsBalanced : (what : String) (ok : Bool) → IsBalanced (must what ok)
  must-IsBalanced what true s = refl
  must-IsBalanced what false s = ([], refl)

  pub must_some-IsBalanced :
      {A : Type 0} (what : String) (o : Option A) → IsBalanced (must_some what o)
  must_some-IsBalanced what none s = ([], refl)
  must_some-IsBalanced what (some a) s = refl

  pub pure-IsBalanced : {A : Type 0} (a : A) → IsBalanced (pure a)
  pure-IsBalanced a s = refl

  -- A call that may fail, and its `must`.
  pub checked-IsBalanced :
      (call : W → Bool × W) (what : String) → IsBalanced (ask call >>= must what)
  checked-IsBalanced call what =
      bind-IsBalanced (ask call) (must what) (ask-IsBalanced call) (must-IsBalanced what)

  pub if-IsBalanced :
      {A : Type 0} (b : Bool) (x y : Action W A)
      → IsBalanced x
      → IsBalanced y
      → IsBalanced (if b then x else y)
  if-IsBalanced true x y h k = h
  if-IsBalanced false x y h k = k
