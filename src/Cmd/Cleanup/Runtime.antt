-- ===== src/Cmd/Cleanup/Runtime.antt =====
-- A directory that is made and removed again, and extractRuntime.
use Prim.Native.String.{String}
use text.Mathlib.TextEquality.{eq_iff}
use mathlib.Core.List.{append_assoc}
use gbrc.Common.{
  ℕ, ◌≡◌, refl, sym, ap, ◌∙◌, subst, Bool, true, false, Option, some, none, List, [], ◌∷◌, ◌++◌,
}
use gbrc.Cmd.Shell.{
  System, Shell, Outcome, returned, fatal, crashed, Action, pure, and_then, ask, must_some,
  make_temp, made_temp, after_defer, without, removed, remove, defer_remove,
}
use gbrc.Cmd.Command.{when_ok, write_contents, write_runtime, unpack, extract_runtime}
use gbrc.Cmd.Cleanup.Actions.{Keeps, IsBalanced}

-- Every removal succeeds.
abbrev pub Removes : {W E : Type 0} → System W E → Type 0
Removes {W} sys = (d : String) (w : W) → (sys.remove_all d w).0 ≡ true

module _ {W E : Type 0} (sys : System W E) (files : List (String × Option (List ℕ)))
    (removes : Removes sys) where
  -- An action that may leave one more directory, which it returns.
  abbrev pub Opens : List String → Outcome (Option String) × Shell W → Type 0
  Opens ts (returned none, s) = s.temps ≡ ts
  Opens ts (returned (some d), s) = s.temps ≡ d ∷ ts
  Opens ts (fatal what, s) = (extra : List String) × (s.temps ≡ extra ++ ts)
  Opens ts (crashed, s) = s.temps ≡ ts

  pub without-head : (d : String) (ts : List String) → without d (d ∷ ts) ≡ ts
  without-head d ts = rw ((eq_iff d d).1 refl) refl

  pub remove-temps : (d : String) (s : Shell W) → (remove sys d s).temps ≡ without d s.temps
  remove-temps d s = go (sys.remove_all d s.world) (removes d s.world)
    where
      go : (r : Bool × W) → r.0 ≡ true → (removed sys d s r).temps ≡ without d s.temps
      go (true, world) e = refl
      go (false, world) e = cc

  pub defer-Keeps :
      {A : Type 0} (d : String) (ts : List String) (r : Outcome A × Shell W)
      → Keeps (d ∷ ts) r
      → Keeps ts (after_defer sys d r)
  defer-Keeps d ts (returned a, s) h = remove-temps d s ∙ ap (without d) h ∙ without-head d ts
  defer-Keeps d ts (fatal what, s) (extra, h) =
      (extra ++ d ∷ [], h ∙ sym (append_assoc extra (d ∷ []) ts))
  defer-Keeps d ts (crashed, s) h = remove-temps d s ∙ ap (without d) h ∙ without-head d ts

  -- A directory that is made, and removed behind the rest.
  pub opened-Keeps :
      {A : Type 0} (ts : List String) (what : String) (r : Outcome (Option String) × Shell W)
      (rest : String → Action W A)
      → Opens ts r
      → ((d : String) → IsBalanced (rest d))
      → Keeps ts (and_then (λ d. defer_remove sys d (rest d)) (and_then (must_some what) r))
  opened-Keeps ts what (returned none, s) rest h k = ([], h)
  opened-Keeps ts what (returned (some d), s) rest h k =
      defer-Keeps d ts (rest d s) (subst (λ x. Keeps x (rest d s)) h (k d s))
  opened-Keeps ts what (fatal why, s) rest h k = h
  opened-Keeps ts what (crashed, s) rest h k = h

  pub make_temp-Opens : (prefix : String) (s : Shell W) → Opens s.temps (make_temp sys prefix s)
  make_temp-Opens prefix s = go (sys.mkdir_temp prefix s.world)
    where
      go : (r : Option String × W) → Opens s.temps (made_temp sys s r)
      go (none, world) = refl
      go (some d, world) = refl

  -- An action that always returns, and keeps the temporary directories.
  abbrev Answers : List String → Outcome Bool × Shell W → Type 0
  Answers ts (returned ok, s) = s.temps ≡ ts
  Answers ts _ = ⊥

  abbrev IsSteady : Action W Bool → Type 0
  IsSteady act = (s : Shell W) → Answers s.temps (act s)

  and_then-Answers :
      (ts : List String) (r : Outcome Bool × Shell W) (f : Bool → Action W Bool)
      → Answers ts r
      → ((ok : Bool) → IsSteady (f ok))
      → Answers ts (and_then f r)
  and_then-Answers ts (returned ok, s) f h k = subst (λ x. Answers x (f ok s)) h (k ok s)
  and_then-Answers ts (fatal what, s) f h k = absurd h
  and_then-Answers ts (crashed, s) f h k = absurd h

  when_ok-IsSteady :
      (rest : Action W Bool) → IsSteady rest → (ok : Bool) → IsSteady (when_ok sys files rest ok)
  when_ok-IsSteady rest h true s = h s
  when_ok-IsSteady rest h false s = refl

  write_contents-IsSteady :
      (target : String) (contents : Option (List ℕ))
      → IsSteady (write_contents sys files target contents)
  write_contents-IsSteady target none s = refl
  write_contents-IsSteady target (some bytes) s = refl

  write_runtime-IsSteady :
      (d : String) (fs : List (String × Option (List ℕ))) → IsSteady (write_runtime sys files d fs)
  write_runtime-IsSteady d [] s = refl
  write_runtime-IsSteady d ((path, contents) ∷ fs) s =
      and_then-Answers s.temps _ (when_ok sys files (write_runtime sys files d fs))
        (and_then-Answers s.temps (ask (sys.mkdir_all (sys.dir (sys.join d path))) s)
          (when_ok sys files (write_contents sys files (sys.join d path) contents)) refl
          (when_ok-IsSteady (write_contents sys files (sys.join d path) contents)
            (write_contents-IsSteady (sys.join d path) contents)))
        (when_ok-IsSteady (write_runtime sys files d fs) (write_runtime-IsSteady d fs))

  unpacked-Opens :
      (d : String) (ts : List String) (r : Outcome Bool × Shell W)
      → Answers (d ∷ ts) r
      → Opens ts (
          and_then
            (λ ok. elim ok [ true ↦ pure (some d) | false ↦ λ s. (returned none, remove sys d s) ])
            r)
  unpacked-Opens d ts (returned true, s) h = h
  unpacked-Opens d ts (returned false, s) h =
      remove-temps d s ∙ ap (without d) h ∙ without-head d ts
  unpacked-Opens d ts (fatal what, s) h = absurd h
  unpacked-Opens d ts (crashed, s) h = absurd h

  pub unpack-Opens :
      (ts : List String) (r : Outcome (Option String) × Shell W)
      → Opens ts r
      → Opens ts (and_then (unpack sys files) r)
  unpack-Opens ts (returned none, s) h = h
  unpack-Opens ts (returned (some d), s) h =
      unpacked-Opens d ts (write_runtime sys files d files s) (
        subst (λ x. Answers x (write_runtime sys files d files s)) h
          (write_runtime-IsSteady d files s))
  unpack-Opens ts (fatal what, s) h = h
  unpack-Opens ts (crashed, s) h = h

  pub extract_runtime-Opens : (s : Shell W) → Opens s.temps (extract_runtime sys files s)
  unfolding extract_runtime
  extract_runtime-Opens s = unpack-Opens s.temps _ (make_temp-Opens "gbrc-runtime-" s)
