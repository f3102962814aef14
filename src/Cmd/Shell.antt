-- ===== src/Cmd/Shell.antt =====
-- What the command asks of the operating system, and how it fails: log.Fatal ends the process, and no
-- deferred call runs; a panic runs the deferred calls on its way out.
use Prim.Native.String.{String}
use text.Mathlib.Text.{◌==◌ as str_eq}
use gbrc.Common.{ℕ, Bool, true, false, if◌then◌else◌, Option, some, none, List, [], ◌∷◌}
use gbrc.Codegen.Assembly.{Program}
use gbrc.Cmd.Seeds.{Opened}

-- The file system and the tools, on a state `W` that every call may change, and the functions of
-- path/filepath on names. A call with a Boolean tells whether it succeeds.
pub record System (W E : Type 0) : Type 0 where
  pub stat : String → W → Bool × W
  pub read_file : String → W → Option (List ℕ) × W
  pub open_lines : String → W → Opened E × W
  pub write_file : String → List ℕ → W → Bool × W
  pub mkdir_all : String → W → Bool × W
  pub mkdir_temp : String → W → Option String × W
  pub remove_all : String → W → Bool × W
  pub walk : String → W → Option (List (String × Bool)) × W
  pub run_tool : String → List String → W → Bool × W
  pub pkg_config : W → Option String × W
  pub getenv : String → W → String × W
  pub dir : String → String
  pub base_name : String → String
  pub ext : String → String
  pub join : String → String → String
  pub render : Program → List ℕ → List ℕ

-- `temps`: the temporary directories that there are, the last made first.
pub record Shell (W : Type 0) : Type 0 where
  pub world : W
  pub temps : List String

pub data Outcome {ℓ} (A : Type ℓ) : Type ℓ where
  returned : A → Outcome A
  fatal : String → Outcome A
  crashed : Outcome A

abbrev pub Action {ℓ} : Type 0 → Type ℓ → Type ℓ
Action W A = Shell W → Outcome A × Shell W

module _ {W : Type 0} where
  abbrev pub pure {ℓ} : {A : Type ℓ} → A → Action W A
  pure a s = (returned a, s)

  abbrev pub and_then {ℓ κ} :
      {A : Type ℓ} {B : Type κ} → (A → Action W B) → Outcome A × Shell W → Outcome B × Shell W
  and_then f (returned a, s) = f a s
  and_then f (fatal what, s) = (fatal what, s)
  and_then f (crashed, s) = (crashed, s)

  infixl 5 ◌>>=◌
  abbrev pub ◌>>=◌ {ℓ κ} : {A : Type ℓ} {B : Type κ} → Action W A → (A → Action W B) → Action W B
  (act >>= f) s = and_then f (act s)

  infixl 5 ◌>>◌
  abbrev pub ◌>>◌ {ℓ κ} : {A : Type ℓ} {B : Type κ} → Action W A → Action W B → Action W B
  act >> next = act >>= λ _. next

  abbrev pub ask : {A : Type 0} → (W → A × W) → Action W A
  ask call s = let (a, world) = call s.world in (returned a, record s { world = world })

  -- `must`, for an error alone and for a value or an error.
  abbrev pub must : String → Bool → Action W (Unit {0})
  must what true s = (returned tt, s)
  must what false s = (fatal what, s)

  abbrev pub must_some {ℓ} : {A : Type ℓ} → String → Option A → Action W A
  must_some what none s = (fatal what, s)
  must_some what (some a) s = (returned a, s)

abbrev pub without : String → List String → List String
without d [] = []
without d (t ∷ ts) = if str_eq t d then ts else t ∷ without d ts

module _ {W E : Type 0} (sys : System W E) where
  -- `os.MkdirTemp`
  abbrev pub made_temp : Shell W → Option String × W → Outcome (Option String) × Shell W
  made_temp s (none, world) = (returned none, record s { world = world })
  made_temp s (some d, world) = (returned (some d), record s { world = world; temps = d ∷ s.temps })

  abbrev pub make_temp : String → Action W (Option String)
  make_temp prefix s = made_temp s (sys.mkdir_temp prefix s.world)

  -- `os.RemoveAll`, whose error nobody looks at: where it fails the directory stays.
  abbrev pub removed : String → Shell W → Bool × W → Shell W
  removed d s (true, world) = record s { world = world; temps = without d s.temps }
  removed d s (false, world) = record s { world = world }

  abbrev pub remove : String → Shell W → Shell W
  remove d s = removed d s (sys.remove_all d s.world)

  -- `defer os.RemoveAll(d)` before the rest of a function: it runs where that returns and where it
  -- panics.
  abbrev pub after_defer {ℓ} : {A : Type ℓ} → String → Outcome A × Shell W → Outcome A × Shell W
  after_defer d (returned a, s) = (returned a, remove d s)
  after_defer d (fatal what, s) = (fatal what, s)
  after_defer d (crashed, s) = (crashed, remove d s)

  abbrev pub defer_remove {ℓ} : {A : Type ℓ} → String → Action W A → Action W A
  defer_remove d rest s = after_defer d (rest s)
