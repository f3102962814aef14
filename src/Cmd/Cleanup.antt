-- ===== src/Cmd/Cleanup.antt =====
-- The temporary directories of Run.
pub mod Actions
pub mod Flags
pub mod Runtime
pub mod Failure
use Prim.Native.String.{String}
use text.Mathlib.Text.{◌==◌ as str_eq, starts_with}
use text.Mathlib.TextEquality.{eq_iff}
use mathlib.Core.List.{append_assoc}
use gbrc.Common.{
  ℕ, ◌≡◌, refl, sym, ap, ◌∙◌, subst, Bool, true, false, ◌||◌, if◌then◌else◌, Option, some, none,
  List, [], ◌∷◌, ◌++◌, Run, done, panic, out_of_fuel,
}
use gbrc.Analyzer.Types.{Block}
use gbrc.Rom.{parse}
use gbrc.Analyzer.Analyze.{analyze_blocks}
use gbrc.Decoder.Cache.{new}
use gbrc.Cmd.Seeds.{read_seeds}
use gbrc.Codegen.Assembly.{Emit, emitted, failed, panicked, new_codegen}
use gbrc.Cmd.Toolchain.{Toolchain}
use gbrc.Cmd.Shell.{
  System, Shell, Outcome, returned, fatal, crashed, Action, pure, ◌>>=◌, ◌>>◌, and_then, ask, must,
  must_some, make_temp, made_temp, after_defer, without, remove, defer_remove,
}
use gbrc.Cmd.Command.{
  Options, parse_rom, is_none, complete, seeds_read, when_ok, write_contents, write_runtime, unpack,
  toolchain_for, save_ir_file, finish_build, seeds_for, check_frontend, of_run, of_emit,
  parse_flags, extract_runtime, collect_sources, build_program, build, run_command,
}
use gbrc.Cmd.Cleanup.Actions.{
  Keeps, IsBalanced, and_then-Keeps, bind-IsBalanced, ask-IsBalanced, must-IsBalanced,
  must_some-IsBalanced, pure-IsBalanced, checked-IsBalanced, if-IsBalanced,
}
use gbrc.Cmd.Cleanup.Runtime.{Removes, opened-Keeps, make_temp-Opens, extract_runtime-Opens}
use gbrc.Cmd.Cleanup.Flags.{parse_flags-IsBalanced, parse_rom-IsBalanced, seeds_for-IsBalanced}

module _ {W E : Type 0} (sys : System W E) (files : List (String × Option (List ℕ)))
    (removes : Removes sys) where
  collect_sources-IsBalanced : (root : String) → IsBalanced (collect_sources sys files root)
  unfolding collect_sources
  collect_sources-IsBalanced root s = refl

  tool-IsBalanced :
      (what tool : String) (args : List String)
      → IsBalanced (ask (sys.run_tool tool args) >>= must what)
  tool-IsBalanced what tool args = checked-IsBalanced (sys.run_tool tool args) what

  build_program-IsBalanced :
      (o : Options) (name work ir : String) (tc : Toolchain) (d : String)
      → IsBalanced (build_program sys files o name work ir tc d)
  unfolding build_program
  build_program-IsBalanced o name work ir tc d =
      bind-IsBalanced _ _
        (bind-IsBalanced _ _ (tool-IsBalanced _ tc.cc _) (λ _.
          bind-IsBalanced _ (must_some "collect runtime sources") (collect_sources-IsBalanced _)
            (must_some-IsBalanced "collect runtime sources")))
        (λ sources.
          bind-IsBalanced _ _ (tool-IsBalanced "compile runtime" tc.cc _)
            (λ _. tool-IsBalanced "link" tc.cc _))

  toolchain_for-IsBalanced : (target : String) → IsBalanced (toolchain_for sys files target)
  toolchain_for-IsBalanced target =
      if-IsBalanced (str_eq target "") _ _ (λ s. refl)
        (if-IsBalanced (starts_with target "wasm") _ _ (λ s. refl) (λ s. refl))

  save_ir_file-IsBalanced :
      (o : Options) (name ir : String) → IsBalanced (save_ir_file sys files o name ir)
  save_ir_file-IsBalanced o name ir =
      if-IsBalanced (o.only_ir || o.save_ir) _ _
        (bind-IsBalanced _ _
          (bind-IsBalanced (ask (sys.read_file ir)) (must_some "read ir")
            (ask-IsBalanced (sys.read_file ir)) (must_some-IsBalanced "read ir"))
          (λ contents. checked-IsBalanced _ "save ir"))
        (pure-IsBalanced tt)

  finish_build-IsBalanced :
      (o : Options) (name work ir : String) → IsBalanced (finish_build sys files o name work ir)
  finish_build-IsBalanced o name work ir = if-IsBalanced o.only_ir _ _ (pure-IsBalanced tt) (
      bind-IsBalanced (toolchain_for sys files o.target) _ (toolchain_for-IsBalanced o.target)
        (λ tc s.
          opened-Keeps sys files removes s.temps "unpack runtime" (extract_runtime sys files s)
            (build_program sys files o name work ir tc) (extract_runtime-Opens sys files removes s)
            (build_program-IsBalanced o name work ir tc)))

  of_emit-IsBalanced :
      {A : Type 0} (what : String) (r : Emit A) → IsBalanced {W = W} (of_emit what r)
  of_emit-IsBalanced what (emitted a) s = refl
  of_emit-IsBalanced what failed s = ([], refl)
  of_emit-IsBalanced what panicked s = refl

  of_run-IsBalanced : {A : Type 0} (r : Run A) → IsBalanced {W = W} (of_run r)
  of_run-IsBalanced (done a) s = refl
  of_run-IsBalanced panic s = refl
  of_run-IsBalanced out_of_fuel s = refl

  build-IsBalanced :
      (o : Options) (bytes : List ℕ) (blocks : List Block) (work : String)
      → IsBalanced (build sys files o bytes blocks work)
  unfolding build
  build-IsBalanced o bytes blocks work =
      bind-IsBalanced (of_emit "generate ir" (new_codegen blocks)) _
        (of_emit-IsBalanced "generate ir" (new_codegen blocks))
        (λ p.
          bind-IsBalanced _ _
            (bind-IsBalanced _ _
              (bind-IsBalanced _ _
                (checked-IsBalanced (sys.write_file _ (sys.render p bytes)) "write ir")
                (λ _. tool-IsBalanced "optimize ir" "opt" _))
              (λ _. save_ir_file-IsBalanced o _ _))
            (λ _. finish_build-IsBalanced o _ work _))

  -- For any flags, runtime and system on which every removal succeeds, and from any state: if Run
  -- returns or panics, the temporary directories are those that there were before. If log.Fatal ends
  -- the process, every one of those is still there, maybe with others in front of them.
  pub run_command-IsBalanced : (flags : Options) → IsBalanced (run_command sys files flags)
  unfolding run_command
  run_command-IsBalanced flags =
      bind-IsBalanced (parse_flags sys files flags) _ (parse_flags-IsBalanced sys files flags) λ o.
        bind-IsBalanced (parse_rom sys files o) _ (parse_rom-IsBalanced sys files o) λ rom.
          bind-IsBalanced (seeds_for sys files o) _ (seeds_for-IsBalanced sys files o) λ seeds.
            bind-IsBalanced (of_run (analyze_blocks (new rom) seeds)) _
              (of_run-IsBalanced (analyze_blocks (new rom) seeds))
              λ blocks.
                bind-IsBalanced _ _
                  (checked-IsBalanced (sys.mkdir_all o.out_dir) "create output directory")
                  λ _ s.
                    opened-Keeps sys files removes s.temps "create work directory"
                      (make_temp sys "gbrc-" s) (build sys files o rom.bytes blocks)
                      (make_temp-Opens sys files removes "gbrc-" s)
                      (build-IsBalanced o rom.bytes blocks)
