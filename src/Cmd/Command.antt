-- ===== src/Cmd/Command.antt =====
-- cmd/cmd.go: parseFlags, extractRuntime, collectSources and Run. What is only logged is left out.
use Prim.Native.String.{String, ◌++◌ as str_append}
use text.Mathlib.Text.{◌==◌ as str_eq, starts_with}
use gbrc.Common.{
  ℕ, Bool, true, false, ◌||◌, if◌then◌else◌, Option, some, none, List, [], ◌∷◌, Run, done, panic,
  out_of_fuel,
}
use gbrc.Rom.{Rom, parse}
use gbrc.Decoder.Cache.{new}
use gbrc.Analyzer.Types.{Block}
use gbrc.Analyzer.Analyze.{analyze_blocks}
use gbrc.Codegen.Assembly.{Emit, emitted, failed, panicked, new_codegen}
use gbrc.Cmd.Seeds.{Opened, read_seeds}
use gbrc.Cmd.Toolchain.{Toolchain, select_toolchain, compile_args, runtime_args, link_args}
use gbrc.Cmd.Shell.{
  System, fatal, crashed, Action, pure, ◌>>=◌, ◌>>◌, ask, must, must_some, make_temp, remove,
  returned, defer_remove,
}

pub record Options : Type 0 where
  pub rom_path : String
  pub out_dir : String
  pub profile : String
  pub frontend : String
  pub target : String
  pub only_ir : Bool
  pub save_ir : Bool

-- `strings.TrimSuffix`
abbrev pub trim_suffix : String → String → String
trim_suffix String.[] suffix = ""
trim_suffix (String.◌∷◌ c s) suffix =
    let rest = trim_suffix s suffix in
    if str_eq (String.◌∷◌ c s) suffix then "" else String.◌∷◌ c rest

abbrev pub is_none {ℓ} : {A : Type ℓ} → Option A → Bool
is_none none = true
is_none (some _) = false

-- The results of the other components: a panic ends the process too.
abbrev pub of_run : {W A : Type 0} → Run A → Action W A
of_run (done a) s = (returned a, s)
of_run panic s = (crashed, s)
of_run out_of_fuel s = (crashed, s)

abbrev pub of_emit : {W A : Type 0} → String → Emit A → Action W A
of_emit what (emitted a) s = (returned a, s)
of_emit what failed s = (fatal what, s)
of_emit what panicked s = (crashed, s)

-- `files`: the regular files of the runtime that is embedded, in the order of WalkDir, with what
-- ReadFile gives for them.
module _ {W E : Type 0} (sys : System W E) (files : List (String × Option (List ℕ))) where
  -- The flags as they were parsed, checked and completed.
  abbrev pub check_frontend : Options → Action W (Unit {0})
  check_frontend o =
      if o.only_ir
      then pure tt
      else if str_eq o.frontend ""
      then must "--frontend is required" false
      else ask (sys.stat o.frontend) >>= must "cannot read frontend object"

  abbrev pub complete : Options → Options
  complete o = if str_eq o.out_dir "" then record o { out_dir = sys.dir o.rom_path } else o

  unfoldable pub parse_flags : Options → Action W Options
  parse_flags o =
      must "usage" (if str_eq o.rom_path "" then false else true)
      >> (ask (sys.stat o.rom_path) >>= must "cannot read rom")
      >> check_frontend o
      >> pure (complete o)

  -- The rest of the function, where there is no error.
  abbrev pub when_ok : Action W Bool → Bool → Action W Bool
  when_ok rest true = rest
  when_ok rest false = pure false

  abbrev pub write_contents : String → Option (List ℕ) → Action W Bool
  write_contents target none = pure false
  write_contents target (some bytes) = ask (sys.write_file target bytes)

  abbrev pub write_runtime : String → List (String × Option (List ℕ)) → Action W Bool
  write_runtime d [] = pure true
  write_runtime d ((path, contents) ∷ rest) =
      ask (sys.mkdir_all (sys.dir (sys.join d path)))
      >>= when_ok (write_contents (sys.join d path) contents)
      >>= when_ok (write_runtime d rest)

  -- On an error the directory is removed.
  abbrev pub unpack : Option String → Action W (Option String)
  unpack none = pure none
  unpack (some d) = write_runtime d files >>= λ ok. elim ok [
    | true ↦ pure (some d)
    | false ↦ λ s. (returned none, remove sys d s)
  ]

  unfoldable pub extract_runtime : Action W (Option String)
  extract_runtime = make_temp sys "gbrc-runtime-" >>= unpack

  abbrev pub c_files : List (String × Bool) → List String
  c_files [] = []
  c_files ((path, is_dir) ∷ entries) =
      let rest = c_files entries in
      if is_dir then rest else if str_eq (sys.ext path) ".c" then path ∷ rest else rest

  abbrev pub some_sources : List String → Option (List String)
  some_sources [] = none
  some_sources (s ∷ rest) = some (s ∷ rest)

  unfoldable pub collect_sources : String → Action W (Option (List String))
  collect_sources root = ask (sys.walk root) >>= λ found.
      pure (elim found [ none ↦ none | some entries ↦ some_sources (c_files entries) ])

  abbrev pub toolchain_for : String → Action W Toolchain
  toolchain_for target =
      if str_eq target ""
      then (ask sys.pkg_config >>= λ out. pure (select_toolchain target out ""))
      else if starts_with target "wasm"
      then (ask (sys.getenv "GBRC_SHELL") >>= λ shell. pure (select_toolchain target none shell))
      else pure (select_toolchain target none "")

  abbrev pub compile : Toolchain → (src obj : String) → List String → Action W (Unit {0})
  compile tc src obj extra =
      ask (sys.run_tool tc.cc (compile_args tc src obj extra))
      >>= must (str_append "compile " (sys.base_name src))

  abbrev pub compile_runtime : Toolchain → List String → String → List String → Action W (Unit {0})
  compile_runtime tc sources obj extra =
      ask (sys.run_tool tc.cc (runtime_args tc sources obj extra)) >>= must "compile runtime"

  -- Run behind extractRuntime.
  unfoldable pub build_program :
      Options → (name work ir : String) → Toolchain → String → Action W (Unit {0})
  build_program o name work ir tc runtime_dir =
      let root = sys.join runtime_dir "runtime" in
      let rom_obj = sys.join work (str_append name ".o") in
      let runtime_obj = sys.join work "libgbrc.o" in
      let out_path = sys.join o.out_dir (str_append name tc.out_ext) in
      compile tc ir rom_obj ("-x" ∷ "ir" ∷ [])
      >> (collect_sources (sys.join root "src") >>= must_some "collect runtime sources")
      >>= λ sources.
          compile_runtime tc sources runtime_obj (str_append "-I" (sys.join root "include") ∷ [])
          >> (ask (sys.run_tool tc.cc (link_args tc rom_obj runtime_obj o.frontend out_path))
              >>= must "link")

  abbrev pub write_ir_copy : Options → String → List ℕ → Action W (Unit {0})
  write_ir_copy o name contents =
      ask (sys.write_file (sys.join o.out_dir (str_append name ".ll")) contents) >>= must "save ir"

  abbrev pub save_ir_file : Options → (name ir : String) → Action W (Unit {0})
  save_ir_file o name ir =
      if o.only_ir || o.save_ir
      then (ask (sys.read_file ir) >>= must_some "read ir") >>= write_ir_copy o name
      else pure tt

  abbrev pub finish_build : Options → (name work ir : String) → Action W (Unit {0})
  finish_build o name work ir =
      if o.only_ir
      then pure tt
      else toolchain_for o.target >>= λ tc.
          (extract_runtime >>= must_some "unpack runtime") >>= λ runtime_dir.
          defer_remove sys runtime_dir (build_program o name work ir tc runtime_dir)

  -- Run behind the work directory.
  unfoldable pub build : Options → List ℕ → List Block → String → Action W (Unit {0})
  unfolding extract_runtime build_program
  build o bytes blocks work =
      let name = trim_suffix (sys.base_name o.rom_path) (sys.ext o.rom_path) in
      let ir = sys.join work (str_append name ".ll") in
      of_emit "generate ir" (new_codegen blocks) >>= λ p.
      (ask (sys.write_file ir (sys.render p bytes)) >>= must "write ir")
      >> (ask (sys.run_tool "opt" ("-O2" ∷ "-S" ∷ ir ∷ "-o" ∷ ir ∷ [])) >>= must "optimize ir")
      >> save_ir_file o name ir
      >> finish_build o name work ir

  abbrev pub seeds_read : Opened E → Action W (List ℕ)
  seeds_read opened =
      must "read profile" (is_none (read_seeds opened).1) >> pure (read_seeds opened).0

  abbrev pub seeds_for : Options → Action W (List ℕ)
  seeds_for o =
      if str_eq o.profile "" then pure [] else ask (sys.open_lines o.profile) >>= seeds_read

  abbrev pub parse_rom : Options → Action W Rom
  parse_rom o =
      ask (sys.read_file o.rom_path) >>= λ contents. must_some "parse rom" (parse contents)

  -- Run, with the flags as they were parsed.
  unfoldable pub run_command : Options → Action W (Unit {0})
  unfolding parse_flags build
  run_command flags = parse_flags flags >>= λ o. parse_rom o >>= λ rom. seeds_for o >>= λ seeds.
      of_run (analyze_blocks (new rom) seeds) >>= λ blocks.
      (ask (sys.mkdir_all o.out_dir) >>= must "create output directory")
      >> ((make_temp sys "gbrc-" >>= must_some "create work directory") >>= λ work.
          defer_remove sys work (build o rom.bytes blocks work))
