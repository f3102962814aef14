-- ===== src/Cmd/Cleanup/Failure.antt =====
-- Run where `opt` fails.
use Prim.Native.String.{String, ◌++◌ as str_append}
use gbrc.Common.{ℕ, ◌≡◌, refl, ap, subst, ◌∙◌, true, false, Option, some, none, List, [], ◌∷◌}
use gbrc.Rom.{Rom}
use gbrc.Rom.Image.{IsImage}
use gbrc.Analyzer.Types.{Block}
use gbrc.Codegen.Assembly.{emitted, Program, new_codegen}
use gbrc.Codegen.Pipeline.{rom_main_refines}
use gbrc.Cmd.Shell.{System, Shell, Outcome, returned, fatal, crashed, made_temp, after_defer}
use gbrc.Cmd.Command.{Options, trim_suffix, parse_rom, seeds_for, parse_flags, build, run_command}
use gbrc.Cmd.Cleanup.Actions.{Keeps}
use gbrc.Cmd.Cleanup.Flags.{parse_flags-IsBalanced, parse_rom-IsBalanced, seeds_for-IsBalanced}

module _ {W E : Type 0} (sys : System W E) (files : List (String × Option (List ℕ))) where
  -- Directories can be made, the work directory is `work`, and files can be written, but `opt` fails.
  pub record CannotOptimize (work : String) : Type 0 where
    pub makes : (path : String) (w : W) → (sys.mkdir_all path w).0 ≡ true
    pub makes_temp : (prefix : String) (w : W) → (sys.mkdir_temp prefix w).0 ≡ some work
    pub writes : (path : String) (bytes : List ℕ) (w : W) → (sys.write_file path bytes w).0 ≡ true
    pub fails : (args : List String) (w : W) → (sys.run_tool "opt" args w).0 ≡ false

  -- How an action ends, and the temporary directories then.
  abbrev pub LeftBehind : List String → Outcome (Unit {0}) × Shell W → Type 0
  LeftBehind ts r = (r.0 ≡ fatal "optimize ir") × (r.1.temps ≡ ts)

  build-LeftBehind :
      (o : Options) (bytes : List ℕ) (blocks : List Block) (work : String) (p : Program)
      (s : Shell W)
      → CannotOptimize work
      → new_codegen blocks ≡ emitted p
      → LeftBehind s.temps (build sys files o bytes blocks work s)
  unfolding build
  build-LeftBehind o bytes blocks work p s h generated =
      let name = trim_suffix (sys.base_name o.rom_path) (sys.ext o.rom_path) in
      let ir = sys.join work (str_append name ".ll") in
      rw
        (
          generated,
          h.writes ir (sys.render p bytes) s.world,
          h.fails ("-O2" ∷ "-S" ∷ ir ∷ "-o" ∷ ir ∷ [])
              (sys.write_file ir (sys.render p bytes) s.world).1,
        )
        (refl, refl)

  made_temp-some :
      (s : Shell W) (r : Option String × W) (d : String)
      → r.0 ≡ some d
      → made_temp sys s r ≡ (returned (some d), record s { world = r.1; temps = d ∷ s.temps })
  made_temp-some s (none, world) d e = cc
  made_temp-some s (some c, world) d e =
      let q : c ≡ d = cc in
      ap (λ x. (returned (some x), record s { world = world; temps = x ∷ s.temps })) q

  defer-LeftBehind :
      (work : String) (ts : List String) (r : Outcome (Unit {0}) × Shell W)
      → LeftBehind ts r
      → LeftBehind ts (after_defer sys work r)
  defer-LeftBehind work ts (returned a, s) h = let e = h.0 in cc
  defer-LeftBehind work ts (fatal what, s) h = h
  defer-LeftBehind work ts (crashed, s) h = let e = h.0 in cc

  -- For any flags and runtime, where the flags are good, the ROM is read and is an image, the seeds
  -- are read, and directories can be made and files written but `opt` fails: AnalyzeBlocks and New
  -- have no error, Run comes to `opt` and ends the process by log.Fatal there, and the work directory
  -- that it has made is still there, in front of the temporary directories of before.
  pub run_command-LeftBehind :
      (flags o : Options) (rom : Rom) (seeds : List ℕ) (work : String) (s s₁ s₂ s₃ : Shell W)
      → parse_flags sys files flags s ≡ (returned o, s₁)
      → parse_rom sys files o s₁ ≡ (returned rom, s₂)
      → seeds_for sys files o s₂ ≡ (returned seeds, s₃)
      → IsImage rom
      → CannotOptimize work
      → LeftBehind (work ∷ s.temps) (run_command sys files flags s)
  unfolding run_command
  run_command-LeftBehind flags o rom seeds work s s₁ s₂ s₃ given parsed read image h =
      let (bs, p, analyzed, generated, _) = rom_main_refines {W = W} rom seeds image in
      let made = (sys.mkdir_all o.out_dir s₃.world).1 in
      let temp =
        made_temp-some (record s₃ { world = made }) (sys.mkdir_temp "gbrc-" made) work
          (h.makes_temp "gbrc-" made) in
      let kept₁ : s₁.temps ≡ s.temps =
        subst (Keeps s.temps) given (parse_flags-IsBalanced sys files flags s) in
      let kept₂ : s₂.temps ≡ s₁.temps =
        subst (Keeps s₁.temps) parsed (parse_rom-IsBalanced sys files o s₁) in
      let kept₃ : s₃.temps ≡ s₂.temps =
        subst (Keeps s₂.temps) read (seeds_for-IsBalanced sys files o s₂) in
      subst (λ ts. LeftBehind (work ∷ ts) (run_command sys files flags s)) (kept₃ ∙ kept₂ ∙ kept₁)
        (rw (given, parsed, read, analyzed, h.makes o.out_dir s₃.world, temp)
          (defer-LeftBehind work (work ∷ s₃.temps) _
            (build-LeftBehind o rom.bytes bs work p _ h generated)))
