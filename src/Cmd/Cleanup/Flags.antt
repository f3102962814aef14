-- ===== src/Cmd/Cleanup/Flags.antt =====
-- The flags, the ROM and the seeds, before Run makes a directory.
use Prim.Native.String.{String}
use text.Mathlib.Text.{◌==◌ as str_eq}
use gbrc.Common.{ℕ, refl, Bool, true, false, if◌then◌else◌, Option, List, []}
use gbrc.Rom.{parse}
use gbrc.Cmd.Seeds.{read_seeds}
use gbrc.Cmd.Shell.{System, Action, pure, ◌>>=◌, ◌>>◌, ask, must, must_some}
use gbrc.Cmd.Command.{
  Options, parse_rom, is_none, complete, seeds_read, seeds_for, check_frontend, parse_flags,
}
use gbrc.Cmd.Cleanup.Actions.{
  IsBalanced, bind-IsBalanced, ask-IsBalanced, must-IsBalanced, must_some-IsBalanced,
  pure-IsBalanced, checked-IsBalanced, if-IsBalanced,
}

module _ {W E : Type 0} (sys : System W E) (files : List (String × Option (List ℕ))) where
  check_frontend-IsBalanced : (o : Options) → IsBalanced (check_frontend sys files o)
  check_frontend-IsBalanced o = if-IsBalanced o.only_ir _ _ (pure-IsBalanced tt) (
      if-IsBalanced (str_eq o.frontend "") _ _ (must-IsBalanced "--frontend is required" false)
        (checked-IsBalanced (sys.stat o.frontend) "cannot read frontend object"))

  pub parse_flags-IsBalanced : (o : Options) → IsBalanced (parse_flags sys files o)
  unfolding parse_flags
  parse_flags-IsBalanced o =
      let given : Bool = if str_eq o.rom_path "" then false else true in
      let stat_rom : Action W (Unit {0}) = ask (sys.stat o.rom_path) >>= must "cannot read rom" in
      bind-IsBalanced ((must "usage" given >> stat_rom) >> check_frontend sys files o)
        (λ _. pure (complete sys files o))
        (bind-IsBalanced (must "usage" given >> stat_rom) (λ _. check_frontend sys files o)
          (bind-IsBalanced (must "usage" given) (λ _. stat_rom) (must-IsBalanced "usage" given)
            (λ _. checked-IsBalanced (sys.stat o.rom_path) "cannot read rom"))
          (λ _. check_frontend-IsBalanced o))
        (λ _. pure-IsBalanced (complete sys files o))

  pub seeds_for-IsBalanced : (o : Options) → IsBalanced (seeds_for sys files o)
  seeds_for-IsBalanced o =
      if-IsBalanced (str_eq o.profile "") (pure []) _ (λ s. refl)
        (bind-IsBalanced (ask (sys.open_lines o.profile)) (seeds_read sys files)
          (ask-IsBalanced (sys.open_lines o.profile))
          (λ opened.
            bind-IsBalanced (must "read profile" (is_none (read_seeds opened).1))
              (λ _. pure (read_seeds opened).0)
              (must-IsBalanced "read profile" (is_none (read_seeds opened).1)) (λ _ s. refl)))

  pub parse_rom-IsBalanced : (o : Options) → IsBalanced (parse_rom sys files o)
  parse_rom-IsBalanced o =
      bind-IsBalanced (ask (sys.read_file o.rom_path))
        (λ contents. must_some "parse rom" (parse contents))
        (ask-IsBalanced (sys.read_file o.rom_path))
        (λ contents. must_some-IsBalanced "parse rom" (parse contents))
