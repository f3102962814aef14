-- ===== src/Cmd/Tests.antt =====
-- A profile, the toolchains, and Run on a system on which `opt` fails.
use gbrc.Common.{ℕ, ◌≡◌, refl, arith, true, false, some, none, List, [], ◌∷◌, map}
use gbrc.Cmd.Seeds.{scanned, read_seeds, seed_of, scan_lines, is_space, hex_digit}
use gbrc.Cmd.Seeds.Laws.{Reads, read_seeds_correct}
use gbrc.Cmd.Seeds.Dump.{dump_line, in_rom, read_seeds_dump}
use gbrc.Cmd.Toolchain.{fields, select_toolchain, link_args}
use gbrc.Cmd.Shell.{System, Shell}
use gbrc.Cmd.Command.{Options, parse_flags, run_command}
use gbrc.Cmd.Cleanup.Actions.{Keeps}
use gbrc.Cmd.Cleanup.{run_command-IsBalanced}
use gbrc.Cmd.Cleanup.Failure.{CannotOptimize, LeftBehind, run_command-LeftBehind}
use gbrc.Rom.{Rom}

-- ` 150`, `x`, `0150`, `8000` and `1f`.
abbrev some_lines : List (List ℕ)
some_lines =
    (0x20 ∷ 0x31 ∷ 0x35 ∷ 0x30 ∷ [])
    ∷ (0x78 ∷ [])
    ∷ (0x30 ∷ 0x31 ∷ 0x35 ∷ 0x30 ∷ [])
    ∷ (0x38 ∷ 0x30 ∷ 0x30 ∷ 0x30 ∷ [])
    ∷ (0x31 ∷ 0x66 ∷ [])
    ∷ []

some_lines_read : read_seeds {E = Unit} (scanned some_lines none) ≡ (0x150 ∷ 0x1F ∷ [], none)
unfolding read_seeds scan_lines seed_of is_space hex_digit
some_lines_read = refl

read_seeds_correct_example :
    Reads [] some_lines (read_seeds {E = Unit} (scanned some_lines (some tt))).0
    × ((read_seeds {E = Unit} (scanned some_lines (some tt))).1 ≡ some tt)
read_seeds_correct_example = read_seeds_correct some_lines (some tt)

read_seeds_dump_example :
    read_seeds {E = Unit} (scanned (map dump_line (0x150 ∷ 0xC0DE ∷ 0x1F ∷ [])) none)
    ≡ (in_rom (0x150 ∷ 0xC0DE ∷ 0x1F ∷ []), none)
read_seeds_dump_example =
    read_seeds_dump (0x150 ∷ 0xC0DE ∷ 0x1F ∷ []) (omega arith, (omega arith, (omega arith, tt)))
      (
        ((λ e. omega (arith, e)), ((λ e. omega (arith, e)), tt)),
        (((λ e. omega (arith, e)), tt), (tt, tt)),
      )

fields_example : fields " -L/lib  -lSDL2 " ≡ "-L/lib" ∷ "-lSDL2" ∷ []
unfolding is_space
fields_example = refl

link_wasm :
    link_args (select_toolchain "wasm32" none "page.html") "a.o" "b.o" "c.o" "d.html"
    ≡ "-O2" ∷ "a.o" ∷ "b.o" ∷ "c.o" ∷ "--shell-file" ∷ "page.html" ∷ "-o" ∷ "d.html" ∷ []
unfolding select_toolchain
link_wasm = refl

-- Every file is there, every directory can be made, and no tool can be run.
abbrev no_tools : System (Unit {0}) (Unit {0})
no_tools = record {
  stat = λ path w. (true, w);
  read_file = λ path w. (some (0xC9 ∷ []), w);
  open_lines = λ path w. (scanned [] none, w);
  write_file = λ path bytes w. (true, w);
  mkdir_all = λ path w. (true, w);
  mkdir_temp = λ prefix w. (some "gbrc-1", w);
  remove_all = λ path w. (true, w);
  walk = λ path w. (none, w);
  run_tool = λ tool args w. (false, w);
  pkg_config = λ w. (none, w);
  getenv = λ name w. ("", w);
  dir = λ path. path;
  base_name = λ path. path;
  ext = λ path. ".gb";
  join = λ a b. b;
  render = λ p bytes. bytes;
}

abbrev some_options : Options
some_options = record {
  rom_path = "game.gb";
  out_dir = "out";
  profile = "";
  frontend = "sdl.o";
  target = "";
  only_ir = false;
  save_ir = false;
}

abbrev empty_shell : Shell (Unit {0})
empty_shell = record { world = tt; temps = [] }

run_command-IsBalanced_example : Keeps [] (run_command no_tools [] some_options empty_shell)
run_command-IsBalanced_example =
    run_command-IsBalanced no_tools [] (λ d w. refl) some_options empty_shell

no_tools-CannotOptimize : CannotOptimize no_tools [] "gbrc-1"
no_tools-CannotOptimize = record {
  makes = λ path w. refl;
  makes_temp = λ prefix w. refl;
  writes = λ path bytes w. refl;
  fails = λ args w. refl;
}

abbrev ret_rom : Rom
ret_rom = record { bytes = 0xC9 ∷ [] }

run_command-LeftBehind_example :
    LeftBehind no_tools [] ("gbrc-1" ∷ []) (run_command no_tools [] some_options empty_shell)
unfolding parse_flags
run_command-LeftBehind_example =
    run_command-LeftBehind no_tools [] some_options some_options ret_rom [] "gbrc-1" empty_shell
      empty_shell empty_shell empty_shell refl refl refl (omega arith, tt) no_tools-CannotOptimize
