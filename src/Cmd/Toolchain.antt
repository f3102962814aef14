-- ===== src/Cmd/Toolchain.antt =====
-- cmd/cmd.go: the toolchains and the arguments of the external tools.
use Prim.Native.Char.{code}
use Prim.Native.String.{String}
use text.Mathlib.Text.{◌==◌ as str_eq, starts_with}
use gbrc.Common.{if◌then◌else◌, Option, some, none, List, [], ◌∷◌, ◌++◌}
use gbrc.Cmd.Seeds.{is_space}

pub record Toolchain : Type 0 where
  pub cc : String
  pub flags : List String
  pub libs : List String
  pub link : List String
  pub out_ext : String

-- strings.Fields, from the right: the word that is begun, and the words behind it.
abbrev pub push_word : String → List String → List String
push_word word words = if str_eq word "" then words else word ∷ words

abbrev pub split_word : String → String × List String
split_word String.[] = ("", [])
split_word (String.◌∷◌ c s) =
    let (word, words) = split_word s in
    if is_space (code c) then ("", push_word word words) else (String.◌∷◌ c word, words)

abbrev pub fields : String → List String
fields s = let (word, words) = split_word s in push_word word words

abbrev pub compile_flags : List String
compile_flags =
    "-O2" ∷ "-ffunction-sections" ∷ "-fdata-sections" ∷ "-fno-asynchronous-unwind-tables"
    ∷ "-fno-unwind-tables" ∷ "-fno-stack-protector" ∷ []

abbrev pub libs_of : Option String → List String
libs_of none = []
libs_of (some out) = fields out

-- The output of pkg-config, if it succeeds, and the variable GBRC_SHELL.
unfoldable pub select_toolchain : (target : String) → Option String → String → Toolchain
select_toolchain target pkg_config shell =
    if str_eq target ""
    then record {
      cc = "clang";
      flags = [];
      libs = libs_of pkg_config;
      link =
          "-Wl,--gc-sections" ∷ "-Wl,--build-id=none" ∷ "-Wl,-O1" ∷ "-Wl,-z,noseparate-code" ∷ "-s"
          ∷ [];
      out_ext = "";
    }
    else if starts_with target "wasm"
    then record {
      cc = "emcc";
      flags = [];
      libs = [];
      link = if str_eq shell "" then [] else "--shell-file" ∷ shell ∷ [];
      out_ext = ".html";
    }
    else record {
      cc = "clang";
      flags = "-target" ∷ target ∷ [];
      libs = [];
      link = [];
      out_ext = "";
    }

abbrev pub compile_args : Toolchain → (src obj : String) → List String → List String
compile_args tc src obj extra =
    tc.flags ++ (compile_flags ++ (extra ++ ("-c" ∷ src ∷ "-o" ∷ obj ∷ [])))

abbrev pub runtime_args : Toolchain → List String → (obj : String) → List String → List String
runtime_args tc sources obj extra =
    tc.flags ++ (compile_flags ++ (extra ++ ("-r" ∷ (sources ++ ("-o" ∷ obj ∷ [])))))

abbrev pub link_args : Toolchain → (rom_obj runtime_obj frontend out_path : String) → List String
link_args tc rom_obj runtime_obj frontend out_path =
    tc.flags
    ++ ("-O2" ∷ rom_obj ∷ runtime_obj ∷ frontend ∷ (tc.libs ++ (tc.link ++ ("-o" ∷ out_path ∷ []))))
