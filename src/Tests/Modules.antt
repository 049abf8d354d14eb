-- ===== src/Tests/Modules.antt =====
-- The theorems on kernel modules and the command line at concrete inputs.
use micro_container.Prelude.{
  if◌then◌else◌, length, str_eq, ℕ, ◌+◌, ◌≡◌, refl, true, none, some, List, [], ◌∷◌, ◌↔◌,
}
use micro_container.Pkg.Deps.{find_in_buf, extract_deps}
use micro_container.Pkg.Deps.Lines.{lines, FirstLine, find_in_buf-FirstLine}
use micro_container.Pkg.Deps.Words.{words, NamesOf, extract_deps-NamesOf}
use micro_container.Pkg.Status.{scan_module_list}
use micro_container.Pkg.Status.Scan.{AnyListed, scan_module_list_iff}
use micro_container.Pkg.Modprobe.{System, State, proc_modules, modprobe_load}
use micro_container.Pkg.Modprobe.Order.{IsStep, modprobe_load-IsStep}
use micro_container.Cli.{Call, CageConfig, cage_config_init}

-- "a.ko: b.ko\nb.ko:\n".
abbrev dep_file : List ℕ
dep_file =
    b'a' ∷ b'.' ∷ b'k' ∷ b'o' ∷ b':' ∷ b' ' ∷ b'b' ∷ b'.' ∷ b'k' ∷ b'o' ∷ b'\n' ∷ b'b' ∷ b'.' ∷ b'k'
    ∷ b'o' ∷ b':' ∷ b'\n' ∷ []

-- No module is loaded or built in, "a" needs "b", and each file that is asked for loads.
abbrev machine : System ℕ
machine = record {
  uname = λ w. (some (b'6' ∷ []), w + 1);
  io_read = λ path w.
      if str_eq path proc_modules
      then (true, some (b'x' ∷ []), w + 1)
      else (true, some dep_file, w + 1);
  load_module_path = λ path w. (true, w + 1);
}

abbrev start : State ℕ
start = record {
  world = 0;
  cached_proc = none;
  cached_builtin = some (b'y' ∷ b'.' ∷ b'k' ∷ b'o' ∷ []);
  cached_deps = none;
  cached_deps_path = [];
  loads = [];
}

load_twice : length (modprobe_load machine (b'a' ∷ []) start).1.loads ≡ 2
unfolding modprobe_load scan_module_list
load_twice = refl

modprobe_load-IsStep_example : IsStep start (modprobe_load machine (b'a' ∷ []) start)
modprobe_load-IsStep_example = modprobe_load-IsStep machine (b'a' ∷ []) start

find_in_buf-FirstLine_example :
    FirstLine (b'b' ∷ []) (lines dep_file) (find_in_buf dep_file (b'b' ∷ []))
find_in_buf-FirstLine_example = find_in_buf-FirstLine dep_file (b'b' ∷ [])

find_b :
    find_in_buf dep_file (b'b' ∷ [])
    ≡ some (record { mod_path = b'b' ∷ b'.' ∷ b'k' ∷ b'o' ∷ []; deps_str = [] })
unfolding find_in_buf
find_b = refl

-- " b.ko x/c-d.ko.gz e".
abbrev words_line : List ℕ
words_line =
    b' ' ∷ b'b' ∷ b'.' ∷ b'k' ∷ b'o' ∷ b' ' ∷ b'x' ∷ b'/' ∷ b'c' ∷ b'-' ∷ b'd' ∷ b'.' ∷ b'k' ∷ b'o'
    ∷ b'.' ∷ b'g' ∷ b'z' ∷ b' ' ∷ b'e' ∷ []

extract_two : extract_deps words_line ≡ (b'b' ∷ []) ∷ (b'c' ∷ b'-' ∷ b'd' ∷ []) ∷ []
unfolding extract_deps
extract_two = refl

extract_deps-NamesOf_example : NamesOf (words words_line) (extract_deps words_line)
extract_deps-NamesOf_example = extract_deps-NamesOf words_line

scan_module_list_iff_example :
    (scan_module_list dep_file (b'b' ∷ []) ≡ true) ↔ AnyListed (b'b' ∷ []) (lines dep_file)
scan_module_list_iff_example = scan_module_list_iff dep_file (b'b' ∷ [])

-- "cage -e K=1 -n box sh".
abbrev argv : List (List ℕ)
argv =
    (b'c' ∷ [])
    ∷ (b'-' ∷ b'e' ∷ [])
    ∷ (b'K' ∷ b'=' ∷ b'1' ∷ [])
    ∷ (b'-' ∷ b'n' ∷ [])
    ∷ (b'b' ∷ b'o' ∷ b'x' ∷ [])
    ∷ (b's' ∷ b'h' ∷ [])
    ∷ []

abbrev calls : List Call
calls =
    record { opt = b'e'; optarg = b'K' ∷ b'=' ∷ b'1' ∷ []; optind = 3 }
    ∷ record { opt = b'n'; optarg = b'b' ∷ b'o' ∷ b'x' ∷ []; optind = 5 }
    ∷ []

abbrev parsed : CageConfig
unfolding cage_config_init
parsed = record cage_config_init {
  envvars = (b'K' ∷ b'=' ∷ b'1' ∷ []) ∷ [];
  name = some (b'b' ∷ b'o' ∷ b'x' ∷ []);
  command = (b's' ∷ b'h' ∷ []) ∷ [];
}
