-- ===== src/Cli.antt =====
-- src/cli/args.c: the command line. `getopt_long` is a parameter: `Call` is what one call of it
-- returns and leaves in its global variables. A C string is the list of its bytes.
pub mod Parsed
use micro_container.Prelude.{
  ltb, leb, ◌==◌, if◌then◌else◌, length, get_or, drop, ℕ, ◌+◌, Bool, true, false, ◌&&◌, ◌||◌,
  Option, none, some, List, [], ◌∷◌, ◌++◌,
}
use micro_container.Mem.Paths.{find_slash}

-- `opt` is the returned character, and `optind` the index afterwards.
pub record Call : Type 0 where
  pub opt : ℕ
  pub optarg : List ℕ
  pub optind : ℕ

-- The arrays with their counts are lists; a pointer that may be NULL is an option.
pub record CageConfig : Type 0 where
  pub appdir : Option (List ℕ)
  pub unshare_cgroup : Bool
  pub currentdir : List ℕ
  pub envvars : List (List ℕ)
  pub graphical : Bool
  pub group : Option (List ℕ)
  pub show_help : Bool
  pub initscript : Option (List ℕ)
  pub kill_mode : Bool
  pub lowerdir : List ℕ
  pub unshare_net : Bool
  pub name : Option (List ℕ)
  pub pidfile : Option (List ℕ)
  pub upperdir : Option (List ℕ)
  pub user : List ℕ
  pub show_version : Bool
  pub volumes : List (List ℕ)
  pub workdir : Option (List ℕ)
  pub has_dashdash : Bool
  pub command : List (List ℕ)

-- CAGE_MAX_ENVVARS, CAGE_MAX_VOLUMES and CAGE_MAX_CMD_ARGS.
abbrev pub cage_max : ℕ
cage_max = 256

-- The cases of `handle_opt`, and the entries of `opt_handlers`.
pub data OptionKind : Type 0 where
  help version missing unknown : OptionKind
  app cgroup cwd env gui grp init_ kill lower net named pid upper usr volume work : OptionKind
  ignored : OptionKind

abbrev kinds : List (ℕ × OptionKind)
kinds =
    (b'h', help)
    ∷ (b'V', version)
    ∷ (b':', missing)
    ∷ (b'?', unknown)
    ∷ (b'a', app)
    ∷ (b'C', cgroup)
    ∷ (b'c', cwd)
    ∷ (b'e', env)
    ∷ (b'G', gui)
    ∷ (b'g', grp)
    ∷ (b'i', init_)
    ∷ (b'k', kill)
    ∷ (b'l', lower)
    ∷ (b'N', net)
    ∷ (b'n', named)
    ∷ (b'p', pid)
    ∷ (b'U', upper)
    ∷ (b'u', usr)
    ∷ (b'v', volume)
    ∷ (b'w', work)
    ∷ []

abbrev kind_in : List (ℕ × OptionKind) → ℕ → OptionKind
kind_in [] opt = ignored
kind_in (k ∷ rest) opt = if k.0 == opt then k.1 else kind_in rest opt

unfoldable pub kind_of : ℕ → OptionKind
kind_of opt = kind_in kinds opt

unfoldable pub handle_e : CageConfig → List ℕ → Option CageConfig
handle_e cfg optarg =
    if leb cage_max (length cfg.envvars)
    then none
    else some (record cfg { envvars = cfg.envvars ++ optarg ∷ [] })

-- `optarg[0] == '\0' || strchr(optarg, '/') != NULL`.
abbrev pub bad_name : List ℕ → Bool
bad_name optarg = length optarg == 0 || elim (find_slash optarg).1 [ none ↦ false | some _ ↦ true ]

unfoldable pub handle_n : CageConfig → List ℕ → Option CageConfig
handle_n cfg optarg = if bad_name optarg then none else some (record cfg { name = some optarg })

unfoldable pub handle_v : CageConfig → List ℕ → Option CageConfig
handle_v cfg optarg =
    if leb cage_max (length cfg.volumes)
    then none
    else some (record cfg { volumes = cfg.volumes ++ optarg ∷ [] })

-- The handlers; `none` where `handle_opt` returns -1.
unfoldable pub handle : OptionKind → CageConfig → List ℕ → Option CageConfig
unfolding handle_e handle_n handle_v
handle help cfg optarg = some (record cfg { show_help = true })
handle version cfg optarg = some (record cfg { show_version = true })
handle missing cfg optarg = none
handle unknown cfg optarg = none
handle app cfg optarg = some (record cfg { appdir = some optarg })
handle cgroup cfg optarg = some (record cfg { unshare_cgroup = true })
handle cwd cfg optarg = some (record cfg { currentdir = optarg })
handle env cfg optarg = handle_e cfg optarg
handle gui cfg optarg = some (record cfg { graphical = true })
handle grp cfg optarg = some (record cfg { group = some optarg })
handle init_ cfg optarg = some (record cfg { initscript = some optarg })
handle kill cfg optarg = some (record cfg { kill_mode = true })
handle lower cfg optarg = some (record cfg { lowerdir = optarg })
handle net cfg optarg = some (record cfg { unshare_net = true })
handle named cfg optarg = handle_n cfg optarg
handle pid cfg optarg = some (record cfg { pidfile = some optarg })
handle upper cfg optarg = some (record cfg { upperdir = some optarg })
handle usr cfg optarg = some (record cfg { user = optarg })
handle volume cfg optarg = handle_v cfg optarg
handle work cfg optarg = some (record cfg { workdir = some optarg })
handle ignored cfg optarg = some cfg

unfoldable pub handle_opt : CageConfig → Call → Option CageConfig
unfolding handle kind_of
handle_opt cfg call = handle (kind_of call.opt) cfg call.optarg

unfoldable pub cage_config_init : CageConfig
cage_config_init = record {
  appdir = none;
  unshare_cgroup = false;
  currentdir = b'/' ∷ [];
  envvars = [];
  graphical = false;
  group = none;
  show_help = false;
  initscript = none;
  kill_mode = false;
  lowerdir = b'/' ∷ [];
  unshare_net = false;
  name = none;
  pidfile = none;
  upperdir = none;
  user = b'0' ∷ [];
  show_version = false;
  volumes = [];
  workdir = none;
  has_dashdash = false;
  command = [];
}

-- The loop over `argv[start]` and what follows.
unfoldable pub collect_commands : CageConfig → List (List ℕ) → Option CageConfig
collect_commands cfg [] = some cfg
collect_commands cfg (arg ∷ argv) =
    let rest = collect_commands (record cfg { command = cfg.command ++ arg ∷ [] }) argv in
    if leb cage_max (length cfg.command) then none else rest

-- Going on after one option; `next` is the rest of the loop.
unfoldable pub continue_with :
    Option CageConfig → (CageConfig → Option (CageConfig × ℕ)) → Option (CageConfig × ℕ)
continue_with none next = none
continue_with (some cfg) next = next cfg

-- The loop over the calls of `getopt_long`, with `prev`.
unfoldable pub opt_loop : List Call → CageConfig → ℕ → Option (CageConfig × ℕ)
unfolding handle_opt continue_with
opt_loop [] cfg prev = some (cfg, prev)
opt_loop (call ∷ calls) cfg prev =
    continue_with (handle_opt cfg call) (λ cfg'. opt_loop calls cfg' call.optind)

-- `strcmp(arg, "--") == 0`.
abbrev pub is_dashdash : List ℕ → Bool
is_dashdash arg = length arg == 2 && (get_or arg 0 0 == b'-' && get_or arg 1 0 == b'-')

unfoldable pub finish : Option (CageConfig × ℕ) → List (List ℕ) → ℕ → Option CageConfig
unfolding collect_commands
finish none argv optind = none
finish (some (cfg, prev)) argv optind =
    let dashdash =
      leb 1 prev
      && (ltb prev (length argv) && (optind == prev + 1 && is_dashdash (get_or argv prev []))) in
    collect_commands (record cfg { has_dashdash = dashdash }) (drop optind argv)

-- `calls` is what `getopt_long` returns until it returns -1, and `optind` its index then.
unfoldable pub cage_parse_args : CageConfig → List (List ℕ) → List Call → ℕ → Option CageConfig
unfolding opt_loop finish
cage_parse_args cfg argv calls optind = finish (opt_loop calls cfg 1) argv optind
