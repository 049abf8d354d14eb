-- ===== src/Cli/Parsed.antt =====
-- What an accepted command line leaves in the configuration.
use micro_container.Prelude.{
  length, drop, ℕ, ◌≤◌, ◌≡◌, false, Option, none, some, List, [], ◌∷◌, ◌++◌,
}
use micro_container.Cli.{Call, CageConfig, cage_max, OptionKind, kind_of, bad_name, env, volume}

abbrev pub env_arg : OptionKind → List ℕ → List (List ℕ)
env_arg env optarg = optarg ∷ []
env_arg _ optarg = []

abbrev pub volume_arg : OptionKind → List ℕ → List (List ℕ)
volume_arg volume optarg = optarg ∷ []
volume_arg _ optarg = []

-- The arguments of all options of one kind, in their order.
abbrev pub env_args : List Call → List (List ℕ)
env_args [] = []
env_args (call ∷ calls) = env_arg (kind_of call.opt) call.optarg ++ env_args calls

abbrev pub volume_args : List Call → List (List ℕ)
volume_args [] = []
volume_args (call ∷ calls) = volume_arg (kind_of call.opt) call.optarg ++ volume_args calls

-- No name was given, or one that is not empty and has no slash.
abbrev pub IsNamed : Option (List ℕ) → Type 0
IsNamed none = Unit
IsNamed (some n) = bad_name n ≡ false

-- The arrays have room for what is in them, and the name is a good one.
pub record IsConfig (cfg : CageConfig) : Type 0 where
  pub envvars_fit : length cfg.envvars ≤ cage_max
  pub volumes_fit : length cfg.volumes ≤ cage_max
  pub command_fits : length cfg.command ≤ cage_max
  pub named_well : IsNamed cfg.name

-- One option, handled.
record IsHandled (kind : OptionKind) (cfg : CageConfig) (optarg : List ℕ) (made : CageConfig)
    : Type 0 where
  envs : made.envvars ≡ cfg.envvars ++ env_arg kind optarg
  vols : made.volumes ≡ cfg.volumes ++ volume_arg kind optarg
  commands : made.command ≡ cfg.command
  valid : IsConfig cfg → IsConfig made

-- All options, handled.
record IsLooped (calls : List Call) (cfg made : CageConfig) : Type 0 where
  envs : made.envvars ≡ cfg.envvars ++ env_args calls
  vols : made.volumes ≡ cfg.volumes ++ volume_args calls
  commands : made.command ≡ cfg.command
  valid : IsConfig cfg → IsConfig made

Looped : List Call → CageConfig → Option (CageConfig × ℕ) → Type 0
Looped calls cfg none = Unit
Looped calls cfg (some made) = IsLooped calls cfg made.0

-- What the command line leaves in the configuration.
pub record IsParsed (argv : List (List ℕ)) (calls : List Call) (optind : ℕ) (cfg : CageConfig)
    : Type 0 where
  pub valid : IsConfig cfg
  pub envs : cfg.envvars ≡ env_args calls
  pub vols : cfg.volumes ≡ volume_args calls
  pub commands : cfg.command ≡ drop optind argv
