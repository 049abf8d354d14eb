-- ===== src/Env/Vars.antt =====
-- src/util/env.c: the variables of the container. The fields of `EnvVars` (`env_t`) that lead to a
-- string "KEY=value" hold that string. `getenv` is a parameter: the value of a variable of the caller.
pub mod Parsed
pub mod Gui
use micro_container.Prelude.{
  ◌>>=◌, leb, ◌==◌, if◌then◌else◌, length, get_or, str_eq, ℕ, Bool, true, false, Option, none, some,
  List, [], ◌∷◌, ◌++◌,
}
use micro_container.Pkg.Deps.{part_at}
use micro_container.Pkg.Names.{starts_with}
use micro_container.Env.{EnvMap, env_map_init, env_map_put, env_map_ensure}

pub record EnvVars : Type 0 where
  pub path : Option (List ℕ)
  pub term : Option (List ℕ)
  pub lang : Option (List ℕ)
  pub home : Option (List ℕ)
  pub shell : Option (List ℕ)
  pub user : Option (List ℕ)
  pub guest_shell_override : Bool
  pub host_xdg_runtime_dir : Option (List ℕ)
  pub host_home : Option (List ℕ)
  pub map : EnvMap

-- "PATH=", "TERM=", "LANG=", "HOME=", "SHELL=" and "USER=".
abbrev pub path_key : List ℕ
path_key = b'P' ∷ b'A' ∷ b'T' ∷ b'H' ∷ b'=' ∷ []

abbrev pub term_key : List ℕ
term_key = b'T' ∷ b'E' ∷ b'R' ∷ b'M' ∷ b'=' ∷ []

abbrev pub lang_key : List ℕ
lang_key = b'L' ∷ b'A' ∷ b'N' ∷ b'G' ∷ b'=' ∷ []

abbrev pub home_key : List ℕ
home_key = b'H' ∷ b'O' ∷ b'M' ∷ b'E' ∷ b'=' ∷ []

abbrev pub shell_key : List ℕ
shell_key = b'S' ∷ b'H' ∷ b'E' ∷ b'L' ∷ b'L' ∷ b'=' ∷ []

abbrev pub user_key : List ℕ
user_key = b'U' ∷ b'S' ∷ b'E' ∷ b'R' ∷ b'=' ∷ []

-- DEF_PATH without its key.
abbrev pub def_path : List ℕ
def_path =
    b'/' ∷ b'b' ∷ b'i' ∷ b'n' ∷ b':' ∷ b'/' ∷ b's' ∷ b'b' ∷ b'i' ∷ b'n' ∷ b':' ∷ b'/' ∷ b'u' ∷ b's'
    ∷ b'r' ∷ b'/' ∷ b'b' ∷ b'i' ∷ b'n' ∷ b':' ∷ b'/' ∷ b'u' ∷ b's' ∷ b'r' ∷ b'/' ∷ b's' ∷ b'b'
    ∷ b'i' ∷ b'n' ∷ b':' ∷ b'/' ∷ b'u' ∷ b's' ∷ b'r' ∷ b'/' ∷ b'l' ∷ b'o' ∷ b'c' ∷ b'a' ∷ b'l'
    ∷ b'/' ∷ b'b' ∷ b'i' ∷ b'n' ∷ b':' ∷ b'/' ∷ b'u' ∷ b's' ∷ b'r' ∷ b'/' ∷ b'l' ∷ b'o' ∷ b'c'
    ∷ b'a' ∷ b'l' ∷ b'/' ∷ b's' ∷ b'b' ∷ b'i' ∷ b'n' ∷ []

abbrev pub def_term : List ℕ
def_term = b'l' ∷ b'i' ∷ b'n' ∷ b'u' ∷ b'x' ∷ []

abbrev pub def_lang : List ℕ
def_lang = b'C' ∷ []

abbrev pub sync_parts : EnvMap → List ℕ × Option (List ℕ) → Option EnvMap
sync_parts m (key, none) = some m
sync_parts m (key, some val) = if leb 128 (length key) then some m else env_map_put m key val

unfoldable pub sync_field : EnvMap → Option (List ℕ) → Option EnvMap
unfolding part_at
sync_field m none = some m
sync_field m (some kv) = sync_parts m (part_at b'=' kv)

-- The value that stands, the caller's, or the default.
abbrev pub default_of : List ℕ → Option (List ℕ) → Option (List ℕ) → List ℕ → Option (List ℕ)
default_of key (some field) val def = some field
default_of key none (some val) def = some (key ++ val)
default_of key none none def = some (key ++ def)

unfoldable pub set_default_env : (List ℕ → Option (List ℕ)) → EnvVars → EnvVars
set_default_env getenv e = record e {
  path = default_of path_key e.path none def_path;
  term = default_of term_key e.term (getenv (b'T' ∷ b'E' ∷ b'R' ∷ b'M' ∷ [])) def_term;
  lang = default_of lang_key e.lang (getenv (b'L' ∷ b'A' ∷ b'N' ∷ b'G' ∷ [])) def_lang;
}

-- The first of the six keys that the string starts with gets it.
unfoldable pub try_any : List ℕ → EnvVars → EnvVars
unfolding starts_with
try_any e env =
    if starts_with e path_key
    then record env { path = some e }
    else if starts_with e term_key
    then record env { term = some e }
    else if starts_with e lang_key
    then record env { lang = some e }
    else if starts_with e home_key
    then record env { home = some e }
    else if starts_with e shell_key
    then record env { shell = some e }
    else if starts_with e user_key
    then record env { user = some e }
    else env

-- The inner `none` is the failure of a string without '='.
unfoldable pub parse_parts : List ℕ × Option (List ℕ) → EnvVars → Option (Option EnvVars)
parse_parts (key, none) env = some none
parse_parts (key, some val) env = do
  m ← env_map_put env.map key val
  some (some (record env { map = m }))

unfoldable pub parse_one_env : List ℕ → EnvVars → Option (Option EnvVars)
unfolding parse_parts try_any part_at
parse_one_env e env = parse_parts (part_at b'=' e) (try_any e env)

unfoldable pub shell_not_given : Option (List ℕ) → Bool
shell_not_given none = true
shell_not_given (some shell) = get_or shell 6 0 == 0

abbrev pub on_parsed :
    Option EnvVars → (EnvVars → Option (Option EnvVars)) → Option (Option EnvVars)
on_parsed none next = some none
on_parsed (some env) next = next env

unfoldable pub parse_loop : List (List ℕ) → EnvVars → Option (Option EnvVars)
unfolding parse_one_env shell_not_given
parse_loop [] env = some (some (record env { guest_shell_override = shell_not_given env.shell }))
parse_loop (e ∷ envs) env = do r ← parse_one_env e env; on_parsed r (λ env'. parse_loop envs env')

abbrev pub zeroed : EnvMap → EnvVars
zeroed m = record {
  path = none;
  term = none;
  lang = none;
  home = none;
  shell = none;
  user = none;
  guest_shell_override = false;
  host_xdg_runtime_dir = none;
  host_home = none;
  map = m;
}

unfoldable pub parse_envs : (List ℕ → Option (List ℕ)) → List (List ℕ) → Option (Option EnvVars)
unfolding set_default_env sync_field parse_loop
parse_envs getenv envs = do
  m ← env_map_init
  let env = set_default_env getenv (zeroed m)
  m₁ ← sync_field m env.path
  m₂ ← sync_field m₁ env.term
  m₃ ← sync_field m₂ env.lang
  parse_loop envs (record env { map = m₃ })

-- The keys of `key_is_gui`.
abbrev gui_keys : List (List ℕ)
gui_keys =
    (b'D' ∷ b'I' ∷ b'S' ∷ b'P' ∷ b'L' ∷ b'A' ∷ b'Y' ∷ [])
    ∷ (b'X' ∷ b'D' ∷ b'G' ∷ b'_' ∷ b'R' ∷ b'U' ∷ b'N' ∷ b'T' ∷ b'I' ∷ b'M' ∷ b'E' ∷ b'_' ∷ b'D'
        ∷ b'I' ∷ b'R' ∷ [])
    ∷ (b'W' ∷ b'A' ∷ b'Y' ∷ b'L' ∷ b'A' ∷ b'N' ∷ b'D' ∷ b'_' ∷ b'D' ∷ b'I' ∷ b'S' ∷ b'P' ∷ b'L'
        ∷ b'A' ∷ b'Y' ∷ [])
    ∷ (b'P' ∷ b'U' ∷ b'L' ∷ b'S' ∷ b'E' ∷ b'_' ∷ b'S' ∷ b'E' ∷ b'R' ∷ b'V' ∷ b'E' ∷ b'R' ∷ [])
    ∷ (b'P' ∷ b'U' ∷ b'L' ∷ b'S' ∷ b'E' ∷ b'_' ∷ b'C' ∷ b'O' ∷ b'O' ∷ b'K' ∷ b'I' ∷ b'E' ∷ [])
    ∷ (b'X' ∷ b'D' ∷ b'G' ∷ b'_' ∷ b'S' ∷ b'E' ∷ b'S' ∷ b'S' ∷ b'I' ∷ b'O' ∷ b'N' ∷ b'_' ∷ b'T'
        ∷ b'Y' ∷ b'P' ∷ b'E' ∷ [])
    ∷ (b'X' ∷ b'D' ∷ b'G' ∷ b'_' ∷ b'C' ∷ b'U' ∷ b'R' ∷ b'R' ∷ b'E' ∷ b'N' ∷ b'T' ∷ b'_' ∷ b'D'
        ∷ b'E' ∷ b'S' ∷ b'K' ∷ b'T' ∷ b'O' ∷ b'P' ∷ [])
    ∷ (b'G' ∷ b'D' ∷ b'K' ∷ b'_' ∷ b'B' ∷ b'A' ∷ b'C' ∷ b'K' ∷ b'E' ∷ b'N' ∷ b'D' ∷ [])
    ∷ (b'Q' ∷ b'T' ∷ b'_' ∷ b'Q' ∷ b'P' ∷ b'A' ∷ b'_' ∷ b'P' ∷ b'L' ∷ b'A' ∷ b'T' ∷ b'F' ∷ b'O'
        ∷ b'R' ∷ b'M' ∷ [])
    ∷ (b'S' ∷ b'D' ∷ b'L' ∷ b'_' ∷ b'V' ∷ b'I' ∷ b'D' ∷ b'E' ∷ b'O' ∷ b'D' ∷ b'R' ∷ b'I' ∷ b'V'
        ∷ b'E' ∷ b'R' ∷ [])
    ∷ (b'C' ∷ b'L' ∷ b'U' ∷ b'T' ∷ b'T' ∷ b'E' ∷ b'R' ∷ b'_' ∷ b'B' ∷ b'A' ∷ b'C' ∷ b'K' ∷ b'E'
        ∷ b'N' ∷ b'D' ∷ [])
    ∷ (b'M' ∷ b'O' ∷ b'Z' ∷ b'_' ∷ b'E' ∷ b'N' ∷ b'A' ∷ b'B' ∷ b'L' ∷ b'E' ∷ b'_' ∷ b'W' ∷ b'A'
        ∷ b'Y' ∷ b'L' ∷ b'A' ∷ b'N' ∷ b'D' ∷ [])
    ∷ (b'_' ∷ b'J' ∷ b'A' ∷ b'V' ∷ b'A' ∷ b'_' ∷ b'A' ∷ b'W' ∷ b'T' ∷ b'_' ∷ b'W' ∷ b'M' ∷ b'_'
        ∷ b'N' ∷ b'O' ∷ b'N' ∷ b'R' ∷ b'E' ∷ b'P' ∷ b'A' ∷ b'R' ∷ b'E' ∷ b'N' ∷ b'T' ∷ b'I' ∷ b'N'
        ∷ b'G' ∷ [])
    ∷ []

abbrev key_in : List (List ℕ) → List ℕ → Bool
key_in [] key = false
key_in (k ∷ keys) key = let rest = key_in keys key in if str_eq k key then true else rest

unfoldable pub key_is_gui : List ℕ → Bool
key_is_gui key = key_in gui_keys key

abbrev pub inherit_parts : EnvMap → List ℕ × Option (List ℕ) → Option EnvMap
inherit_parts m (key, none) = some m
inherit_parts m (key, some val) =
    if leb 128 (length key)
    then some m
    else if key_is_gui key
    then env_map_ensure m key (some val)
    else some m

-- The blob is the list of its strings, and an empty one ends it.
unfoldable pub inherit_loop : EnvMap → List (List ℕ) → Option EnvMap
unfolding part_at
inherit_loop m [] = some m
inherit_loop m ([] ∷ strings) = some m
inherit_loop m ((c ∷ s) ∷ strings) = do
  m' ← inherit_parts m (part_at b'=' (c ∷ s))
  inherit_loop m' strings

unfoldable pub env_inherit_gui : EnvMap → Option (List (List ℕ)) → Option EnvMap
unfolding inherit_loop
env_inherit_gui m none = some m
env_inherit_gui m (some strings) = inherit_loop m strings
